-- ===== src/Ws/Persist.antt =====
-- What `persist_message` hands over: to Kafka, or to the database as a batch of one.
use yappa_core.Common.{
  String, ◌≡◌, Option, none, some, [], ◌∷◌, ◌++◌, unwrap_or, if◌then◌else◌, arith, Bool-cases, inl,
  inr,
}
use yappa_core.Protocol.{ServerMessage, Message}
use yappa_core.Connection.{TrySend}
use yappa_core.Db.{Database, new}
use yappa_core.Db.Flush.{inserted, flush_lem, push_lem}
use yappa_core.Ws.{Services, World, persist_message}

module _ (sv : Services) (database : Database) {S : Type 0} (try_send : S → Message → TrySend × S)
    (w : World sv database try_send) (m : ServerMessage) where
  abbrev to_kafka : Option String → World sv database try_send
  to_kafka none = w
  to_kafka (some payload) = record w {
    produced = w.produced ++ ("messages", m.channel_id, payload) ∷ [];
  }

  -- One message for the topic, keyed by its channel, or one row; a failed INSERT leaves the data.
  abbrev pub persisted : World sv database try_send
  persisted =
      if w.kafka
      then to_kafka (sv.to_string m)
      else record w { messages = unwrap_or (inserted database (m ∷ []) w.messages) w.messages }

  pub persist_message_lem : persist_message sv database try_send w m ≡ some persisted
  unfolding persist_message
  persist_message_lem = elim (Bool-cases w.kafka) [
    | inl e ↦ ground arith
    | inr e ↦
        rw
          (
            e,
            persist_message,
            push_lem database new m w.messages,
            flush_lem database (record new { buffer = m ∷ [] }) w.messages,
          )
          (ground arith)
  ]

  pub published-persisted : persisted.published ≡ w.published
  published-persisted = ground arith

  pub registry-persisted : persisted.registry ≡ w.registry
  registry-persisted = ground arith
