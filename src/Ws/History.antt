-- ===== src/Ws/History.antt =====
-- A direct message from the client's frame to the history: src/server/ws.rs, src/db/mod.rs and
-- src/server/history.rs on a node that persists directly.
mod Tests
use Prim.Native.String.{len}
use yappa_core.Common.{
  string_eq, ℕ, ℤ, pos, ◌≤◌, ltb, Uuid, String, false, Option, none, some, List, [], ◌∷◌, ◌++◌,
  ◌<>◌, ◌≡◌, refl, sym, subst, Any, unwrap_or, i64_max, if◌then◌else◌,
}
use yappa_core.Auth.{Identity}
use yappa_core.Protocol.{dm, Message, generate_dm_conversation_id}
use yappa_core.Connection.{TrySend}
use yappa_core.Db.{Database}
use yappa_core.Db.Flush.{inserted}
use yappa_core.Server.{ok}
use yappa_core.Server.History.{
  ChannelPath, MessageRow, MessageResponse, FetchAll, history_sql, get_channel_history,
}
use yappa_core.Server.Stored.{Row, IsTable, how_many, get_channel_history-inserted}
use yappa_core.Ws.Persist.{persisted}
use yappa_core.Ws.Rules.{dm_message, handle_text_message-dm}
use yappa_core.Ws.{Services, Draws, World, WsMessage, max_payload_size, handle_text_message}

module _ (sv : Services) (database : Database) {S : Type 0} (try_send : S → Message → TrySend × S)
    (identity : Identity) (fetch : database.Db → FetchAll) (as_text : Uuid → String)
    (epoch : database.DateTime → ℤ) (stored : database.Db → List (Row database.DateTime))
    (table : IsTable database fetch as_text epoch stored) where
  abbrev W : Type 0
  W = World sv database try_send

  abbrev pub directs_to : String → ChannelPath
  directs_to to = record { tenant_id = identity.tenant_id; channel_type = "Dm"; channel_id = to }

  -- The client's message as the history gives it.
  abbrev pub shown : Draws → String → String → MessageResponse
  shown d to said = record {
    message_id = as_text d.message_uuid;
    channel_type = "Dm";
    channel_id = to;
    sender_id = identity.user_id;
    text = said;
    timestamp = d.now;
    conversation_id =
        as_text
          (generate_dm_conversation_id sv.sha256 sv.from_slice identity.user_id to d.spare_uuid);
  }

  -- The history of a channel, with this limit, has a message.
  abbrev pub Shows : ChannelPath → MessageResponse → ℕ → database.Db → Type 0
  Shows path x n db =
      let answer =
        get_channel_history (fetch db) path (record { before = none; limit = some (pos n) }) in
      (answer.status ≡ ok) × Any (λ y. y ≡ x) answer.body

  -- On a node that persists directly, a direct chat of at most 64 KiB that serde writes and the database takes is
  -- handled with no panic; and while no more messages of the recipient's channel are stored than are asked
  -- for, up to 100, the answer of the history of that channel, if the query succeeds, is 200 and has the
  -- message, with the client as its sender, the content as its text, and the id and the time that
  -- were drawn for it, if that time is one that the database can hold.
  pub handle_text_message-history :
      (content to said p : String) (d : Draws) (w : W) (db' : database.Db) (t : database.DateTime)
      (n : ℕ) (rows : List MessageRow)
      → let payload : WsMessage = record { channel_type = dm; user_id = to; content = said } in
        sv.parse_group content ≡ none
        → sv.parse_ws content ≡ some payload
        → ltb max_payload_size (len said) ≡ false
        → sv.to_string (dm_message sv database try_send identity payload d) ≡ some p
        → w.kafka ≡ false
        → d.now ≤ i64_max
        → database.from_timestamp (pos d.now) ≡ some t
        → inserted database (dm_message sv database try_send identity payload d ∷ []) w.messages
          ≡ some db'
        → n ≤ 100
        → how_many (directs_to to) (stored db') ≤ n
        → fetch db' (history_sql none) identity.tenant_id "Dm" to (pos n) ≡ some rows
        → (w' : W) × (handle_text_message sv database try_send content identity d w ≡ some w')
          × Shows (directs_to to) (shown d to said) n w'.messages
  handle_text_message-history content to said p d w db' t n rows no_group chat fits json direct
        small time done few room query =
      let m =
        dm_message sv database try_send identity
          (record { channel_type = dm; user_id = to; content = said }) d in
      let w' : W = record w {
        published =
            w.published
            ++ ("user:" <> identity.tenant_id <> ":" <> to, p)
              ∷ ("user:" <> identity.tenant_id <> ":" <> identity.user_id, p)
              ∷ [];
      } in
      let kept : (persisted sv database try_send w' m).messages ≡ db' = rw (direct, done) refl in
      (
        persisted sv database try_send w' m,
        handle_text_message-dm sv database try_send identity content to said p d w no_group chat
            fits json,
        subst (Shows (directs_to to) (shown d to said) n) (sym kept) (
            get_channel_history-inserted database fetch as_text epoch stored table m w.messages db'
              t n rows small time done few room query),
      )
