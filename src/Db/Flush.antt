-- ===== src/Db/Flush.antt =====
-- What a flush and a push do, whatever the database answers.
use yappa_core.Common.{
  suc, ◌≡◌, refl, Option, none, some, List, [], ◌∷◌, ◌++◌, length, map, arith, length-append, leb,
  if◌then◌else◌, Option-cases, inl, inr,
}
use yappa_core.Protocol.{ServerMessage}
use yappa_core.Db.{Database, MessageBatcher, with_times, flush_rows, flush, push}
use yappa_core.Db.Rows.{vectors_of, drain-vectors_of, requeued, rebuild_from-vectors_of}

module _ (database : Database) where
  open database use {Db, DateTime, insert_messages}

  -- The INSERT of a batch.
  abbrev pub inserted : List ServerMessage → Db → Option Db
  inserted ms db = insert_messages (with_times database (vectors_of ms)) db

  -- The buffer and the data after the statement's answer.
  abbrev pub settled : MessageBatcher → Db → Option Db → MessageBatcher × Db
  settled b db (some db') = (record b { buffer = [] }, db')
  settled b db none = (record b { buffer = map requeued b.buffer }, db)

  flush_rows-settled :
      (b : MessageBatcher) (db : Db)
      → flush_rows database b db ≡ some (settled b db (inserted b.buffer db))
  unfolding flush_rows
  flush_rows-settled b db =
      rw (drain-vectors_of b.buffer, flush_rows)
        (elim (Option-cases (inserted b.buffer db)) [
          | inl e ↦ rw (e, drain-vectors_of b.buffer, rebuild_from-vectors_of b.buffer) refl
          | inr (db', e) ↦ rw e refl
        ])

  abbrev pub flushed : MessageBatcher → Db → List ServerMessage → MessageBatcher × Db
  flushed b db [] = (b, db)
  flushed b db (m ∷ ms) = settled b db (inserted (m ∷ ms) db)

  flush_cases :
      (b : MessageBatcher) (db : Db) (buffer : List ServerMessage)
      → b.buffer ≡ buffer
      → flush database b db ≡ some (flushed b db buffer)
  unfolding flush
  flush_cases b db [] e = ground arith
  flush_cases b db (m ∷ ms) e = ground (arith, flush_rows-settled b db)

  -- A flush never panics. An empty buffer is left alone; otherwise one INSERT gets every message of the
  -- buffer in order, column by column, and empties the buffer if the statement succeeds; if it
  -- fails, the data are unchanged and the buffer holds every message again, as `requeued` makes it.
  pub flush_lem :
      (b : MessageBatcher) (db : Db) → flush database b db ≡ some (flushed b db b.buffer)
  flush_lem b db = flush_cases b db b.buffer refl

  flushed-snoc :
      (b : MessageBatcher) (db : Db) (ms : List ServerMessage) (m : ServerMessage)
      → flushed b db (ms ++ m ∷ []) ≡ settled b db (inserted (ms ++ m ∷ []) db)
  flushed-snoc b db [] m = refl
  flushed-snoc b db (x ∷ ms) m = refl

  -- A push below the capacity only adds to the buffer; at the capacity it flushes.
  pub push_lem :
      (b : MessageBatcher) (m : ServerMessage) (db : Db)
      → push database b m db
        ≡ some (
            if leb b.capacity (suc (length b.buffer))
            then settled
                (record b { buffer = b.buffer ++ m ∷ [] })
                db
                (inserted (b.buffer ++ m ∷ []) db)
            else (record b { buffer = b.buffer ++ m ∷ [] }, db))
  unfolding push
  push_lem b m db =
      let b' = record b { buffer = b.buffer ++ m ∷ [] } in
      ground
        (arith, length-append b.buffer (m ∷ []), flush_lem b' db, flushed-snoc b' db b.buffer m)
