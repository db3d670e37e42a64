-- ===== src/Kafka/Batch.antt =====
-- A batch that is flushed: one INSERT, and what its failure does.
use yappa_core.Common.{
  suc, ◌+◌, ◌<◌, ◌≡◌, refl, ap, ◌∙◌, some, List, [], ◌∷◌, ◌++◌, length, arith, length-append,
  append_assoc, append-nil, unwrap_or,
}
use yappa_core.Protocol.{ServerMessage}
use yappa_core.Db.{Database, MessageBatcher, new, push}
use yappa_core.Db.Flush.{inserted, flushed, flush_lem, push_lem}
use yappa_core.Kafka.{push_all, flush_batch}

module _ (database : Database) where
  open database use {Db}

  -- The data after the INSERT of a batch: as they were, if it is empty or the statement fails.
  abbrev pub after_insert : List ServerMessage → Db → Db
  after_insert [] db = db
  after_insert (m ∷ ms) db = unwrap_or (inserted database (m ∷ ms) db) db

  push_below :
      (b : MessageBatcher) (m : ServerMessage) (db : Db)
      → suc (length b.buffer) < b.capacity
      → push database b m db ≡ some (record b { buffer = b.buffer ++ m ∷ [] }, db)
  push_below b m db h = ground (arith, push_lem database b m db)

  push_all-small :
      (b : MessageBatcher) (ms : List ServerMessage) (db : Db)
      → length b.buffer + length ms < b.capacity
      → push_all database b ms db ≡ some (record b { buffer = b.buffer ++ ms }, db)
  unfolding push_all
  push_all-small b [] db h = simp append-nil
  push_all-small b (m ∷ ms) db h =
      let b' = record b { buffer = b.buffer ++ m ∷ [] } in
      rw (push_below b m db (omega arith)) (
        push_all-small b' ms db (omega (arith, length-append b.buffer (m ∷ [])))
        ∙ rw (append_assoc b.buffer (m ∷ []) ms))

  flushed-after_insert :
      (ms : List ServerMessage) (db : Db)
      → (flushed database (record new { buffer = ms }) db ms).1 ≡ after_insert ms db
  flushed-after_insert [] db = refl
  flushed-after_insert (m ∷ ms) db = ground arith

  -- A batch below the batcher's capacity never panics, and its messages go to the database in one
  -- INSERT. If that fails, none of them is kept.
  pub flush_batch_lem :
      (ms : List ServerMessage) (db : Db)
      → length ms < 1000
      → flush_batch database ms db ≡ some (after_insert ms db)
  unfolding flush_batch
  flush_batch_lem ms db h =
      rw
        (push_all-small new ms db (omega arith), flush_lem database (record new { buffer = ms }) db)
        (ap some (flushed-after_insert ms db))
