-- ===== src/Db/Tests.antt =====
-- A flush that succeeds and one that fails, and a push at the capacity.
use yappa_core.Common.{string_eq, ◌≡◌, refl, some, List, [], ◌∷◌, map}
use yappa_core.Sample.{ann, ledger, broken, message_from}
use yappa_core.Protocol.{dm, community, ServerMessage}
use yappa_core.Db.{MessageBatcher, flush}
use yappa_core.Db.Flush.{flushed, flush_lem}

abbrev waiting : List ServerMessage
waiting = message_from ann community "all" "one" ∷ message_from ann dm "bob" "two" ∷ []

abbrev batcher : MessageBatcher
batcher = record { buffer = waiting; capacity = 3 }

-- The contents reach the ledger in order.
stored_in_order :
    flushed ledger batcher ("old" ∷ []) waiting
    ≡ (record { buffer = []; capacity = 3 }, "old" ∷ "one" ∷ "two" ∷ [])
stored_in_order = refl

-- A community message comes back as a direct one.
community_comes_back_direct :
    map (λ m. m.channel_type) (flushed broken batcher [] waiting).0.buffer ≡ dm ∷ dm ∷ []
community_comes_back_direct = refl

flush_lem_example : flush broken batcher [] ≡ some (flushed broken batcher [] waiting)
flush_lem_example = flush_lem broken batcher []
