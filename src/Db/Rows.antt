-- ===== src/Db/Rows.antt =====
-- The column vectors of a batch, and the messages that are put back from them.
use yappa_core.Common.{
  suc, ◌≡◌, refl, sym, ◌∙◌, some, List, [], ◌∷◌, ◌++◌, length, get_elem?, map, append_assoc,
  append-nil, arith, length-append,
}
use mathlib.Core.Path.{ap₂}
use yappa_core.Protocol.{ChannelType, dm, group, community, ServerMessage, empty_meta}
use yappa_core.Db.{Vectors, empty_vectors, push_row, drain, rebuild, rebuild_from, debug, read_type}

-- The vectors of a batch, column by column.
abbrev pub vectors_of : List ServerMessage → Vectors
vectors_of ms = record {
  ids = map (λ m. m.message_id) ms;
  tenants = map (λ m. m.tenant_id) ms;
  conversations = map (λ m. m.conversation_id) ms;
  channel_types = map (λ m. debug m.channel_type) ms;
  channel_ids = map (λ m. m.channel_id) ms;
  senders = map (λ m. m.sender_id) ms;
  contents = map (λ m. (m.payload).text) ms;
  times = map (λ m. m.timestamp) ms;
}

abbrev behind : Vectors → Vectors → Vectors
behind c d = record {
  ids = c.ids ++ d.ids;
  tenants = c.tenants ++ d.tenants;
  conversations = c.conversations ++ d.conversations;
  channel_types = c.channel_types ++ d.channel_types;
  channel_ids = c.channel_ids ++ d.channel_ids;
  senders = c.senders ++ d.senders;
  contents = c.contents ++ d.contents;
  times = c.times ++ d.times;
}

drain-eq-behind : (c : Vectors) (ms : List ServerMessage) → drain c ms ≡ behind c (vectors_of ms)
unfolding drain push_row
drain-eq-behind c [] = simp append-nil
drain-eq-behind c (m ∷ ms) = drain-eq-behind (push_row c m) ms ∙ simp append_assoc

pub drain-vectors_of : (ms : List ServerMessage) → drain empty_vectors ms ≡ vectors_of ms
drain-vectors_of ms = drain-eq-behind empty_vectors ms

-- What a message is after it has been put back: a chat message with no metadata, and a direct one if
-- it was for a community.
abbrev pub read_back : ChannelType → ChannelType
read_back dm = dm
read_back group = group
read_back community = dm

abbrev pub requeued : ServerMessage → ServerMessage
requeued m = record m {
  msg_type = "chat";
  channel_type = read_back m.channel_type;
  payload = record { text = (m.payload).text; meta = empty_meta };
}

read_type-debug : (ct : ChannelType) → read_type (debug ct) ≡ read_back ct
read_type-debug dm = refl
read_type-debug group = refl
read_type-debug community = refl

get_elem?-middle {ℓ κ} :
    {A : Type ℓ} {B : Type κ} (f : A → B) (pre : List A) (m : A) (post : List A)
    → get_elem? (map f (pre ++ m ∷ post)) (length pre) ≡ some (f m)
get_elem?-middle f [] m post = refl
get_elem?-middle f (x ∷ pre) m post = get_elem?-middle f pre m post

rebuild-middle :
    (pre : List ServerMessage) (m : ServerMessage) (post : List ServerMessage)
    → rebuild (vectors_of (pre ++ m ∷ post)) (length pre) ≡ some (requeued m)
unfolding rebuild
rebuild-middle pre m post = simp (get_elem?-middle, read_type-debug)

rebuild_from-middle :
    (pre post : List ServerMessage)
    → rebuild_from (vectors_of (pre ++ post)) (length pre) (length post) ≡ some (map requeued post)
unfolding rebuild_from
rebuild_from-middle pre [] = refl
rebuild_from-middle pre (m ∷ post) =
    let here : (pre ++ m ∷ []) ++ post ≡ pre ++ m ∷ post = append_assoc pre (m ∷ []) post in
    let next : length (pre ++ m ∷ []) ≡ suc (length pre) =
      omega (arith, length-append pre (m ∷ [])) in
    let rest =
      ap₂ (λ ms k. rebuild_from (vectors_of ms) k (length post)) (sym here) (sym next)
      ∙ rebuild_from-middle (pre ++ m ∷ []) post in
    rw (rebuild-middle pre m post, rest)

-- No index is out of range, and every message is put back.
pub rebuild_from-vectors_of :
    (ms : List ServerMessage) → rebuild_from (vectors_of ms) 0 (length ms) ≡ some (map requeued ms)
rebuild_from-vectors_of ms = rebuild_from-middle [] ms
