-- ===== src/Protocol/Conversation.antt =====
-- The conversation of two users: the same from both ends, and when two pairs share one.
use yappa_core.Common.{
  ℕ, Uuid, String, ◌≡◌, ◌≢◌, ◌⊎◌, refl, sym, ap, ◌∙◌, false, Option, none, List, length, take,
  length-take_of_le, arith, ◌<>◌, string_ltb, string_ltb-antisym, string_ltb-connex, Lacks,
  append_assoc_text, split_unique, one-append,
}
use yappa_core.Protocol.{combined, generate_dm_conversation_id}

combined_comm : (a b : String) → combined a b ≡ combined b a
unfolding combined
combined_comm a b = ground (arith, string_ltb-antisym a b, string_ltb-connex a b)

joined_unique :
    (a b c d : String)
    → Lacks b':' a
    → Lacks b':' c
    → a <> ":" <> b ≡ c <> ":" <> d
    → (a ≡ c) × (b ≡ d)
joined_unique a b c d ha hc e =
    split_unique ":" a b c d ha hc
      (ap (◌<>◌ a) (sym (one-append ":" b)) ∙ e ∙ ap (◌<>◌ c) (one-append ":" d))

-- What is hashed tells the two users, if neither name has a colon.
combined_inj :
    (a b c d : String)
    → Lacks b':' a
    → Lacks b':' b
    → Lacks b':' c
    → Lacks b':' d
    → combined a b ≡ combined c d
    → ((a ≡ c) × (b ≡ d)) ⊎ ((a ≡ d) × (b ≡ c))
unfolding combined
combined_inj a b c d ha hb hc hd e = ground (
  arith,
  joined_unique a b c d ha hc,
  joined_unique a b d c ha hd,
  joined_unique b a c d hb hc,
  joined_unique b a d c hb hd,
)

module _ (sha256 : String → List ℕ) (from_slice : List ℕ → Option Uuid)
    (digest : (s : String) → length (sha256 s) ≡ 32)
    (parsed : (bytes : List ℕ) → length bytes ≡ 16 → from_slice bytes ≢ none) where
  -- The two users of a direct conversation get the same conversation id, whoever writes first and
  -- whatever fresh UUID stands by, as SHA-256 gives 32 bytes and 16 bytes are a UUID.
  pub generate_dm_conversation_id_comm :
      (a b : String) (n m : Uuid)
      → generate_dm_conversation_id sha256 from_slice a b n
        ≡ generate_dm_conversation_id sha256 from_slice b a m
  unfolding generate_dm_conversation_id
  generate_dm_conversation_id_comm a b n m =
      let bytes = take 16 (sha256 (combined a b)) in
      let enough =
        length-take_of_le 16 (sha256 (combined a b)) (omega (arith, digest (combined a b))) in
      ground (arith, combined_comm a b, parsed bytes enough)

-- Names with a colon can clash: the users `x:y` and `z` share their conversation with `x` and `y:z`,
-- where each pair is in order.
pub generate_dm_conversation_id-clash :
    (sha256 : String → List ℕ) (from_slice : List ℕ → Option Uuid) (x y z : String) (n : Uuid)
    → string_ltb z (x <> ":" <> y) ≡ false
    → string_ltb (y <> ":" <> z) x ≡ false
    → generate_dm_conversation_id sha256 from_slice (x <> ":" <> y) z n
      ≡ generate_dm_conversation_id sha256 from_slice x (y <> ":" <> z) n
unfolding generate_dm_conversation_id
generate_dm_conversation_id-clash sha256 from_slice x y z n h k =
    rw (h, k, append_assoc_text x (":" <> y) (":" <> z), append_assoc_text ":" y (":" <> z)) refl
