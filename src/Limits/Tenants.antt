-- ===== src/Limits/Tenants.antt =====
-- The calls for one tenant leave the data of another as they are.
use yappa_core.Common.{string_eq, ℕ, ◌≡◌, ◌≢◌, ap, ◌∙◌, String, false, List, ◌==◌, ==-false, Lacks}
use yappa_core.Auth.{Identity}
use yappa_core.Limits.{online_key, refc_key}
use yappa_core.Limits.Server.{Redis, as_number, as_set}
use yappa_core.Limits.Keys.{refc_key_inj, online_key-tenant}
use yappa_core.Limits.Users.{user_of, Tracks, refc-online, online-refc}

module _ (redis : Redis) where
  open redis use {Store, value}

  -- Data that differ at the keys of a user only.
  abbrev pub SameElsewhere : Identity → Store → Store → Type 0
  SameElsewhere i s s' =
      (j : String)
      → (refc_key i == j) ≡ false
      → (online_key i == j) ≡ false
      → value s' j ≡ value s j

  pub Tracks-SameElsewhere :
      (i : Identity) (t : String) (s s' : Store) (xs : List String) (count : String → ℕ)
      → Lacks b'}' i.tenant_id
      → Lacks b'}' t
      → i.tenant_id ≢ t
      → SameElsewhere i s s'
      → Tracks redis t s xs count
      → Tracks redis t s' xs count
  Tracks-SameElsewhere i t s s' xs count hi ht other same d = record {
    online =
        ap as_set (
          same (online_key (user_of t "")) (refc-online redis i (user_of t ""))
            (==-false _ _ (λ e. other (online_key-tenant i (user_of t "") e))))
        ∙ d.online;
    counted = λ u.
        ap as_number (
          same (refc_key (user_of t u))
            (==-false _ _ (λ e. other ((refc_key_inj i (user_of t u) hi ht e).0)))
            (online-refc redis i (user_of t u)))
        ∙ d.counted u;
    listed = d.listed;
    once = d.once;
  }
