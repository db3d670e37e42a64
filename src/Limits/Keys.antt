-- ===== src/Limits/Keys.antt =====
-- The limiter's keys: when two identities share one.
use Prim.Native.Char.{code}
use text.Mathlib.TextLemmas.{
  append_cancel_left, append_cancel_right, head-eq_of_cons-eq, cons-append,
}
use yappa_core.Common.{
  String, ◌≡◌, ◌≢◌, ap, sym, ◌∙◌, ◌<>◌, arith, Lacks, split_unique, append_assoc_text,
}
use yappa_core.Auth.{Identity}
use yappa_core.Limits.{online_key, refc_key}

pub refc_key-ne-online_key : (i j : Identity) → refc_key i ≢ online_key j
unfolding refc_key online_key
refc_key-ne-online_key i j e =
    let e' =
      sym (cons-append "c" "onncount:{" (i.tenant_id <> "}:" <> i.user_id))
      ∙ e
      ∙ cons-append "o" "nline:{" (j.tenant_id <> "}") in
    absurd (let h = ap code (head-eq_of_cons-eq e') in omega arith)

pub refc_key-user :
    (i j : Identity) → i.tenant_id ≡ j.tenant_id → refc_key i ≡ refc_key j → i.user_id ≡ j.user_id
unfolding refc_key
refc_key-user i j same e =
    let named = e ∙ ap (λ t. "conncount:{" <> t <> "}:" <> j.user_id) (sym same) in
    append_cancel_left "}:" _ _
      (append_cancel_left i.tenant_id _ _ (append_cancel_left "conncount:{" _ _ named))

pub online_key-tenant : (i j : Identity) → online_key i ≡ online_key j → i.tenant_id ≡ j.tenant_id
unfolding online_key
online_key-tenant i j e = append_cancel_right _ _ "}" (append_cancel_left "online:{" _ _ e)

pub online_key-eq : (i j : Identity) → i.tenant_id ≡ j.tenant_id → online_key i ≡ online_key j
unfolding online_key
online_key-eq i j e = ap (λ t. "online:{" <> t <> "}") e

-- The key of a connection count tells the tenant and the user, if neither tenant's name has a closing
-- brace.
pub refc_key_inj :
    (i j : Identity)
    → Lacks b'}' i.tenant_id
    → Lacks b'}' j.tenant_id
    → refc_key i ≡ refc_key j
    → (i.tenant_id ≡ j.tenant_id) × (i.user_id ≡ j.user_id)
unfolding refc_key
refc_key_inj i j hi hj e =
    let bare = append_cancel_left "conncount:{" _ _ e in
    let split =
      ap (◌<>◌ i.tenant_id) (sym (cons-append "}" ":" i.user_id))
      ∙ bare
      ∙ ap (◌<>◌ j.tenant_id) (cons-append "}" ":" j.user_id) in
    let (tenants, rest) =
      split_unique "}" i.tenant_id (":" <> i.user_id) j.tenant_id (":" <> j.user_id) hi hj split in
    (tenants, append_cancel_left ":" _ _ rest)

-- With a brace in a tenant's name two tenants can share a count: that of the user `z` of the tenant
-- `x}:y` is kept at the key of the user `y}:z` of the tenant `x`.
pub refc_key-clash :
    (x y z : String)
    → refc_key (record { tenant_id = x <> "}:" <> y; user_id = z })
      ≡ refc_key (record { tenant_id = x; user_id = y <> "}:" <> z })
unfolding refc_key
refc_key-clash x y z = ap (◌<>◌ "conncount:{") (
    append_assoc_text x ("}:" <> y) ("}:" <> z)
    ∙ ap (◌<>◌ x) (append_assoc_text "}:" y ("}:" <> z)))
