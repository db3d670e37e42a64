-- ===== src/Connection/Groups.antt =====
-- Group membership: what each operation does to the members of every group.
use yappa_core.Common.{
  string_eq, String, ◌≡◌, false, ◌&&◌, Option, none, some, ◌==◌, if◌then◌else◌, arith, eq_of_==,
  ==-refl, Option-cases, inl, inr, ◌∙◌,
}
use yappa_core.Common.Map.{or_empty, get, insert, remove, get-insert, get-remove, get-nil}
use yappa_core.Connection.{
  ConnectionRegistry, DashSet, join_group, leave_group, create_group, delete_group,
  is_user_in_group, contains_key,
}
use yappa_core.Connection.View.{members, get_nested-insert}

abbrev pub without : String → Option DashSet → Option DashSet
without u none = none
without u (some s) = some (remove u s)

without_self :
    (u : String) (o : Option DashSet) → contains_key (get u (or_empty (without u o))) ≡ false
without_self u none = ground (arith, get-nil {V = Unit {0}} u)
without_self u (some s) = ground (arith, get-remove u u s, ==-refl u)

-- Membership in the set that is found.
pub is_user_in_group-eq :
    {S : Type 0} (r : ConnectionRegistry S) (t g u : String)
    → is_user_in_group r t g u ≡ contains_key (get u (or_empty (members r t g)))
unfolding is_user_in_group
is_user_in_group-eq r t g u = ground (arith, get-nil {V = DashSet} g, get-nil {V = Unit {0}} u)

module _ {S : Type 0} (r : ConnectionRegistry S) (t₀ g₀ : String) where
  pub members-join_group :
      (u t g : String)
      → members (join_group r t₀ g₀ u) t g ≡ (
          if (t₀ == t) && (g₀ == g)
          then some (insert u tt (or_empty (members r t g)))
          else members r t g)
  unfolding join_group
  members-join_group u t g =
      let groups = or_empty (get t₀ r.groups) in
      let joined = insert u tt (or_empty (get g₀ groups)) in
      ground (
        arith,
        get_nested-insert t₀ t g (insert g₀ joined groups) r.groups,
        get-insert g₀ g joined groups,
        eq_of_== t₀ t,
        eq_of_== g₀ g,
      )

  pub members-create_group :
      (t g : String)
      → members (create_group r t₀ g₀) t g
        ≡ (if (t₀ == t) && (g₀ == g) then some (or_empty (members r t g)) else members r t g)
  unfolding create_group
  members-create_group t g =
      let groups = or_empty (get t₀ r.groups) in
      let found = or_empty (get g₀ groups) in
      ground (
        arith,
        get_nested-insert t₀ t g (insert g₀ found groups) r.groups,
        get-insert g₀ g found groups,
        eq_of_== t₀ t,
        eq_of_== g₀ g,
      )

  pub members-leave_group :
      (u t g : String)
      → members (leave_group r t₀ g₀ u) t g
        ≡ (if (t₀ == t) && (g₀ == g) then without u (members r t g) else members r t g)
  unfolding leave_group
  members-leave_group u t g = elim (Option-cases (get t₀ r.groups)) [
    | inl e ↦ ground (arith, eq_of_== t₀ t, get-nil {V = DashSet} g)
    | inr (groups, e) ↦ elim (Option-cases (get g₀ groups)) [
      | inl e' ↦ ground (arith, eq_of_== t₀ t, eq_of_== g₀ g)
      | inr (s, e') ↦ ground (
        arith,
        get_nested-insert t₀ t g (insert g₀ (remove u s) groups) r.groups,
        get-insert g₀ g (remove u s) groups,
        eq_of_== t₀ t,
        eq_of_== g₀ g,
      )
    ]
  ]

  pub members-delete_group :
      (t g : String)
      → members (delete_group r t₀ g₀) t g
        ≡ (if (t₀ == t) && (g₀ == g) then none else members r t g)
  unfolding delete_group
  members-delete_group t g = elim (Option-cases (get t₀ r.groups)) [
    | inl e ↦ ground (arith, eq_of_== t₀ t, get-nil {V = DashSet} g)
    | inr (groups, e) ↦ ground (
      arith,
      get_nested-insert t₀ t g (remove g₀ groups) r.groups,
      get-remove g₀ g groups,
      eq_of_== t₀ t,
      eq_of_== g₀ g,
    )
  ]

  pub inner-leave_group : (u : String) → (leave_group r t₀ g₀ u).inner ≡ r.inner
  unfolding leave_group
  inner-leave_group u = ground arith

  pub inner-delete_group : (delete_group r t₀ g₀).inner ≡ r.inner
  unfolding delete_group
  inner-delete_group = ground arith

  pub is_user_in_group-leave_group :
      (u : String) → is_user_in_group (leave_group r t₀ g₀ u) t₀ g₀ u ≡ false
  is_user_in_group-leave_group u =
      is_user_in_group-eq (leave_group r t₀ g₀ u) t₀ g₀ u
      ∙ ground (
        arith,
        members-leave_group u t₀ g₀,
        ==-refl t₀,
        ==-refl g₀,
        ==-refl u,
        get-nil {V = Unit {0}} u,
        without_self u (members r t₀ g₀),
      )
