-- ===== src/Ws/Membership.antt =====
-- What the group messages do to the members of the groups on the client's node.
use yappa_core.Common.{
  string_eq, ◌≡◌, refl, sym, ap, ◌∙◌, String, Bool, false, ◌&&◌, ◌||◌, Option, none, some, ◌==◌,
  unwrap_or, if◌then◌else◌, arith, Option-cases, inl, inr,
}
use yappa_core.Common.Map.{get, or_empty, get-nil}
use yappa_core.Auth.{Identity}
use yappa_core.Protocol.{GroupMessageType, join, leave, create, delete, GroupMessage, Message}
use yappa_core.Connection.{
  DashSet, contains_key, ConnectionRegistry, TrySend, is_user_in_group, join_group, leave_group,
  create_group, delete_group,
}
use yappa_core.Connection.Groups.{is_user_in_group-eq}
use yappa_core.Connection.Spec.{
  Call, joins, leaves, creates, deletes, is_in, set_of, view, apply, expected,
}
use yappa_core.Connection.Valid.{IsValid, apply-IsValid}
use yappa_core.Connection.View.{members}
use yappa_core.Connection.Refinement.{view-apply}
use yappa_core.Db.{Database}
use yappa_core.Ws.{
  Services, Draws, World, publishes, handle_join, handle_leave, handle_create, handle_delete,
  handle_group, handle_text_message,
}

is_in-set_of :
    (o : Option DashSet) (u : String) → contains_key (get u (or_empty o)) ≡ is_in (set_of o) u
is_in-set_of none u = ap contains_key (get-nil {V = Unit {0}} u)
is_in-set_of (some s) u = refl

is_user_in_group-view :
    {S : Type 0} (r : ConnectionRegistry S) (t g u : String)
    → is_user_in_group r t g u ≡ is_in ((view r).group t g) u
is_user_in_group-view r t g u = is_user_in_group-eq r t g u ∙ is_in-set_of (members r t g) u

module _ (sv : Services) (database : Database) {S : Type 0} (try_send : S → Message → TrySend × S)
    (identity : Identity) where
  abbrev W : Type 0
  W = World sv database try_send

  member_of-apply :
      (r : ConnectionRegistry S) (c : Call S Message) (t g u : String)
      → IsValid r
      → is_user_in_group (apply try_send r c) t g u
        ≡ is_in ((expected try_send (view r) c).group t g) u
  member_of-apply r c t g u v =
      is_user_in_group-view (apply try_send r c) t g u
      ∙ ap (λ p. is_in (p.group t g) u) (view-apply try_send r c v)

  joined :
      (r : ConnectionRegistry S) (g₀ t g u : String)
      → IsValid r
      → is_user_in_group (join_group r identity.tenant_id g₀ identity.user_id) t g u ≡ (
          if (identity.tenant_id == t) && (g₀ == g)
          then identity.user_id == u || is_user_in_group r t g u
          else is_user_in_group r t g u)
  unfolding apply
  joined r g₀ t g u v =
      member_of-apply r (joins identity.tenant_id g₀ identity.user_id) t g u v
      ∙ ground (arith, is_user_in_group-view r t g u)

  left :
      (r : ConnectionRegistry S) (g₀ t g u : String)
      → IsValid r
      → is_user_in_group (leave_group r identity.tenant_id g₀ identity.user_id) t g u ≡ (
          if (identity.tenant_id == t) && (g₀ == g)
          then (if identity.user_id == u then false else is_user_in_group r t g u)
          else is_user_in_group r t g u)
  unfolding apply
  left r g₀ t g u v =
      member_of-apply r (leaves identity.tenant_id g₀ identity.user_id) t g u v
      ∙ ground (arith, is_user_in_group-view r t g u)

  created :
      (r : ConnectionRegistry S) (g₀ t g u : String)
      → IsValid r
      → is_user_in_group (create_group r identity.tenant_id g₀) t g u ≡ is_user_in_group r t g u
  unfolding apply
  created r g₀ t g u v =
      member_of-apply r (creates identity.tenant_id g₀) t g u v
      ∙ ground (arith, is_user_in_group-view r t g u)

  deleted :
      (r : ConnectionRegistry S) (g₀ t g u : String)
      → IsValid r
      → is_user_in_group (delete_group r identity.tenant_id g₀) t g u
        ≡ (if (identity.tenant_id == t) && (g₀ == g) then false else is_user_in_group r t g u)
  unfolding apply
  deleted r g₀ t g u v =
      member_of-apply r (deletes identity.tenant_id g₀) t g u v
      ∙ ground (arith, is_user_in_group-view r t g u)

  -- Whether a user is in the group that a message names, after it.
  abbrev pub member_after : GroupMessageType → GroupMessage → Draws → W → String → Bool → Bool
  member_after join g d w u before = elim (sv.find_group w.tables identity.tenant_id g.group_id) [
    | none ↦ before
    | some c ↦ identity.user_id == u || before
  ]
  member_after leave g d w u before = if identity.user_id == u then false else before
  member_after create g d w u before =
      elim (sv.upsert_group w.tables (unwrap_or (sv.parse_uuid g.group_id) d.spare_uuid)
        identity.tenant_id g.group_id identity.user_id) [
          | none ↦ before
          | some (c, tables) ↦ identity.user_id == u || before
        ]
  member_after delete g d w u before = false

  registry-publishes :
      (w : W) (o : Option (String × String))
      → (publishes sv database try_send w o).registry ≡ w.registry
  registry-publishes w none = refl
  registry-publishes w (some c) = refl

  -- Every tenant's connections, with their channels.
  abbrev SameConnections : W → W → Type 0
  SameConnections w w' = w'.registry.inner ≡ w.registry.inner

  abbrev Members : GroupMessageType → GroupMessage → Draws → W → W → Type 0
  Members ct g d w w' =
      (t name u : String)
      → is_user_in_group w'.registry t name u ≡ (
          if (identity.tenant_id == t) && (g.group_id == name)
          then member_after ct g d w u (is_user_in_group w.registry t name u)
          else is_user_in_group w.registry t name u)

  handle_join-Members :
      (g : GroupMessage) (d : Draws) (w : W)
      → IsValid w.registry
      → Members join g d w (handle_join sv database try_send g identity d w)
  unfolding handle_join
  handle_join-Members g d w v t name u =
      elim (Option-cases (sv.find_group w.tables identity.tenant_id g.group_id)) [
        | inl e ↦ ground (arith, e)
        | inr (c, e) ↦
            rw (e, handle_join, member_after)
              (ap (λ r. is_user_in_group r t name u) (registry-publishes _ _)
                ∙ joined w.registry g.group_id t name u v)
      ]

  handle_create-Members :
      (g : GroupMessage) (d : Draws) (w : W)
      → IsValid w.registry
      → Members create g d w (handle_create sv database try_send g identity d w)
  unfolding handle_create apply
  handle_create-Members g d w v t name u =
      elim (Option-cases (
        sv.upsert_group w.tables (unwrap_or (sv.parse_uuid g.group_id) d.spare_uuid)
          identity.tenant_id g.group_id identity.user_id)) [
            | inl e ↦ ground (arith, e)
            | inr ((c, tables), e) ↦
                let v' =
                  apply-IsValid try_send {r = w.registry} (creates identity.tenant_id g.group_id)
                    v in
                rw (e, handle_create, member_after)
                  (ap (λ r. is_user_in_group r t name u) (registry-publishes _ _)
                    ∙ joined (create_group w.registry identity.tenant_id g.group_id) g.group_id t
                        name u v'
                    ∙ rw (created w.registry g.group_id t name u v) refl)
          ]

  handle_group-Members :
      (ct : GroupMessageType) (g : GroupMessage) (d : Draws) (w : W)
      → IsValid w.registry
      → Members ct g d w (handle_group sv database try_send ct g identity d w)
  unfolding handle_group handle_leave handle_delete
  handle_group-Members join g d w v t name u = handle_join-Members g d w v t name u
  handle_group-Members leave g d w v t name u =
      ap (λ r. is_user_in_group r t name u) (registry-publishes _ _)
      ∙ left w.registry g.group_id t name u v
  handle_group-Members create g d w v t name u = handle_create-Members g d w v t name u
  handle_group-Members delete g d w v t name u = deleted w.registry g.group_id t name u v

  inner-handle_join :
      (g : GroupMessage) (d : Draws) (w : W)
      → SameConnections w (handle_join sv database try_send g identity d w)
  unfolding handle_join join_group
  inner-handle_join g d w =
      elim (Option-cases (sv.find_group w.tables identity.tenant_id g.group_id)) [
        | inl e ↦ rw (e, handle_join) refl
        | inr (c, e) ↦ rw (e, handle_join) (ap (λ r. r.inner) (registry-publishes _ _))
      ]

  inner-handle_create :
      (g : GroupMessage) (d : Draws) (w : W)
      → SameConnections w (handle_create sv database try_send g identity d w)
  unfolding handle_create create_group join_group
  inner-handle_create g d w =
      elim (Option-cases (
        sv.upsert_group w.tables (unwrap_or (sv.parse_uuid g.group_id) d.spare_uuid)
          identity.tenant_id g.group_id identity.user_id)) [
            | inl e ↦ rw (e, handle_create) refl
            | inr (c, e) ↦ rw (e, handle_create) (ap (λ r. r.inner) (registry-publishes _ _))
          ]

  inner-leave_group :
      (r : ConnectionRegistry S) (t g u : String) → (leave_group r t g u).inner ≡ r.inner
  unfolding leave_group
  inner-leave_group r t g u = ground arith

  inner-delete_group :
      (r : ConnectionRegistry S) (t g : String) → (delete_group r t g).inner ≡ r.inner
  unfolding delete_group
  inner-delete_group r t g = ground arith

  inner-handle_group :
      (ct : GroupMessageType) (g : GroupMessage) (d : Draws) (w : W)
      → SameConnections w (handle_group sv database try_send ct g identity d w)
  unfolding handle_group handle_leave handle_delete
  inner-handle_group join g d w = inner-handle_join g d w
  inner-handle_group leave g d w =
      ap (λ r. r.inner) (registry-publishes _ _)
      ∙ inner-leave_group w.registry identity.tenant_id g.group_id identity.user_id
  inner-handle_group create g d w = inner-handle_create g d w
  inner-handle_group delete g d w = inner-delete_group w.registry identity.tenant_id g.group_id

  -- A group message leaves all connections of the client's node and their channels as they are, and changes who
  -- is in a group only for the group that it names, of the tenant of the client's token: Join and Create add the client
  -- if the tables have or take the group, Leave takes the client out, and Delete takes everyone out.
  pub handle_text_message-members :
      (content : String) (g : GroupMessage) (d : Draws) (w w' : W) (t name u : String)
      → IsValid w.registry
      → sv.parse_group content ≡ some g
      → handle_text_message sv database try_send content identity d w ≡ some w'
      → (is_user_in_group w'.registry t name u ≡ (
          if (identity.tenant_id == t) && (g.group_id == name)
          then member_after g.msg_type g d w u (is_user_in_group w.registry t name u)
          else is_user_in_group w.registry t name u))
        × (w'.registry.inner ≡ w.registry.inner)
  unfolding handle_text_message
  handle_text_message-members content g d w w' t name u v p e =
      let ran : handle_group sv database try_send g.msg_type g identity d w ≡ w' = ground arith in
      (
        ap (λ (q : W). is_user_in_group q.registry t name u) (sym ran)
            ∙ handle_group-Members g.msg_type g d w v t name u,
        ap (λ (q : W). q.registry.inner) (sym ran) ∙ inner-handle_group g.msg_type g d w,
      )
