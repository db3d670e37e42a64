-- ===== src/Ws/Tables.antt =====
-- What the group messages do to the tables `groups` and `group_members`, which all nodes share: the statements
-- of src/server/ws.rs, `handle_text_message`.
--
-- `AreDocumented` is what the documentation of Postgres says of these statements on the tables of
-- src/migrations/003_create_groups.sql, while it answers: a row of `group_members` needs its group.
mod Tests
use yappa_core.Common.{
  string_eq, nat_eq, ◌≡◌, ◌≢◌, refl, sym, ap, ◌∙◌, subst, Uuid, String, Bool, true, false, ◌&&◌,
  ◌||◌, Option, none, some, ◌==◌, ==-refl, ==-false, unwrap_or, if◌then◌else◌, arith, Option-cases,
  inl, inr,
}
use yappa_core.Auth.{Identity}
use yappa_core.Protocol.{join, create, GroupMessage, Message}
use yappa_core.Connection.{ConnectionRegistry, TrySend, is_user_in_group}
use yappa_core.Connection.Valid.{IsValid}
use yappa_core.Db.{Database}
use yappa_core.Ws.Membership.{handle_text_message-members, member_after}
use yappa_core.Ws.Rules.{tables-publishes}
use yappa_core.Ws.{
  Services, Draws, World, handle_join, handle_create, handle_group, handle_text_message,
}

module _ (sv : Services) (is_member : sv.Tables → Uuid → String → Bool) where
  open sv use {Tables, find_group, add_member, upsert_group}

  -- A row more, and no other change.
  pub record Adds (t t' : Tables) (c : Uuid) (u : String) : Type 0 where
    pub members :
        (c' : Uuid) (u' : String)
        → is_member t' c' u' ≡ ((c == c') && (u == u') || is_member t c' u')
    pub groups : (tenant name : String) → find_group t' tenant name ≡ find_group t tenant name

  -- A group more, and no other change.
  pub record Names (t t' : Tables) (tenant name : String) (c : Uuid) : Type 0 where
    pub members : (c' : Uuid) (u' : String) → is_member t' c' u' ≡ is_member t c' u'
    pub named : find_group t' tenant name ≡ some c
    pub groups :
        (tenant' name' : String)
        → ((tenant == tenant') && (name == name')) ≡ false
        → find_group t' tenant' name' ≡ find_group t tenant' name'

  pub record AreDocumented : Type 0 where
    pub add_lem :
        (t : Tables) (tenant name u : String) (c : Uuid)
        → find_group t tenant name ≡ some c
        → (t' : Tables) × (add_member t c tenant u ≡ some t') × Adds t t' c u
    pub upsert_new_lem :
        (t : Tables) (tenant name u : String) (c : Uuid)
        → find_group t tenant name ≡ none
        → ((tenant' name' : String) → find_group t tenant' name' ≢ some c)
        → (t' : Tables) × (upsert_group t c tenant name u ≡ some (c, t')) × Names t t' tenant name c

module _ (sv : Services) (is_member : sv.Tables → Uuid → String → Bool)
    (documented : AreDocumented sv is_member) (database : Database) {S : Type 0}
    (try_send : S → Message → TrySend × S) where
  abbrev W : Type 0
  W = World sv database try_send

  abbrev handled : String → Identity → Draws → W → Option W
  handled content i d w = handle_text_message sv database try_send content i d w

  -- The conversation that a Create asks for.
  abbrev pub wanted : GroupMessage → Draws → Uuid
  wanted g d = unwrap_or (sv.parse_uuid g.group_id) d.spare_uuid

  tables-handle_join :
      (i : Identity) (g : GroupMessage) (d : Draws) (w : W) (c : Uuid) (t : sv.Tables)
      → sv.find_group w.tables i.tenant_id g.group_id ≡ some c
      → sv.add_member w.tables c i.tenant_id i.user_id ≡ some t
      → (handle_join sv database try_send g i d w).tables ≡ t
  unfolding handle_join
  tables-handle_join i g d w c t found added =
      rw (found, added, handle_join) (tables-publishes sv database try_send i _ _)

  tables-handle_create :
      (i : Identity) (g : GroupMessage) (d : Draws) (w : W) (c : Uuid) (t t' : sv.Tables)
      → sv.upsert_group w.tables (wanted g d) i.tenant_id g.group_id i.user_id ≡ some (c, t)
      → sv.add_member t c i.tenant_id i.user_id ≡ some t'
      → (handle_create sv database try_send g i d w).tables ≡ t'
  unfolding handle_create
  tables-handle_create i g d w c t t' put added =
      rw (put, added, handle_create) (tables-publishes sv database try_send i _ _)

  ran_join :
      (content : String) (i : Identity) (g : GroupMessage) (d : Draws) (w w' : W)
      → sv.parse_group content ≡ some g
      → g.msg_type ≡ join
      → handled content i d w ≡ some w'
      → handle_join sv database try_send g i d w ≡ w'
  unfolding handle_text_message handle_group
  ran_join content i g d w w' p is_join e = ground arith

  ran_create :
      (content : String) (i : Identity) (g : GroupMessage) (d : Draws) (w w' : W)
      → sv.parse_group content ≡ some g
      → g.msg_type ≡ create
      → handled content i d w ≡ some w'
      → handle_create sv database try_send g i d w ≡ w'
  unfolding handle_text_message handle_group
  ran_create content i g d w w' p is_create e = ground arith

  -- The tables after a Join of a group that they have, and the client is in the group on its node.
  joined_lem :
      (content : String) (i : Identity) (g : GroupMessage) (d : Draws) (w w' : W) (c : Uuid)
      → sv.parse_group content ≡ some g
      → g.msg_type ≡ join
      → sv.find_group w.tables i.tenant_id g.group_id ≡ some c
      → IsValid w.registry
      → handled content i d w ≡ some w'
      → Adds sv is_member w.tables w'.tables c i.user_id
        × (is_user_in_group w'.registry i.tenant_id g.group_id i.user_id ≡ true)
  joined_lem content i g d w w' c p is_join found v e =
      let (t, added, adds) = documented.add_lem w.tables i.tenant_id g.group_id i.user_id c found in
      let same = ap (λ (q : W). q.tables) (ran_join content i g d w w' p is_join e) in
      (
        subst (λ t'. Adds sv is_member w.tables t' c i.user_id)
            (sym (tables-handle_join i g d w c t found added) ∙ same) adds,
        (handle_text_message-members sv database try_send i content g d w w' i.tenant_id g.group_id
              i.user_id v p e).0
            ∙ rw
                (
                  ==-refl i.tenant_id,
                  ==-refl g.group_id,
                  is_join,
                  found,
                  member_after,
                  ==-refl i.user_id,
                )
                refl,
      )

  created_lem :
      (content : String) (i : Identity) (g : GroupMessage) (d : Draws) (w w' : W)
      → sv.parse_group content ≡ some g
      → g.msg_type ≡ create
      → sv.find_group w.tables i.tenant_id g.group_id ≡ none
      → ((tenant name : String) → sv.find_group w.tables tenant name ≢ some (wanted g d))
      → IsValid w.registry
      → handled content i d w ≡ some w'
      → ((t : sv.Tables) × Names sv is_member w.tables t i.tenant_id g.group_id (wanted g d)
          × Adds sv is_member t w'.tables (wanted g d) i.user_id)
        × (is_user_in_group w'.registry i.tenant_id g.group_id i.user_id ≡ true)
  created_lem content i g d w w' p is_create none_yet fresh v e =
      let c = wanted g d in
      let (t, put, names) =
        documented.upsert_new_lem w.tables i.tenant_id g.group_id i.user_id c none_yet fresh in
      let (t', added, adds) = documented.add_lem t i.tenant_id g.group_id i.user_id c names.named in
      let same = ap (λ (q : W). q.tables) (ran_create content i g d w w' p is_create e) in
      (
        (
          t,
          names,
          subst (λ x. Adds sv is_member t x c i.user_id)
              (sym (tables-handle_create i g d w c t t' put added) ∙ same) adds,
        ),
        (handle_text_message-members sv database try_send i content g d w w' i.tenant_id g.group_id
              i.user_id v p e).0
            ∙ rw
                (
                  ==-refl i.tenant_id,
                  ==-refl g.group_id,
                  is_create,
                  put,
                  member_after,
                  ==-refl i.user_id,
                )
                refl,
      )

  -- While the database answers: once a client has created a group whose name its tenant does not have, with a
  -- conversation id that no group has, and another client of the tenant has joined it by its name, on any
  -- well-formed node, the name leads to that conversation; its rows are those of the two clients and what
  -- was there, no other row has changed; and each of the two is in the group on its own node.
  pub handle_text_message-create-join :
      (creator joiner : Identity) (content content' : String) (g g' : GroupMessage) (d d' : Draws)
      (w w₁ w₂ : W) (r : ConnectionRegistry S)
      → joiner.tenant_id ≡ creator.tenant_id
      → sv.parse_group content ≡ some g
      → g.msg_type ≡ create
      → sv.parse_group content' ≡ some g'
      → g'.msg_type ≡ join
      → g'.group_id ≡ g.group_id
      → sv.find_group w.tables creator.tenant_id g.group_id ≡ none
      → ((tenant name : String) → sv.find_group w.tables tenant name ≢ some (wanted g d))
      → IsValid w.registry
      → IsValid r
      → handled content creator d w ≡ some w₁
      → handled content' joiner d' (record w₁ { registry = r }) ≡ some w₂
      → (sv.find_group w₂.tables creator.tenant_id g.group_id ≡ some (wanted g d))
        × ((c : Uuid) (u : String)
            → is_member w₂.tables c u ≡ (
                (wanted g d == c) && (joiner.user_id == u || creator.user_id == u)
                || is_member w.tables c u))
        × (is_user_in_group w₁.registry creator.tenant_id g.group_id creator.user_id ≡ true)
        × (is_user_in_group w₂.registry creator.tenant_id g.group_id joiner.user_id ≡ true)
  handle_text_message-create-join creator joiner content content' g g' d d' w w₁ w₂ r one p
        is_create p' is_join named none_yet fresh v v' e e' =
      let ((t, names, adds), inside) =
        created_lem content creator g d w w₁ p is_create none_yet fresh v e in
      let c = wanted g d in
      let found : sv.find_group w₁.tables creator.tenant_id g.group_id ≡ some c =
        adds.groups creator.tenant_id g.group_id ∙ names.named in
      let found' : sv.find_group w₁.tables joiner.tenant_id g'.group_id ≡ some c =
        rw (one, named) found in
      let (adds', inside') =
        joined_lem content' joiner g' d' (record w₁ { registry = r }) w₂ c p' is_join found' v'
          e' in
      (
        adds'.groups creator.tenant_id g.group_id ∙ found,
        λ c' u. adds'.members c' u ∙ ground (arith, adds.members c' u, names.members c' u),
        inside,
        rw (one, named) at inside',
      )
