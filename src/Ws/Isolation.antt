-- ===== src/Ws/Isolation.antt =====
-- The handler runs to its end on every text, and touches one tenant's part of the registry.
use yappa_core.Common.{
  string_eq, String, ◌≡◌, ◌≢◌, refl, sym, subst, ◌∙◌, Option, some, List, [], ◌∷◌,
}
use yappa_core.Auth.{Identity}
use yappa_core.Protocol.{Message}
use yappa_core.Connection.{ConnectionRegistry, TrySend}
use yappa_core.Connection.Spec.{
  Call, registers, unregisters, joins, leaves, creates, deletes, sends_to_user, sends_to_group,
  view, apply, run,
}
use yappa_core.Connection.Valid.{IsValid, apply-IsValid}
use yappa_core.Connection.Isolation.{tenant_of, SameTenant, apply-SameTenant}
use yappa_core.Db.{Database}
use yappa_core.Ws.Effects.{IsMine, AreMine, Made}
use yappa_core.Ws.Program.Moves.{handle_text_message-Performs}
use yappa_core.Ws.{Services, Draws, World, handle_text_message}

module _ (sv : Services) (database : Database) {S : Type 0} (try_send : S → Message → TrySend × S)
    (identity : Identity) where
  abbrev W : Type 0
  W = World sv database try_send

  -- From a well-formed registry to a well-formed registry, with every tenant but the client's as it was.
  pub record Own (r r' : ConnectionRegistry S) : Type 0 where
    pub valid : IsValid r'
    pub others : (t : String) → identity.tenant_id ≢ t → SameTenant t (view r') (view r)

  pub Own-refl : (r : ConnectionRegistry S) → IsValid r → Own r r
  Own-refl r v = record { valid = v; others = λ t h. (λ u k. refl, λ g. refl) }

  pub Own-apply :
      (r : ConnectionRegistry S) (c : Call S Message)
      → IsValid r
      → tenant_of c ≡ identity.tenant_id
      → Own r (apply try_send r c)
  Own-apply r c v e = record {
    valid = apply-IsValid try_send c v;
    others = λ t h. apply-SameTenant try_send r c t v (λ p. h (sym e ∙ p));
  }

  pub Own-trans : {a b c : ConnectionRegistry S} → Own a b → Own b c → Own a c
  Own-trans x y = record {
    valid = y.valid;
    others = λ t h.
        let (xu, xg) = x.others t h in
        let (yu, yg) = y.others t h in (λ u k. yu u k ∙ xu u k, λ g. yg g ∙ xg g);
  }

  IsMine-tenant : (c : Call S Message) → IsMine identity c → tenant_of c ≡ identity.tenant_id
  IsMine-tenant (joins t g u) h = h
  IsMine-tenant (leaves t g u) h = h
  IsMine-tenant (creates t g) h = h
  IsMine-tenant (deletes t g) h = h
  IsMine-tenant (sends_to_user t u m) h = h.0
  IsMine-tenant (registers j c s) h = elim h [ ]
  IsMine-tenant (unregisters j c) h = elim h [ ]
  IsMine-tenant (sends_to_group t g m) h = elim h [ ]

  Own-run :
      (r : ConnectionRegistry S) (cs : List (Call S Message))
      → IsValid r
      → AreMine identity cs
      → Own r (run try_send r cs)
  unfolding run
  Own-run r [] v h = Own-refl r v
  Own-run r (c ∷ cs) v h =
      let first = Own-apply r c v (IsMine-tenant c h.0) in
      Own-trans first (Own-run (apply try_send r c) cs first.valid h.1)

  pub Own-Made :
      {r r' : ConnectionRegistry S} → IsValid r → Made sv database try_send identity r r' → Own r r'
  Own-Made {r} v m = subst (Own r) (sym m.ran) (Own-run r m.calls v m.mine)

  -- The handler returns, and what it leaves of the registry is the client's own doing.
  pub record Ends (w : W) (o : Option W) : Type 0 where
    pub end : W
    pub returned : o ≡ some end
    pub own : Own w.registry end.registry

  -- On a well-formed registry the handler never panics, whatever text comes in and whatever the
  -- services answer. It leaves the registry well formed, and the connections and groups of every
  -- tenant but the client's as they were.
  pub handle_text_message-Ends :
      (content : String) (d : Draws) (w : W)
      → IsValid w.registry
      → Ends w (handle_text_message sv database try_send content identity d w)
  handle_text_message-Ends content d w v =
      let (end, ran, moved) =
        handle_text_message-Performs sv database try_send identity content d w in
      record { end = end; returned = ran; own = Own-Made v moved.made_by }
