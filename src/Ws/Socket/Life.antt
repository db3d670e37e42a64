-- ===== src/Ws/Socket/Life.antt =====
-- What the life of a connection does to the node and to the limiter's data.
use yappa_core.Common.{
  string_eq, nat_eq, ℕ, ◌≡◌, refl, ap, ◌∙◌, Bool, true, false, Option, none, some, List, [], ◌∷◌,
  if◌then◌else◌, arith, ==-refl,
}
use yappa_core.Auth.{Identity}
use yappa_core.Protocol.{Message}
use yappa_core.Connection.{ConnectionRegistry, ConnectionId, TrySend, register, unregister}
use yappa_core.Connection.Spec.{registers, joins, unregisters, apply, channel_of}
use yappa_core.Connection.Valid.{IsValid}
use yappa_core.Connection.Refinement.{view-apply}
use yappa_core.Limits.Server.{Redis}
use yappa_core.Limits.{release}
use yappa_core.Db.{Database}
use yappa_core.Ws.{Services, World}
use yappa_core.Ws.Isolation.{Own, Own-refl, Own-apply, Own-trans}
use yappa_core.Ws.Socket.{
  SocketEvent, handle_event, next, recv_loop, opened, closed_by_guard, handle_socket,
}
use yappa_core.Ws.Program.Moves.{handle_event-Turns}
use yappa_core.Ws.Isolation.{Own-Made}

module _ (sv : Services) (database : Database) {S : Type 0} (try_send : S → Message → TrySend × S)
    (identity : Identity) where
  abbrev V : Type 0
  V = World sv database try_send

  -- A turn that does not panic, and leaves the registry as its client may.
  abbrev OwnTurn : V → Option (V × Option ℕ) → Type 0
  OwnTurn w o =
      (turn : V × Option ℕ) × (o ≡ some turn)
      × Own sv database try_send identity w.registry turn.0.registry

  handle_event-OwnTurn :
      (last_activity : ℕ) (e : SocketEvent) (w : V)
      → IsValid w.registry
      → OwnTurn w (handle_event sv database try_send identity last_activity e w)
  handle_event-OwnTurn last_activity e w v =
      let (turn, ran, turned) =
        handle_event-Turns sv database try_send identity last_activity e w in
      (turn, ran, Own-Made sv database try_send identity v turned.made_by)

  abbrev OwnLoop : V → Option (Bool × V) → Type 0
  OwnLoop w o =
      (result : Bool × V) × (o ≡ some result)
      × Own sv database try_send identity w.registry result.1.registry

  next-OwnLoop :
      (w : V) (rest : ℕ → V → Option (Bool × V)) (turn : V × Option ℕ)
      → Own sv database try_send identity w.registry turn.0.registry
      → ((now : ℕ) (w' : V) → IsValid w'.registry → OwnLoop w' (rest now w'))
      → OwnLoop w (next sv database try_send identity rest turn)
  next-OwnLoop w rest (w', none) own h = ((true, w'), refl, own)
  next-OwnLoop w rest (w', some now) own h =
      let (result, e, own') = h now w' own.valid in
      (result, e, Own-trans sv database try_send identity own own')

  recv_loop-OwnLoop :
      (events : List SocketEvent) (last_activity : ℕ) (w : V)
      → IsValid w.registry
      → OwnLoop w (recv_loop sv database try_send identity last_activity events w)
  unfolding recv_loop
  recv_loop-OwnLoop [] last_activity w v =
      ((false, w), refl, Own-refl sv database try_send identity w.registry v)
  recv_loop-OwnLoop (e ∷ events) last_activity w v =
      let (turn, ran, own) = handle_event-OwnTurn last_activity e w v in
      rw (ran, recv_loop)
        (next-OwnLoop w (λ now w'. recv_loop sv database try_send identity now events w') turn own
          (λ now w' v'. recv_loop-OwnLoop events now w' v'))

  opened-Own :
      (c : ConnectionId) (tx : S) (w : V)
      → IsValid w.registry
      → Own sv database try_send identity w.registry
          (opened sv database try_send identity c tx w).registry
  unfolding opened apply
  opened-Own c tx w v =
      let first =
        Own-apply sv database try_send identity w.registry (registers identity c tx) v refl in
      Own-trans sv database try_send identity first (
        Own-apply sv database try_send identity (register w.registry identity c tx)
          (joins identity.tenant_id "general" identity.user_id) first.valid refl)

  gone :
      (c : ConnectionId) (r : ConnectionRegistry S)
      → IsValid r
      → channel_of (unregister r identity c) identity.tenant_id identity.user_id c ≡ none
  unfolding apply
  gone c r v =
      ap (λ p. p.channel identity.tenant_id identity.user_id c)
        (view-apply try_send r (unregisters identity c) v)
      ∙ rw (==-refl identity.tenant_id, ==-refl identity.user_id, ==-refl c)

  closed_by_guard-Own :
      (c : ConnectionId) (w : V)
      → IsValid w.registry
      → Own sv database try_send identity w.registry
          (closed_by_guard sv database try_send identity c w).registry
  unfolding closed_by_guard apply
  closed_by_guard-Own c w v =
      Own-apply sv database try_send identity w.registry (unregisters identity c) v refl

  -- What is left once the events of a connection have been handled.
  pub record Lived (redis : Redis) (reachable : Bool) (c : ConnectionId) (w : V) (s : redis.Store)
      (o : Option (Bool × V × redis.Store)) : Type 0 where
    pub ended : Bool
    pub end : V
    pub store : redis.Store
    pub returned : o ≡ some (ended, end, store)
    pub own : Own sv database try_send identity w.registry end.registry
    pub closed :
        ended ≡ true
        → (channel_of end.registry identity.tenant_id identity.user_id c ≡ none)
          × (store ≡ release redis reachable identity s)

  -- From a well-formed registry a connection never panics, whatever frames come in, whenever the heartbeat
  -- ticks and however it ends. It leaves the registry well formed and every other tenant as it was;
  -- and if it has ended, by a close, an error, silence or the end of its send task, its channel
  -- is out of the registry and its place in the limiter is released.
  pub handle_socket-Lived :
      (redis : Redis) (reachable : Bool) (c : ConnectionId) (tx : S) (now : ℕ)
      (events : List SocketEvent) (w : V) (s : redis.Store)
      → IsValid w.registry
      → Lived redis reachable c w s
          (handle_socket sv database try_send identity redis reachable c tx now events w s)
  unfolding handle_socket closed_by_guard
  handle_socket-Lived redis reachable c tx now events w s v =
      let start = opened-Own c tx w v in
      let (result, ran, own) =
        recv_loop-OwnLoop events now (opened sv database try_send identity c tx w) start.valid in
      rw (ran, handle_socket) (by_end result (Own-trans sv database try_send identity start own))
    where
      by_end :
          (result : Bool × V)
          → Own sv database try_send identity w.registry result.1.registry
          → Lived redis reachable c w s (
              some (
                if result.0
                then (
                  true,
                  closed_by_guard sv database try_send identity c result.1,
                  release redis reachable identity s,
                )
                else (false, result.1, s)))
      by_end (true, w') own = record {
        ended = true;
        end = closed_by_guard sv database try_send identity c w';
        store = release redis reachable identity s;
        returned = refl;
        own = Own-trans sv database try_send identity own (closed_by_guard-Own c w' own.valid);
        closed = λ e. (gone c w'.registry own.valid, refl);
      }
      by_end (false, w') own = record {
        ended = false;
        end = w';
        store = s;
        returned = refl;
        own = own;
        closed = λ e. ground arith;
      }
