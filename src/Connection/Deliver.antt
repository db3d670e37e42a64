-- ===== src/Connection/Deliver.antt =====
-- The delivery loop of `send_msg_to_user`, connection by connection.
use yappa_core.Common.{
  nat_eq, ◌≡◌, refl, Bool, true, false, Option, none, some, List, [], ◌∷◌, if◌then◌else◌, arith,
  eq_of_==, contains,
}
use yappa_core.Common.Map.{Map, get, remove, get-remove, Distinct, Distinct-remove}
use yappa_core.Connection.{ConnectionId, TrySend, sent, full, closed, try_all, evict, deliver}

-- A connection stays, with its channel after the call, only if the channel took the message.
abbrev pub kept : {S : Type 0} → TrySend × S → Option S
kept (sent, s) = some s
kept (full, s) = none
kept (closed, s) = none

abbrev failed : TrySend → Bool
failed sent = false
failed full = true
failed closed = true

module _ {S : Type 0} where
  get-evict :
      (c : ConnectionId) (stale : List ConnectionId) (m : Map ConnectionId S)
      → get c (evict stale m) ≡ (if contains c stale then none else get c m)
  unfolding evict
  get-evict c [] m = refl
  get-evict c (d ∷ stale) m = ground (arith, get-evict c stale (remove d m), get-remove d c m)

  Distinct-evict :
      (stale : List ConnectionId) (m : Map ConnectionId S) → Distinct m → Distinct (evict stale m)
  unfolding evict
  Distinct-evict [] m d = d
  Distinct-evict (c ∷ stale) m d = Distinct-evict stale (remove c m) (Distinct-remove c m d)

module _ {S M : Type 0} (try_send : S → M → TrySend × S) where
  abbrev pub kept_after : M → Option S → Option S
  kept_after msg none = none
  kept_after msg (some s) = kept (try_send s msg)

  abbrev tried_after : M → Option S → Option S
  tried_after msg none = none
  tried_after msg (some s) = some (try_send s msg).1

  abbrev fails_after : M → Option S → Bool
  fails_after msg none = false
  fails_after msg (some s) = failed (try_send s msg).0

  get-try_all :
      (msg : M) (c : ConnectionId) (m : Map ConnectionId S)
      → get c (try_all try_send msg m).0 ≡ tried_after msg (get c m)
  unfolding try_all get
  get-try_all msg c [] = refl
  get-try_all msg c ((d, s) ∷ m) = ground (arith, get-try_all msg c m)

  stale-try_all :
      (msg : M) (c : ConnectionId) (m : Map ConnectionId S)
      → Distinct m
      → contains c (try_all try_send msg m).1 ≡ fails_after msg (get c m)
  unfolding try_all get
  stale-try_all msg c [] d = refl
  stale-try_all msg c ((k, s) ∷ m) d = ground (arith, stale-try_all msg c m d.1, eq_of_== k c)

  Distinct-try_all :
      (msg : M) (m : Map ConnectionId S) → Distinct m → Distinct (try_all try_send msg m).0
  unfolding try_all
  Distinct-try_all msg [] d = tt
  Distinct-try_all msg ((k, s) ∷ m) d =
      ground (arith, Distinct-try_all msg m d.1, get-try_all msg k m)

  pub get-deliver :
      (msg : M) (c : ConnectionId) (m : Map ConnectionId S)
      → Distinct m
      → get c (deliver try_send msg m) ≡ kept_after msg (get c m)
  unfolding deliver
  get-deliver msg c m d =
      let (tried, stale) = try_all try_send msg m in
      ground (arith, get-evict c stale tried, stale-try_all msg c m d, get-try_all msg c m)

  pub Distinct-deliver :
      (msg : M) (m : Map ConnectionId S) → Distinct m → Distinct (deliver try_send msg m)
  unfolding deliver
  Distinct-deliver msg m d =
      let (tried, stale) = try_all try_send msg m in
      Distinct-evict stale tried (Distinct-try_all msg m d)
