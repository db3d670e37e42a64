-- ===== src/Limits/Tests.antt =====
-- The limiter's theorems at a small Redis server, for a tenant capped at one user.
use yappa_core.Common.{
  string_eq, arith, ◌≡◌, refl, String, true, false, [], ◌∷◌, length, ◌≤◌, Lacks,
}
use yappa_core.Sample.{ann, bob}
use yappa_core.Limits.{online_key, refc_key, acquire, release, acquire_script}
use yappa_core.Limits.Sample.{Data, server, nothing, none_open}
use yappa_core.Limits.Balance.{release-acquire}
use yappa_core.Limits.Users.{Once, Tracks, update}
use yappa_core.Limits.Acquire.{acquire_lem}
use yappa_core.Limits.Release.{release_lem}
use yappa_core.Limits.Cap.{History, fresh, acquires, History-capped, release-of-uncounted}

nothing-Tracks : Tracks server "acme" nothing [] none_open
nothing-Tracks = record { online = refl; counted = λ u. refl; listed = λ u. refl; once = tt }

acquire_lem_example :
    ((acquire server 1 true ann nothing).0 ≡ true)
    × Tracks server "acme"
        (acquire server 1 true ann nothing).1
        ("ann" ∷ [])
        (update none_open "ann" 1)
unfolding acquire acquire_script online_key refc_key
acquire_lem_example = acquire_lem server 1 ann nothing [] none_open nothing-Tracks (omega arith)

abbrev one_open : Data
one_open = (acquire server 1 true ann nothing).1

one_open-Tracks : Tracks server "acme" one_open ("ann" ∷ []) (update none_open "ann" 1)
unfolding acquire acquire_script online_key refc_key
one_open-Tracks = (acquire_lem server 1 ann nothing [] none_open nothing-Tracks (omega arith)).1

-- Another user of the tenant is refused.
full_refuses : (acquire server 1 true bob one_open).0 ≡ false
unfolding acquire acquire_script online_key refc_key
full_refuses = refl

release_lem_example :
    Tracks server "acme"
      (release server true ann one_open)
      []
      (update (update none_open "ann" 1) "ann" 0)
release_lem_example =
    release_lem server ann one_open ("ann" ∷ []) (update none_open "ann" 1) 0 one_open-Tracks refl

release-of-uncounted_example :
    ((acquire server 1 false ann one_open).0 ≡ true)
    × Tracks server "acme"
        (release server true ann (acquire server 1 false ann one_open).1)
        []
        (update (update none_open "ann" 1) "ann" 0)
release-of-uncounted_example =
    release-of-uncounted server 1 ann one_open ("ann" ∷ []) (update none_open "ann" 1)
      one_open-Tracks refl

two_calls : History server 1 "acme" (acquire server 1 true bob one_open).1 2
two_calls = acquires "bob" (acquires "ann" (fresh nothing refl (λ u. refl)))

History-capped_example : (length {A = String} ("ann" ∷ []) ≤ 1) × Once ("ann" ∷ [])
unfolding acquire acquire_script online_key refc_key
History-capped_example = History-capped server 1 "acme" ("ann" ∷ []) two_calls (omega arith) refl

acme-Lacks : Lacks b'}' "acme"
acme-Lacks = (omega arith, (omega arith, (omega arith, (omega arith, tt))))

release-acquire_example :
    Tracks server "acme"
      (release server true ann (acquire server 1 true ann nothing).1)
      []
      none_open
unfolding acquire acquire_script online_key refc_key
release-acquire_example =
    release-acquire server 1 ann nothing [] none_open nothing-Tracks (omega arith) refl
