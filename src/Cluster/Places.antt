-- ===== src/Cluster/Places.antt =====
-- The places at the limiter that sockets hold.
use yappa_core.Common.{string_eq, ◌≡◌, refl, sym, ap, ◌∙◌, List, [], ◌∷◌, ◌++◌, append_assoc}
use yappa_core.Auth.{Identity}
use yappa_core.Cluster.{
  Phase, admitted, registered, running, removing, removed, released, advanced, Socket,
}
use yappa_core.Ws.Program.{Program}

-- A place at the limiter, from the handshake to the release.
abbrev pub place : {S : Type 0} → Identity → Phase S → List Identity
place i admitted = i ∷ []
place i (registered k) = i ∷ []
place i (running k last_activity p) = i ∷ []
place i (removing b p) = i ∷ []
place i (removed p) = i ∷ []
place i (released p) = []

abbrev pub places : {S : Type 0} → List (Socket S) → List Identity
places [] = []
places (x ∷ xs) = place x.identity x.phase ++ places xs

module _ {S : Type 0} where
  pub places-append : (xs ys : List (Socket S)) → places (xs ++ ys) ≡ places xs ++ places ys
  places-append [] ys = refl
  places-append (x ∷ xs) ys =
      ap (λ is. place x.identity x.phase ++ is) (places-append xs ys)
      ∙ sym (append_assoc (place x.identity x.phase) (places xs) (places ys))

  pub places-change :
      (xs : List (Socket S)) (x x' : Socket S) (ys : List (Socket S))
      → place x.identity x.phase ≡ place x'.identity x'.phase
      → places (xs ++ x ∷ ys) ≡ places (xs ++ x' ∷ ys)
  places-change [] x x' ys e = ap (λ is. is ++ places ys) e
  places-change (z ∷ xs) x x' ys e =
      ap (λ is. place z.identity z.phase ++ is) (places-change xs x x' ys e)

  pub place-advanced :
      (i : Identity) (phase : Phase S) (p : Program S) → place i phase ≡ place i (advanced phase p)
  place-advanced i admitted p = refl
  place-advanced i (registered k) p = refl
  place-advanced i (running k last_activity q) p = refl
  place-advanced i (removing b q) p = refl
  place-advanced i (removed q) p = refl
  place-advanced i (released q) p = refl
