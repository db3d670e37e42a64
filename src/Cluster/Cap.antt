-- ===== src/Cluster/Cap.antt =====
-- The cap of the limiter over all nodes, while Redis answers.
use yappa_core.Common.{
  string_eq, ℕ, suc, ◌≤◌, ◌<◌, ◌≡◌, refl, sym, ap, ◌∙◌, subst, String, Bool, true, Option, List, [],
  ◌∷◌, ◌++◌, length, length-append, Lacks, Every, Every-middle, arith, i64_max,
}
use yappa_core.Auth.{Identity}
use yappa_core.Limits.{release, online_key, refc_key}
use yappa_core.Limits.Server.{absent}
use yappa_core.Limits.Users.{user_of, Tracks}
use yappa_core.Limits.Open.{
  fresh-Counts, open_of, AllCount, opens, acquire-AllCount, release-AllCount,
}
use yappa_core.Ws.Upgrade.{Response, unauthorized, too_many_requests, upgraded, ws_handler}
use yappa_core.Ws.Upgrade.Admit.{Answers, ws_handler-Answers}
use yappa_core.Cluster.{
  Environment, removed, released, Socket, Cluster, IsRefusal, Step, refuses, accepts, registers,
  joins_general, takes, lingers, resumes, removes, misses, drops, releases, hears, sends, Reach,
  start, later,
}
use yappa_core.Cluster.Invariant.{IsAuthentic, IsGenuine, IsSafe}
use yappa_core.Ws.Program.{Program}
use yappa_core.Cluster.Steps.{Reach-IsSafe}
use yappa_core.Cluster.Places.{place, places, places-append, places-change, place-advanced}

module _ (env : Environment) (max_users : ℕ) where
  open env use {redis, S, decode}

  abbrev C : Type 0
  C = Cluster env max_users

  -- Redis answers the limiter's calls of a step, and of all steps of a run that starts with no data in Redis.
  abbrev pub AnswersStep : {c c' : C} → Step env max_users c c' → Type 0
  AnswersStep (refuses a q reachable response s' e h) = reachable ≡ true
  AnswersStep (accepts n a q reachable i s' e) = reachable ≡ true
  AnswersStep (registers before after n i k tx e fresh) = Unit
  AnswersStep (joins_general before after n i k now e) = Unit
  AnswersStep (takes before after n i k last_activity now e p same ran) = Unit
  AnswersStep (lingers before after x last now e p same ending over ran) = Unit
  AnswersStep (resumes before after x outcome p' w' e ran) = Unit
  AnswersStep (removes before after n i k last_activity p r' b e ran) = Unit
  AnswersStep (misses before after n i k last_activity p e missing) = Unit
  AnswersStep (drops before after n i b p e) = Unit
  AnswersStep (releases before after n i p reachable e) = reachable ≡ true
  AnswersStep (hears n channel payload h) = Unit
  AnswersStep (sends n i k s s' taken h e) = Unit

  abbrev pub IsAnswered : {c : C} → Reach env max_users c → Type 0
  IsAnswered (start c h p s) = (k : String) → redis.value c.store k ≡ absent
  IsAnswered (later r step) = IsAnswered r × AnswersStep step

  abbrev pub steps : {c : C} → Reach env max_users c → ℕ
  steps (start c h p s) = 0
  steps (later r step) = suc (steps r)

  abbrev pub places_in : C → List Identity
  places_in c = places c.sockets

  -- Names with no closing brace, which the limiter's keys need.
  abbrev pub ArePlain : Type 0
  ArePlain = (i : Identity) → IsAuthentic env max_users i → Lacks b'}' i.tenant_id

  record Balanced (c : C) (n : ℕ) : Type 0 where
    counts : AllCount redis max_users (places_in c) c.store
    few : length (places_in c) ≤ n

  fresh-Balanced :
      (c : C) → ((k : String) → redis.value c.store k ≡ absent) → c.sockets ≡ [] → Balanced c 0
  fresh-Balanced c h closed =
      let none_open : [] ≡ places_in c = ap places (sym closed) in
      record {
        counts = λ t ht.
            fresh-Counts redis max_users (places_in c) c.store t (sym none_open)
              (h (online_key (user_of t ""))) (λ u. h (refc_key (user_of t u)));
        few = subst (λ is. length is ≤ 0) none_open (omega arith);
      }

  refused :
      (a q : Option String) (is : List Identity) (s s' : redis.Store) (response : Response)
      → ArePlain
      → length is < i64_max
      → AllCount redis max_users is s
      → Answers decode redis max_users a q true s response s'
      → IsRefusal env max_users response
      → AllCount redis max_users is s'
  refused a q is s s' unauthorized plain small all (none, same) h =
      subst (AllCount redis max_users is) (sym same) all
  refused a q is s s' too_many_requests plain small all (token, i, found, valid, e) h =
      subst (λ p. AllCount redis max_users (opens redis max_users p.0 i is) p.1) e
        (acquire-AllCount redis max_users i is s (plain i (token, valid)) small all)
  refused a q is s s' (upgraded i) plain small all answer h = absurd h

  let_in :
      (a q : Option String) (is : List Identity) (s s' : redis.Store) (i : Identity)
      → ArePlain
      → length is < i64_max
      → AllCount redis max_users is s
      → Answers decode redis max_users a q true s (upgraded i) s'
      → AllCount redis max_users (i ∷ is) s'
  let_in a q is s s' i plain small all (token, found, valid, e) =
      subst (λ p. AllCount redis max_users (opens redis max_users p.0 i is) p.1) e
        (acquire-AllCount redis max_users i is s (plain i (token, valid)) small all)

  -- What a handshake answers, where Redis does.
  answered_by :
      (a q : Option String) (reachable : Bool) (s s' : redis.Store) (response : Response)
      → reachable ≡ true
      → ws_handler decode redis max_users a q reachable s ≡ (response, s')
      → Answers decode redis max_users a q true s response s'
  answered_by a q reachable s s' response h e =
      subst (λ b. Answers decode redis max_users a q b s response s') h
        (subst (λ p. Answers decode redis max_users a q reachable s p.0 p.1) e
          (ws_handler-Answers decode redis max_users a q reachable s))

  -- The limiter's release of one place.
  freed :
      (before after : List (Socket S)) (n : ℕ) (i : Identity) (p : Program S) (s : redis.Store)
      (reachable : Bool)
      → reachable ≡ true
      → Lacks b'}' i.tenant_id
      → AllCount redis max_users
          (places (before ++ record { node = n; identity = i; phase = removed p } ∷ after))
          s
      → AllCount redis max_users
          (places (before ++ record { node = n; identity = i; phase = released p } ∷ after))
          (release redis reachable i s)
  freed before after n i p s reachable h plain all =
      let x : Socket S = record { node = n; identity = i; phase = removed p } in
      let x' : Socket S = record { node = n; identity = i; phase = released p } in
      subst (λ b. AllCount redis max_users (places (before ++ x' ∷ after)) (release redis b i s))
        (sym h)
        (subst (λ is. AllCount redis max_users is (release redis true i s))
          (sym (places-append before (x' ∷ after)))
          (release-AllCount redis max_users (places before) i (places after) s plain
            (subst (λ is. AllCount redis max_users is s) (places-append before (x ∷ after)) all)))

  fewer :
      (before after : List (Socket S)) (n : ℕ) (i : Identity) (p : Program S) (k : ℕ)
      → length (places (before ++ record { node = n; identity = i; phase = removed p } ∷ after)) ≤ k
      → length (places (before ++ record { node = n; identity = i; phase = released p } ∷ after))
        ≤ suc k
  fewer before after n i p k h =
      let x : Socket S = record { node = n; identity = i; phase = removed p } in
      let x' : Socket S = record { node = n; identity = i; phase = released p } in
      let was = rw (places-append before (x ∷ after)) at h in
      rw (places-append before (x' ∷ after)) (
        omega (
          arith,
          was,
          length-append (places before) (i ∷ places after),
          length-append (places before) (places after),
        ))

  -- A step after which the same places are taken.
  keeps :
      (before after : List (Socket S)) (x x' : Socket S) (c c' : C) (n : ℕ)
      → place x.identity x.phase ≡ place x'.identity x'.phase
      → c.sockets ≡ before ++ x ∷ after
      → c'.sockets ≡ before ++ x' ∷ after
      → c'.store ≡ c.store
      → Balanced c n
      → Balanced c' (suc n)
  keeps before after x x' c c' n same e e' stored b =
      let is = ap places e ∙ places-change before x x' after same ∙ ap places (sym e') in
      record {
        counts =
            subst (AllCount redis max_users (places_in c')) (sym stored)
              (subst (λ l. AllCount redis max_users l c.store) is b.counts);
        few = subst (λ l. length l ≤ suc n) is (omega (arith, b.few));
      }

  Step-Balanced :
      {c c' : C} (n : ℕ)
      → ArePlain
      → n < i64_max
      → IsSafe env max_users c
      → (step : Step env max_users c c') → AnswersStep step
      → Balanced c n
      → Balanced c' (suc n)
  Step-Balanced {c} n plain small safe (refuses a q reachable response s' e h) answered b = record {
    counts =
        refused a q (places_in c) c.store s' response plain (omega (arith, b.few)) b.counts
          (answered_by a q reachable c.store s' response answered e) h;
    few = omega (arith, b.few);
  }
  Step-Balanced {c} n plain small safe (accepts m a q reachable i s' e) answered b = record {
    counts =
        let_in a q (places_in c) c.store s' i plain (omega (arith, b.few)) b.counts
          (answered_by a q reachable c.store s' (upgraded i) answered e);
    few = omega (arith, b.few);
  }
  Step-Balanced {c} n plain small safe (registers before after m i k tx e fresh) answered b =
      keeps before after _ _ c _ n refl e refl refl b
  Step-Balanced {c} n plain small safe (joins_general before after m i k now e) answered b =
      keeps before after _ _ c _ n refl e refl refl b
  Step-Balanced {c} n plain small safe (takes before after m i k last now e p same ran) answered b =
      keeps before after _ _ c _ n refl same refl refl b
  Step-Balanced {c} n plain small safe (lingers before after x last now e p same ending over ran)
        answered b =
      keeps before after x _ c _ n (place-advanced x.identity x.phase p) same refl refl b
  Step-Balanced {c} n plain small safe (resumes before after x outcome p' w' e ran) answered b =
      keeps before after x _ c _ n (place-advanced x.identity x.phase p') e refl refl b
  Step-Balanced {c} n plain small safe (removes before after m i k last p r' empty e ran) answered
        b =
      keeps before after _ _ c _ n refl e refl refl b
  Step-Balanced {c} n plain small safe (misses before after m i k last p e missing) answered b =
      keeps before after _ _ c _ n refl e refl refl b
  Step-Balanced {c} n plain small safe (drops before after m i empty p e) answered b =
      keeps before after _ _ c _ n refl e refl refl b
  Step-Balanced {c} n plain small safe (releases before after m i p reachable e) answered b =
      let auth =
        Every-middle (IsGenuine env max_users) before _ after
          (subst (Every (IsGenuine env max_users)) e safe.genuine) in
      record {
        counts =
            freed before after m i p c.store reachable answered (plain i auth.0)
              (subst (λ xs. AllCount redis max_users (places xs) c.store) e b.counts);
        few = fewer before after m i p n (subst (λ xs. length (places xs) ≤ n) e b.few);
      }
  Step-Balanced n plain small safe (hears m channel payload h) answered b = record {
    counts = b.counts;
    few = omega (arith, b.few);
  }
  Step-Balanced n plain small safe (sends m i k s s' taken h e) answered b = record {
    counts = b.counts;
    few = omega (arith, b.few);
  }

  Reach-Balanced :
      {c : C} (r : Reach env max_users c)
      → ArePlain
      → IsAnswered r
      → steps r < i64_max
      → Balanced c (steps r)
  Reach-Balanced (start c h p closed) plain answered small = fresh-Balanced c answered closed
  Reach-Balanced (later r step) plain answered small =
      Step-Balanced (steps r) plain (omega arith) (Reach-IsSafe env max_users r) step answered.1
        (Reach-Balanced r plain answered.0 (omega arith))

  -- However the steps of all nodes interleave, as long as Redis was empty at first and answers each call of the
  -- limiter, no valid token's tenant has a closing brace in its name, and there were fewer than 2^63 - 1
  -- steps: a tenant with no brace in its name has sockets that were let in and not released yet of at most
  -- `max_users` distinct users, over all nodes together, and Redis has just these users, and for each
  -- the number of these sockets.
  pub sockets-Counts :
      {c : C} (r : Reach env max_users c)
      → ArePlain
      → IsAnswered r
      → steps r < i64_max
      → (t : String) → Lacks b'}' t
      → (xs : List String) × (length xs ≤ max_users)
        × Tracks redis t c.store xs (open_of t (places_in c))
  sockets-Counts r plain answered small t ht =
      let counts = (Reach-Balanced r plain answered small).counts t ht in
      (counts.xs, counts.capped, counts.tracks)
