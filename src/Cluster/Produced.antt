-- ===== src/Cluster/Produced.antt =====
-- What the handlers of all nodes hand to Kafka, and what the consumers read.
use yappa_core.Common.{
  string_eq, ℕ, String, ◌≡◌, refl, sym, subst, true, some, List, [], ◌∷◌, Every, Every-append,
  Every-middle, contains,
}
use yappa_core.Auth.{Identity}
use yappa_core.Protocol.{ServerMessage}
use yappa_core.App.Start.{topics}
use yappa_core.Ws.{World}
use yappa_core.Ws.Effects.{IsHanded}
use yappa_core.Ws.Program.{Program, Outcome, resume}
use yappa_core.Ws.Program.Moves.{resume-Moved}
use yappa_core.Cluster.{
  Environment, pending, Socket, Cluster, seen_from, Step, refuses, accepts, registers,
  joins_general, takes, lingers, resumes, removes, misses, drops, releases, hears, sends, Reach,
  start, later,
}
use yappa_core.Cluster.Invariant.{IsAuthentic, IsIssued, IsGenuine, IsSafe}
use yappa_core.Cluster.Steps.{Reach-IsSafe}

module _ (env : Environment) (max_users : ℕ) where
  open env use {sv, database, S, try_send, from_str}

  abbrev C : Type 0
  C = Cluster env max_users

  abbrev V : Type 0
  V = World sv database try_send

  -- A record on a topic of the consumer that reads back as a message that was issued, under its channel.
  abbrev pub IsReadable : String × String × String → Type 0
  IsReadable (topic, key, payload) =
      (contains topic topics ≡ true)
      × (m : ServerMessage) × (from_str payload ≡ some m)
      × (m.channel_id ≡ key)
      × IsIssued env max_users m

  handed-IsReadable :
      (i : Identity)
      → IsAuthentic env max_users i
      → (record' : String × String × String) → IsHanded sv database try_send i record'
      → IsReadable record'
  handed-IsReadable i auth (topic, key, payload) (on, m, written, under, t, s) = (
    rw on refl,
    m,
    env.from_str_lem m payload written,
    under,
    subst (λ (j : Identity). IsAuthentic env max_users j)
        (λ k. record { tenant_id = sym t k; user_id = sym s k }) auth,
  )

  Every-handed :
      (i : Identity) (records : List (String × String × String))
      → IsAuthentic env max_users i
      → Every (IsHanded sv database try_send i) records
      → Every IsReadable records
  Every-handed i [] auth h = tt
  Every-handed i (r ∷ records) auth h =
      (handed-IsReadable i auth r h.0, Every-handed i records auth h.1)

  abbrev AllReadable : List (String × String × String) → Type 0
  AllReadable records = Every IsReadable records

  resumed :
      (x : Socket S) (outcome : Outcome) (p' : Program S) (w w' : V)
      → IsGenuine env max_users x
      → resume sv database try_send outcome (pending x.phase) w ≡ some (p', w')
      → AllReadable w.produced
      → AllReadable w'.produced
  resumed x outcome p' w w' genuine ran all =
      let moved =
        (resume-Moved sv database try_send x.identity outcome (pending x.phase) p' w w' genuine.1
          ran).1 in
      subst AllReadable (sym moved.hands.appended) (
        Every-append IsReadable w.produced moved.hands.new all
          (Every-handed x.identity moved.hands.new genuine.0 moved.hands.handed))

  Step-AllReadable :
      {c c' : C}
      → IsSafe env max_users c
      → Step env max_users c c'
      → AllReadable c.produced
      → AllReadable c'.produced
  Step-AllReadable safe (refuses a q reachable response s' e h) all = all
  Step-AllReadable safe (accepts n a q reachable i s' e) all = all
  Step-AllReadable safe (registers before after n i k tx e fresh) all = all
  Step-AllReadable safe (joins_general before after n i k now e) all = all
  Step-AllReadable safe (takes before after n i k last_activity now e p same ran) all = all
  Step-AllReadable safe (lingers before after x last now e p same ending over ran) all = all
  Step-AllReadable {c} safe (resumes before after x outcome p' w' e ran) all =
      resumed x outcome p' (seen_from env max_users c x.node) w'
        (Every-middle (IsGenuine env max_users) before x after
          (subst (Every (IsGenuine env max_users)) e safe.genuine))
        ran all
  Step-AllReadable safe (removes before after n i k last_activity p r' b e ran) all = all
  Step-AllReadable safe (misses before after n i k last_activity p e missing) all = all
  Step-AllReadable safe (drops before after n i b p e) all = all
  Step-AllReadable safe (releases before after n i p reachable e) all = all
  Step-AllReadable safe (hears n channel payload h) all = all
  Step-AllReadable safe (sends n i k s s' taken h e) all = all

  -- A run that starts with nothing produced.
  abbrev pub StartsSilent : {c : C} → Reach env max_users c → Type 0
  StartsSilent (start c h p s) = c.produced ≡ []
  StartsSilent (later r step) = StartsSilent r

  -- In every cluster that can come about where nothing was produced at first, each record that was handed to
  -- Kafka is on a topic that the nodes' consumers subscribe to, and reads back as a message whose tenant and
  -- sender are those of a valid token, under the channel of that message.
  pub produced-IsReadable :
      {c : C} (r : Reach env max_users c) → StartsSilent r → Every IsReadable c.produced
  produced-IsReadable (start c h p s) silent = subst AllReadable (sym silent) tt
  produced-IsReadable (later r step) silent =
      Step-AllReadable (Reach-IsSafe env max_users r) step (produced-IsReadable r silent)
