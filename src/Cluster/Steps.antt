-- ===== src/Cluster/Steps.antt =====
-- Every step keeps the invariant.
use yappa_core.Common.{
  nat_eq, string_eq, ℕ, ◌≡◌, inr, sym, ap, subst, some, List, [], ◌++◌, Every, Every-suffix,
}
use yappa_core.Auth.{Identity}
use yappa_core.Protocol.{Message}
use yappa_core.Connection.{ConnectionRegistry, ConnectionId, empty, register, contains_key}
use yappa_core.Common.Map.{get}
use yappa_core.Connection.Spec.{apply, run, channel_of}
use yappa_core.Connection.Valid.{run-empty-IsValid}
use yappa_core.Redis.{receive}
use yappa_core.Ws.{World}
use yappa_core.Cluster.{
  Environment, Socket, Cluster, put, Step, refuses, accepts, registers, joins_general, takes,
  lingers, resumes, removes, misses, drops, releases, hears, sends, Reach, start, later,
}
use yappa_core.Cluster.Invariant.{
  IsPermitted, WasIssued, IsGenuine, IsSound, IsSafe, IsSound-registers, IsSound-sockets,
}
use yappa_core.Cluster.Heard.{Sound-receive, WasIssued-Memᴰ}
use yappa_core.Cluster.Changes.{put-Sound}
use yappa_core.Cluster.Sockets.{
  accepted-IsAuthentic, registers-AreSafe, joins_general-AreSafe, takes-AreSafe, lingers-AreSafe,
  resumes-AreSafe, removes-AreSafe, misses-AreSafe, drops-AreSafe, releases-AreSafe,
}

module _ (env : Environment) (max_users : ℕ) where
  open env use {
    sv, database, redis, S, try_send, queued, queued_lem, decode, from_str, from_str_lem,
  }

  abbrev C : Type 0
  C = Cluster env max_users

  abbrev R : Type 0
  R = ConnectionRegistry S

  abbrev V : Type 0
  V = World sv database try_send

  abbrev Sound : ℕ → List (Socket S) → R → Type 0
  Sound = IsSound env max_users

  sends-IsSafe :
      (c : C) (n : ℕ) (i : Identity) (k : ConnectionId) (s s' : S) (taken : List Message)
      → channel_of (c.nodes n) i.tenant_id i.user_id k ≡ some s
      → queued s ≡ taken ++ queued s'
      → IsSafe env max_users c
      → IsSafe env max_users
          (record c { nodes = put env max_users c.nodes n (register (c.nodes n) i k s') })
  unfolding apply
  sends-IsSafe c n i k s s' taken there e safe =
      let here = safe.sound n in
      let rest = Every-suffix (IsPermitted env max_users i.tenant_id) taken (queued s') (
        subst (λ l. Every (IsPermitted env max_users i.tenant_id) l) e
          (here.clean i.tenant_id i.user_id k s there)) in
      record {
        sound = λ m.
            put-Sound env max_users c.nodes n (register (c.nodes n) i k s') c.sockets m
              (λ other. safe.sound m)
              (IsSound-registers env max_users n c.sockets (c.nodes n) i k s' rest
                (here.held i.tenant_id i.user_id k (ap contains_key there)) here);
        issued = safe.issued;
        genuine = safe.genuine;
      }

  pub Step-IsSafe :
      {c c' : C} → Step env max_users c c' → IsSafe env max_users c → IsSafe env max_users c'
  Step-IsSafe (refuses authorization query reachable response s' e h) safe = safe
  Step-IsSafe {c} (accepts n authorization query reachable i s' e) safe = record {
    sound =
        λ m. IsSound-sockets env max_users m c.sockets _ (c.nodes m) (λ t u k. inr) (safe.sound m);
    issued = safe.issued;
    genuine = (
      (accepted-IsAuthentic env max_users authorization query reachable i c.store s' e, tt),
      safe.genuine,
    );
  }
  Step-IsSafe {c} (registers before after n i k tx e fresh) safe =
      registers-AreSafe env max_users c.nodes c.published c.sockets before after n i k tx e fresh
        safe
  Step-IsSafe {c} (joins_general before after n i k now e) safe =
      joins_general-AreSafe env max_users c.nodes c.published c.sockets before after n i k now e
        safe
  Step-IsSafe {c} (takes before after n i k last_activity now e p same ran) safe =
      takes-AreSafe env max_users c.nodes c.published c.sockets before after n i k last_activity now
        e p same ran safe
  Step-IsSafe {c} (lingers before after x last_activity now e p same ending over ran) safe =
      lingers-AreSafe env max_users c.nodes c.published c.sockets before after x last_activity now e
        p same ran safe
  Step-IsSafe {c} (resumes before after x outcome p' w' e ran) safe =
      resumes-AreSafe env max_users c before after x outcome p' w' e ran safe
  Step-IsSafe {c} (removes before after n i k last_activity p r' b e ran) safe =
      removes-AreSafe env max_users c.nodes c.published c.sockets before after n i k last_activity p
        r' b e ran safe
  Step-IsSafe {c} (misses before after n i k last_activity p e missing) safe =
      misses-AreSafe env max_users c.nodes c.published c.sockets before after n i k last_activity p
        e missing safe
  Step-IsSafe {c} (drops before after n i b p e) safe =
      drops-AreSafe env max_users c.nodes c.published c.sockets before after n i b p e safe
  Step-IsSafe {c} (releases before after n i p reachable e) safe =
      releases-AreSafe env max_users c.nodes c.published c.sockets before after n i p e safe
  Step-IsSafe {c} (hears n channel payload was) safe = record {
    sound = λ m.
        put-Sound env max_users c.nodes n
          (receive try_send sv.to_string from_str (c.nodes n) payload) c.sockets m
          (λ other. safe.sound m)
          (Sound-receive env max_users n c.sockets channel payload (c.nodes n)
            (WasIssued-Memᴰ env max_users (channel, payload) c.published was safe.issued)
            (safe.sound n));
    issued = safe.issued;
    genuine = safe.genuine;
  }
  Step-IsSafe {c} (sends n i k s s' taken there e) safe =
      sends-IsSafe c n i k s s' taken there e safe

  empty-Sound : (n : ℕ) → Sound n [] empty
  unfolding get run
  empty-Sound n = record {
    valid = run-empty-IsValid try_send [];
    clean = λ t u k s h. cc;
    held = λ t u k h. cc;
  }

  pub Reach-IsSafe : {c : C} → Reach env max_users c → IsSafe env max_users c
  Reach-IsSafe (start c started silent closed) = record {
    sound = λ n.
        subst (λ xs. Sound n xs (c.nodes n)) (sym closed)
          (subst (Sound n []) (sym (started n)) (empty-Sound n));
    issued = subst (λ l. Every (WasIssued env max_users) l) (sym silent) tt;
    genuine = subst (λ l. Every (IsGenuine env max_users) l) (sym closed) tt;
  }
  Reach-IsSafe (later r s) = Step-IsSafe s (Reach-IsSafe r)
