-- ===== src/Cluster/Heard.antt =====
-- What a node hears over Redis is permitted, and what a client publishes was issued.
use yappa_core.Common.{
  nat_eq, string_eq, ℕ, String, ◌≡◌, inl, inr, sym, subst, List, [], ◌∷◌, Every, Every-map,
}
use mathlib.Core.List.{Memᴰ}
use yappa_core.Auth.{Identity}
use yappa_core.Protocol.{ServerMessage, Message}
use yappa_core.Connection.{ConnectionRegistry}
use yappa_core.Connection.Contents.{Sends, OpensNone}
use yappa_core.Connection.Spec.{
  Call, registers, unregisters, joins, leaves, creates, deletes, sends_to_user, sends_to_group,
}
use yappa_core.Redis.{receive}
use yappa_core.Redis.Calls.{IsHeard, Heard, receive-Heard}
use yappa_core.Ws.Effects.{IsFrom}
use yappa_core.Cluster.{Environment, Socket, Cluster}
use yappa_core.Cluster.Invariant.{
  IsAuthentic, IsIssued, IsPermitted, WasIssued, IsSound, IsSound-run,
}

module _ (env : Environment) (max_users : ℕ) where
  open env use {
    sv, database, redis, S, try_send, queued, queued_lem, decode, from_str, from_str_lem,
  }

  abbrev C : Type 0
  C = Cluster env max_users

  abbrev R : Type 0
  R = ConnectionRegistry S

  abbrev Sending : Call S Message → Type 0
  Sending = Sends try_send queued queued_lem (IsPermitted env max_users)

  abbrev Sound : ℕ → List (Socket S) → R → Type 0
  Sound = IsSound env max_users

  -- A message that was published and is heard on a node.
  heard-Sends :
      (m : ServerMessage) (c : Call S Message)
      → IsIssued env max_users m
      → IsHeard try_send sv.to_string from_str m c
      → Sending c
  heard-Sends m (joins t g u) issued h = tt
  heard-Sends m (sends_to_user t u f) issued (e, e') = inr (m, sym e, e', issued)
  heard-Sends m (sends_to_group t g f) issued (e, e') = inr (m, sym e, e', issued)
  heard-Sends m (registers i c s) issued h = elim h [ ]
  heard-Sends m (unregisters i c) issued h = elim h [ ]
  heard-Sends m (leaves t g u) issued h = elim h [ ]
  heard-Sends m (creates t g) issued h = elim h [ ]
  heard-Sends m (deletes t g) issued h = elim h [ ]

  heard-OpensNone :
      (m : ServerMessage) (c : Call S Message)
      → IsHeard try_send sv.to_string from_str m c
      → OpensNone try_send c
  heard-OpensNone m (registers i c s) h t u k o = h
  heard-OpensNone m (unregisters i c) h t u k o = o
  heard-OpensNone m (joins t' g v) h t u k o = o
  heard-OpensNone m (leaves t' g v) h t u k o = o
  heard-OpensNone m (creates t' g) h t u k o = o
  heard-OpensNone m (deletes t' g) h t u k o = o
  heard-OpensNone m (sends_to_user t' v f) h t u k o = o
  heard-OpensNone m (sends_to_group t' g f) h t u k o = o

  Sound-Heard :
      (n : ℕ) (xs : List (Socket S)) (m : ServerMessage) (r r' : R)
      → IsIssued env max_users m
      → Heard try_send sv.to_string from_str m r r'
      → Sound n xs r
      → Sound n xs r'
  Sound-Heard n xs m r r' issued h s = subst (Sound n xs) (sym h.ran) (
      IsSound-run env max_users n xs r h.calls
        (Every-map (λ c. heard-Sends m c issued) h.calls h.heard)
        (Every-map (heard-OpensNone m) h.calls h.heard) s)

  pub WasIssued-Memᴰ :
      (x : String × String) (xs : List (String × String))
      → Memᴰ x xs
      → Every (WasIssued env max_users) xs
      → WasIssued env max_users x
  WasIssued-Memᴰ x xs (Memᴰ.head e) h = subst (WasIssued env max_users) (sym e) h.0
  WasIssued-Memᴰ x xs (Memᴰ.tail i) h = WasIssued-Memᴰ x _ i h.1

  pub Sound-receive :
      (n : ℕ) (xs : List (Socket S)) (channel payload : String) (r : R)
      → WasIssued env max_users (channel, payload)
      → Sound n xs r
      → Sound n xs (receive try_send sv.to_string from_str r payload)
  Sound-receive n xs channel payload r (m, written, issued) s =
      elim (receive-Heard try_send sv.to_string from_str r payload) [
        | inl same ↦ subst (Sound n xs) (sym same) s
        | inr (m', e, h) ↦
            let one : m ≡ m' = let e' = from_str_lem m payload written in cc in
            Sound-Heard n xs m' r _ (subst (IsIssued env max_users) one issued) h s
      ]

  -- What a client publishes was issued with its token.
  pub IsFrom-WasIssued :
      (i : Identity) (xs : List (String × String))
      → IsAuthentic env max_users i
      → IsFrom sv database try_send i xs
      → Every (WasIssued env max_users) xs
  IsFrom-WasIssued i [] auth h = tt
  IsFrom-WasIssued i ((channel, payload) ∷ xs) auth h =
      let (m, written, tenant, sender) = h.0 in
      let same : i ≡ record { tenant_id = m.tenant_id; user_id = m.sender_id } =
        λ j. record { tenant_id = sym tenant j; user_id = sym sender j } in
      ((m, written, subst (IsAuthentic env max_users) same auth), IsFrom-WasIssued i xs auth h.1)
