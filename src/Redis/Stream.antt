-- ===== src/Redis/Stream.antt =====
-- The listener over a whole stream: validity, tenants kept apart, and what becomes of a direct
-- message that is published to its recipient and to its sender.
use yappa_core.Common.{
  string_eq, nat_eq, String, ◌≡◌, ◌≢◌, refl, ap, ◌∙◌, false, Option, none, some, List, [], ◌∷◌,
  ◌==◌, if◌then◌else◌, unwrap_or, arith, Bool-cases, Option-cases, inl, inr, ==-false, ==-refl,
}
use yappa_core.Protocol.{ChannelType, dm, group, community, ServerMessage, Message, text}
use yappa_core.Connection.{ConnectionRegistry, ConnectionId, TrySend}
use yappa_core.Connection.Deliver.{kept_after}
use yappa_core.Connection.Spec.{Call, joins, sends_to_user, sends_to_group, view, channel_of, apply}
use yappa_core.Connection.Valid.{IsValid, apply-IsValid}
use yappa_core.Redis.{fan_out, route, receive, listener}
use yappa_core.Redis.Routing.{is_join, view-route}

module _ {S : Type 0} (try_send : S → Message → TrySend × S)
    (to_string : ServerMessage → Option String) (from_str : String → Option ServerMessage) where
  fan_out-IsValid :
      (ct : ChannelType) (r : ConnectionRegistry S) (m : ServerMessage) (f : Message)
      → IsValid r
      → IsValid (fan_out try_send to_string from_str ct r m f)
  unfolding fan_out apply
  fan_out-IsValid dm r m f v = apply-IsValid try_send (sends_to_user m.tenant_id m.channel_id f) v
  fan_out-IsValid group r m f v =
      apply-IsValid try_send (sends_to_group m.tenant_id m.channel_id f) v
  fan_out-IsValid community r m f v =
      apply-IsValid try_send (sends_to_group m.tenant_id m.channel_id f) v

  route-IsValid :
      (r : ConnectionRegistry S) (m : ServerMessage)
      → IsValid r
      → IsValid (route try_send to_string from_str r m)
  unfolding route apply
  route-IsValid r m v =
      let f = text (unwrap_or (to_string m) "") in
      let into : Call S Message = joins m.tenant_id m.channel_id m.sender_id in
      elim (Bool-cases (is_join m)) [
        | inl e ↦
            rw (e, route)
              (apply-IsValid try_send {r = apply try_send r into}
                (sends_to_group m.tenant_id m.channel_id f) (apply-IsValid try_send into v))
        | inr e ↦ rw (e, route) (fan_out-IsValid m.channel_type r m f v)
      ]

  receive-IsValid :
      (r : ConnectionRegistry S) (p : String)
      → IsValid r
      → IsValid (receive try_send to_string from_str r p)
  unfolding receive
  receive-IsValid r p v = elim (Option-cases (from_str p)) [
    | inl e ↦ rw (e, receive) v
    | inr (m, e) ↦ rw (e, receive) (route-IsValid r m v)
  ]

  -- No payload of the stream is a message of this tenant.
  abbrev pub IsForeign : String → List (Option String) → Type 0
  IsForeign t [] = Unit
  IsForeign t (none ∷ stream) = Unit
  IsForeign t (some p ∷ stream) =
      ((m : ServerMessage) → from_str p ≡ some m → m.tenant_id ≢ t) × IsForeign t stream

  receive-foreign :
      (r : ConnectionRegistry S) (p t u g : String) (k : ConnectionId)
      → IsValid r
      → ((m : ServerMessage) → from_str p ≡ some m → m.tenant_id ≢ t)
      → let r' = receive try_send to_string from_str r p in
        ((view r').channel t u k ≡ (view r).channel t u k)
        × ((view r').group t g ≡ (view r).group t g)
  unfolding receive
  receive-foreign r p t u g k v h = elim (Option-cases (from_str p)) [
    | inl e ↦ rw (e, receive) (refl, refl)
    | inr (m, e) ↦
        let other = ==-false m.tenant_id t (h m e) in
        let routed = view-route try_send to_string from_str r m v in
        rw (e, receive)
          (
            ap (λ q. q.channel t u k) routed ∙ rw other,
            ap (λ q. q.group t g) routed ∙ ground (arith, other),
          )
  ]

  -- The listener keeps tenants apart: a stream with no message of a tenant leaves every connection and
  -- every group of that tenant as it was.
  pub listener-foreign :
      (stream : List (Option String)) (r : ConnectionRegistry S) (t u g : String) (k : ConnectionId)
      → IsValid r
      → IsForeign t stream
      → let r' = (listener try_send to_string from_str r stream).0 in
        ((view r').channel t u k ≡ (view r).channel t u k)
        × ((view r').group t g ≡ (view r).group t g)
  unfolding listener
  listener-foreign [] r t u g k v h = (refl, refl)
  listener-foreign (none ∷ stream) r t u g k v h = (refl, refl)
  listener-foreign (some p ∷ stream) r t u g k v h =
      let r' = receive try_send to_string from_str r p in
      let (channels, groups) = listener-foreign stream r' t u g k (receive-IsValid r p v) h.1 in
      let (channel, set) = receive-foreign r p t u g k v h.0 in (channels ∙ channel, groups ∙ set)

  -- One direct message at one node.
  receive-dm :
      (r : ConnectionRegistry S) (p u : String) (m : ServerMessage) (k : ConnectionId)
      → IsValid r
      → from_str p ≡ some m
      → m.channel_type ≡ dm
      → is_join m ≡ false
      → channel_of (receive try_send to_string from_str r p) m.tenant_id u k ≡ (
          if m.channel_id == u
          then kept_after try_send
              (text (unwrap_or (to_string m) ""))
              (channel_of r m.tenant_id u k)
          else channel_of r m.tenant_id u k)
  unfolding receive
  receive-dm r p u m k v e direct chat =
      rw (e, receive)
        (ap (λ q. q.channel m.tenant_id u k) (view-route try_send to_string from_str r m v)
          ∙ rw (direct, chat, ==-refl m.tenant_id))

  -- A direct message that is published twice, for its recipient and as an echo for its sender, is
  -- handed to every connection of the recipient twice, and to none of the sender, who is another user.
  pub listener-dm-echo :
      (r : ConnectionRegistry S) (p : String) (m : ServerMessage) (k : ConnectionId)
      → IsValid r
      → from_str p ≡ some m
      → m.channel_type ≡ dm
      → is_join m ≡ false
      → m.channel_id ≢ m.sender_id
      → let r' = (listener try_send to_string from_str r (some p ∷ some p ∷ [])).0 in
        let f = text (unwrap_or (to_string m) "") in
        (channel_of r' m.tenant_id m.channel_id k
          ≡ kept_after try_send f (kept_after try_send f (channel_of r m.tenant_id m.channel_id k)))
        × (channel_of r' m.tenant_id m.sender_id k ≡ channel_of r m.tenant_id m.sender_id k)
  unfolding listener
  listener-dm-echo r p m k v e direct chat apart =
      let r' = receive try_send to_string from_str r p in
      let v' = receive-IsValid r p v in
      (
        receive-dm r' p m.channel_id m k v' e direct chat
            ∙ rw (
              ==-refl m.channel_id,
              receive-dm r p m.channel_id m k v e direct chat,
              ==-refl m.channel_id,
            ),
        receive-dm r' p m.sender_id m k v' e direct chat
            ∙ rw (
              ==-false m.channel_id m.sender_id apart,
              receive-dm r p m.sender_id m k v e direct chat,
              ==-false m.channel_id m.sender_id apart,
            ),
      )
