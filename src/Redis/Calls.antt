-- ===== src/Redis/Calls.antt =====
-- The listener's effect on the registry, as a list of the registry's calls.
use yappa_core.Common.{
  Every, ◌⊎◌, string_eq, String, ◌≡◌, refl, Option, some, List, [], ◌∷◌, unwrap_or, Bool-cases,
  Option-cases, inl, inr,
}
use yappa_core.Protocol.{ChannelType, dm, group, community, ServerMessage, Message, text}
use yappa_core.Connection.{ConnectionRegistry, TrySend}
use yappa_core.Connection.Spec.{Call, joins, sends_to_user, sends_to_group, apply, run}
use yappa_core.Redis.{fan_out, route, receive}
use yappa_core.Redis.Routing.{is_join}

module _ {S : Type 0} (try_send : S → Message → TrySend × S)
    (to_string : ServerMessage → Option String) (from_str : String → Option ServerMessage) where
  abbrev pub frame_of : ServerMessage → Message
  frame_of m = text (unwrap_or (to_string m) "")

  -- A call in the message's tenant that sends nothing but the message.
  abbrev pub IsHeard : ServerMessage → Call S Message → Type 0
  IsHeard m (joins t g u) = t ≡ m.tenant_id
  IsHeard m (sends_to_user t u f) = (t ≡ m.tenant_id) × (f ≡ frame_of m)
  IsHeard m (sends_to_group t g f) = (t ≡ m.tenant_id) × (f ≡ frame_of m)
  IsHeard m _ = ⊥

  -- The registry after some calls for a message.
  pub record Heard (m : ServerMessage) (r r' : ConnectionRegistry S) : Type 0 where
    pub calls : List (Call S Message)
    pub ran : r' ≡ run try_send r calls
    pub heard : Every (IsHeard m) calls

  fan_out-Heard :
      (ct : ChannelType) (r : ConnectionRegistry S) (m : ServerMessage)
      → Heard m r (fan_out try_send to_string from_str ct r m (frame_of m))
  unfolding fan_out run apply
  fan_out-Heard dm r m = record {
    calls = sends_to_user m.tenant_id m.channel_id (frame_of m) ∷ [];
    ran = refl;
    heard = ((refl, refl), tt);
  }
  fan_out-Heard group r m = record {
    calls = sends_to_group m.tenant_id m.channel_id (frame_of m) ∷ [];
    ran = refl;
    heard = ((refl, refl), tt);
  }
  fan_out-Heard community r m = record {
    calls = sends_to_group m.tenant_id m.channel_id (frame_of m) ∷ [];
    ran = refl;
    heard = ((refl, refl), tt);
  }

  route-Heard :
      (r : ConnectionRegistry S) (m : ServerMessage)
      → Heard m r (route try_send to_string from_str r m)
  unfolding route run apply
  route-Heard r m = elim (Bool-cases (is_join m)) [
    | inl e ↦
        rw (e, route)
          (record {
            calls =
                joins m.tenant_id m.channel_id m.sender_id
                ∷ sends_to_group m.tenant_id m.channel_id (frame_of m)
                ∷ [];
            ran = refl;
            heard = (refl, ((refl, refl), tt));
          })
    | inr e ↦ rw (e, route) (fan_out-Heard m.channel_type r m)
  ]

  -- A payload that does not parse changes nothing.
  pub receive-Heard :
      (r : ConnectionRegistry S) (p : String)
      → (receive try_send to_string from_str r p ≡ r)
        ⊎ ((m : ServerMessage) × (from_str p ≡ some m)
            × Heard m r (receive try_send to_string from_str r p))
  unfolding receive
  receive-Heard r p = elim (Option-cases (from_str p)) [
    | inl e ↦ rw (e, receive) (inl refl)
    | inr (m, e) ↦ inr (m, e, rw (e, receive) (route-Heard r m))
  ]
