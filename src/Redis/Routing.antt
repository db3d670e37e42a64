-- ===== src/Redis/Routing.antt =====
-- Whom a message that comes in over Redis reaches.
use yappa_core.Common.{
  string_eq, nat_eq, String, ◌≡◌, ap, ◌∙◌, Bool, true, false, ◌&&◌, ◌||◌, Option, some, ◌==◌,
  if◌then◌else◌, unwrap_or, arith, Bool-cases, inl, inr, ==-refl, eq_of_==,
}
use yappa_core.Protocol.{ChannelType, dm, group, community, ServerMessage, Message, text}
use yappa_core.Connection.{ConnectionRegistry, ConnectionId, TrySend}
use yappa_core.Connection.Deliver.{kept_after}
use yappa_core.Connection.Spec.{
  Call, joins, sends_to_user, sends_to_group, Presence, Presence-path, is_in, view, apply, expected,
}
use yappa_core.Connection.Valid.{IsValid, apply-IsValid}
use yappa_core.Connection.Refinement.{view-apply}
use yappa_core.Redis.{receive, fan_out, route}

abbrev pub is_join : ServerMessage → Bool
is_join m = m.msg_type == "group_join"

-- Who is in a group once a join has been taken in.
abbrev pub after_join : {S : Type 0} → Presence S → ServerMessage → Option (String → Bool)
after_join p m =
    if is_join m
    then some (λ u. m.sender_id == u || is_in (p.group m.tenant_id m.channel_id) u)
    else p.group m.tenant_id m.channel_id

-- The users that a message is for: the members of its group, the new one included, or the user that a
-- direct message names.
abbrev pub is_for : {S : Type 0} → Presence S → ServerMessage → ChannelType → String → Bool
is_for p m dm u = if is_join m then is_in (after_join p m) u else m.channel_id == u
is_for p m group u = is_in (after_join p m) u
is_for p m community u = is_in (after_join p m) u

module _ {S : Type 0} (try_send : S → Message → TrySend × S)
    (to_string : ServerMessage → Option String) where
  -- What the registry's contract makes of a message.
  abbrev pub expected_route : Presence S → ServerMessage → Presence S
  expected_route p m = record {
    channel = λ t u k.
        if (m.tenant_id == t) && is_for p m m.channel_type u
        then kept_after try_send (text (unwrap_or (to_string m) "")) (p.channel t u k)
        else p.channel t u k;
    group = λ t g.
        if is_join m && ((m.tenant_id == t) && (m.channel_id == g))
        then after_join p m
        else p.group t g;
  }

module _ {S : Type 0} (try_send : S → Message → TrySend × S)
    (to_string : ServerMessage → Option String) (from_str : String → Option ServerMessage)
    (r : ConnectionRegistry S) (m : ServerMessage) (v : IsValid r) where
  abbrev pub frame : Message
  frame = text (unwrap_or (to_string m) "")

  -- The `match` does what the contract of its call says.
  view-fan_out :
      (ct : ChannelType)
      → is_join m ≡ false
      → (view (fan_out try_send to_string from_str ct r m frame)).group ≡ (view r).group
        × ((t u : String) (k : ConnectionId)
            → (view (fan_out try_send to_string from_str ct r m frame)).channel t u k ≡ (
                if (m.tenant_id == t) && is_for (view r) m ct u
                then kept_after try_send frame ((view r).channel t u k)
                else (view r).channel t u k))
  unfolding fan_out apply
  view-fan_out dm e =
      let p = view-apply try_send r (sends_to_user m.tenant_id m.channel_id frame) v in
      (ap (λ q. q.group) p, λ t u k. ap (λ q. q.channel t u k) p ∙ rw e)
  view-fan_out group e =
      let p = view-apply try_send r (sends_to_group m.tenant_id m.channel_id frame) v in
      (ap (λ q. q.group) p, λ t u k. ap (λ q. q.channel t u k) p ∙ rw e)
  view-fan_out community e =
      let p = view-apply try_send r (sends_to_group m.tenant_id m.channel_id frame) v in
      (ap (λ q. q.group) p, λ t u k. ap (λ q. q.channel t u k) p ∙ rw e)

  is_for_join :
      (ct : ChannelType) (p : Presence S) (u : String)
      → is_join m ≡ true
      → is_for p m ct u ≡ (m.sender_id == u || is_in (p.group m.tenant_id m.channel_id) u)
  is_for_join dm p u e = rw e
  is_for_join group p u e = rw e
  is_for_join community p u e = rw e

  view-join :
      is_join m ≡ true
      → view (route try_send to_string from_str r m) ≡ expected_route try_send to_string (view r) m
  unfolding route apply
  view-join e =
      let into : Call S Message = joins m.tenant_id m.channel_id m.sender_id in
      let first = view-apply try_send r into v in
      let second =
        view-apply try_send (apply try_send r into) (sends_to_group m.tenant_id m.channel_id frame)
          (apply-IsValid try_send into v) in
      rw e (
        second
        ∙ ap (λ p. expected try_send p (sends_to_group m.tenant_id m.channel_id frame)) first
        ∙ Presence-path
            (λ t u k. ground (
              arith,
              e,
              is_for_join m.channel_type (view r) u e,
              ==-refl m.tenant_id,
              ==-refl m.channel_id,
            ))
            (λ t g. ground (arith, e, eq_of_== m.tenant_id t, eq_of_== m.channel_id g)))

-- A message that comes in reaches the open connections of the users that it is for, and no others: each
-- channel takes it or is evicted, a join first adds its sender to the group, and nothing else in the
-- registry changes, of this tenant or of another.
pub view-route :
    {S : Type 0} (try_send : S → Message → TrySend × S) (to_string : ServerMessage → Option String)
    (from_str : String → Option ServerMessage) (r : ConnectionRegistry S) (m : ServerMessage)
    → IsValid r
    → view (route try_send to_string from_str r m) ≡ expected_route try_send to_string (view r) m
unfolding route
view-route try_send to_string from_str r m v = elim (Bool-cases (is_join m)) [
  | inl e ↦ view-join try_send to_string from_str r m v e
  | inr e ↦
      let (groups, channels) = view-fan_out try_send to_string from_str r m v m.channel_type e in
      Presence-path (λ t u k. rw (e, route) (channels t u k))
        (λ t g. rw (e, route) (ap (λ f. f t g) groups))
]

-- The same for a payload that parses.
pub view-receive :
    {S : Type 0} (try_send : S → Message → TrySend × S) (to_string : ServerMessage → Option String)
    (from_str : String → Option ServerMessage) (r : ConnectionRegistry S) (p : String)
    (m : ServerMessage)
    → IsValid r
    → from_str p ≡ some m
    → view (receive try_send to_string from_str r p) ≡ expected_route try_send to_string (view r) m
unfolding receive
view-receive try_send to_string from_str r p m v e =
    rw (e, receive) (view-route try_send to_string from_str r m v)
