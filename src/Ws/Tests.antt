-- ===== src/Ws/Tests.antt =====
-- The handler's theorems at one node with two users, of whom one is in the group "team".
use yappa_core.Common.{
  string_eq, nat_eq, arith, ◌≡◌, ◌≢◌, refl, false, some, List, [], ◌∷◌, ◌==◌, ◌&&◌, if◌then◌else◌,
  inr,
}
use yappa_core.Sample.{ann, bob, queue_send, ledger, services, draws, leave_team, to_bob, to_team}
use yappa_core.Protocol.{dm, group, Message, text}
use yappa_core.Connection.{
  empty, register, join_group, leave_group, is_user_in_group, send_msg_to_user,
}
use yappa_core.Connection.Spec.{Call, registers, joins, run, apply}
use yappa_core.Connection.Valid.{run-empty-IsValid}
use yappa_core.Common.Map.{get, insert}
use yappa_core.Redis.{publish_grp, receive}
use yappa_core.Ws.Membership.{handle_text_message-members}
use yappa_core.Ws.Delivery.{group_message, Delivered, handle_text_message-Delivered}
use yappa_core.Protocol.{ServerMessage}
use yappa_core.Common.{Option, String}
use yappa_core.Ws.{World, handle_text_message, handle_group, handle_leave}
use yappa_core.Ws.Persist.{persisted}
use yappa_core.Ws.Authentic.{handle_text_message-Adds}
use yappa_core.Ws.Effects.{Adds}
use yappa_core.Ws.Isolation.{Ends, handle_text_message-Ends}
use yappa_core.Ws.Rules.{IsSilent, handle_text_message-IsSilent, dm_message, handle_text_message-dm}

abbrev history : List (Call (List Message) Message)
history = registers ann 1 [] ∷ registers bob 2 [] ∷ joins "acme" "team" "ann" ∷ []

-- No Kafka; ann is in conversation 7.
abbrev world : World services ledger queue_send
world = record {
  registry = run queue_send empty history;
  tables = λ c u. c == 7 && u == "ann";
  messages = [];
  kafka = false;
  published = [];
  produced = [];
}

handle_text_message-Ends_example :
    Ends services ledger queue_send bob world
      (handle_text_message services ledger queue_send "chat" bob draws world)
handle_text_message-Ends_example =
    handle_text_message-Ends services ledger queue_send bob "chat" draws world
      (run-empty-IsValid queue_send history)

-- After the direct message "hi" from ann to bob.
abbrev said : World services ledger queue_send
said =
    persisted services ledger queue_send
      (record world { published = ("user:acme:bob", "hi") ∷ ("user:acme:ann", "hi") ∷ [] })
      (dm_message services ledger queue_send ann to_bob draws)

ran-dm : handle_text_message services ledger queue_send "dm" ann draws world ≡ some said
ran-dm =
    handle_text_message-dm services ledger queue_send ann "dm" "bob" "hi" "hi" draws world refl refl
      refl refl

handle_text_message-Adds_example :
    Adds services ledger queue_send ann [] (("user:acme:bob", "hi") ∷ ("user:acme:ann", "hi") ∷ [])
unfolding handle_text_message
handle_text_message-Adds_example =
    handle_text_message-Adds services ledger queue_send ann "dm" draws world said ran-dm

-- bob, who is not in the group, is told so, and has that reply queued.
abbrev told : World services ledger queue_send
told = record world {
  registry =
      send_msg_to_user queue_send world.registry "acme" "bob"
        (text "You must join the group before sending messages");
}

team-ne-dm : group ≢ dm
team-ne-dm e = ground arith

handle_text_message-IsSilent_example : IsSilent services ledger queue_send bob world told
unfolding handle_text_message is_user_in_group get run apply join_group insert register
handle_text_message-IsSilent_example =
    handle_text_message-IsSilent services ledger queue_send bob "chat" to_team draws world told refl
      refl (inr (team-ne-dm, refl)) refl

abbrev left : World services ledger queue_send
left = record world {
  tables = λ c u. if (100 == c) && ("ann" == u) then false else c == 7 && u == "ann";
  registry = leave_group world.registry "acme" "team" "ann";
  published = ("group:team", "ann has left the group") ∷ [];
}

-- After the chat "hello" from ann to the group.
abbrev sent_to_team : World services ledger queue_send
sent_to_team =
    persisted services ledger queue_send (record world { published = ("group:team", "hello") ∷ [] })
      (group_message services ledger queue_send ann to_team draws)

abbrev read_back : String → Option ServerMessage
read_back s = some (group_message services ledger queue_send ann to_team draws)

handle_text_message-Delivered_example :
    (handle_text_message services ledger queue_send "chat" ann draws world ≡ some sent_to_team)
    × Delivered services ledger queue_send ann "acme" "team" "hello" world.registry
        (receive queue_send services.to_string read_back world.registry "hello")
unfolding is_user_in_group get run apply join_group insert register
handle_text_message-Delivered_example =
    handle_text_message-Delivered services ledger queue_send ann read_back "chat" to_team "hello"
      draws world world.registry refl refl refl team-ne-dm refl refl refl
      (run-empty-IsValid queue_send history)

handle_text_message-members_example :
    (is_user_in_group left.registry "acme" "team" "bob"
      ≡ is_user_in_group world.registry "acme" "team" "bob")
    × (left.registry.inner ≡ world.registry.inner)
unfolding handle_text_message handle_group handle_leave publish_grp
handle_text_message-members_example =
    handle_text_message-members services ledger queue_send ann "leave" leave_team draws world left
      "acme" "team" "bob" (run-empty-IsValid queue_send history) refl refl
