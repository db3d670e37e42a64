-- ===== src/Redis/Tests.antt =====
-- The listener's theorems at one node with two users.
use yappa_core.Common.{
  ne_of_==, string_eq, nat_eq, ◌≡◌, ◌≢◌, refl, String, Option, some, List, [], ◌∷◌, unwrap_or, ap,
  ◌∙◌,
}
use yappa_core.Sample.{ann, bob, queue_send, message_from}
use yappa_core.Protocol.{dm, group, ServerMessage, Message, text}
use yappa_core.Connection.{ConnectionRegistry, empty}
use yappa_core.Connection.Deliver.{kept_after}
use yappa_core.Connection.Spec.{Call, registers, joins, view, run, channel_of}
use yappa_core.Connection.Valid.{run-empty-IsValid}
use yappa_core.Redis.{route, listener}
use yappa_core.Redis.Routing.{expected_route, view-route}
use yappa_core.Redis.Stream.{listener-dm-echo}

abbrev history : List (Call (List Message) Message)
history =
    registers ann 1 []
    ∷ registers bob 2 []
    ∷ joins "acme" "team" "ann"
    ∷ joins "acme" "team" "bob"
    ∷ []

abbrev node : ConnectionRegistry (List Message)
node = run queue_send empty history

abbrev to_team : ServerMessage
to_team = message_from ann group "team" "hello"

abbrev to_bob : ServerMessage
to_bob = message_from ann dm "bob" "hi"

abbrev to_string : ServerMessage → Option String
to_string m = some ((m.payload).text)

abbrev from_str : String → Option ServerMessage
from_str s = some to_bob

view-route_example :
    view (route queue_send to_string from_str node to_team)
    ≡ expected_route queue_send to_string (view node) to_team
view-route_example =
    view-route queue_send to_string from_str node to_team (run-empty-IsValid queue_send history)

to_bob-foreign : (m : ServerMessage) → some to_bob ≡ some m → m.tenant_id ≢ "other"
to_bob-foreign m e p = ne_of_== "acme" "other" refl (ap (λ o. (unwrap_or o to_bob).tenant_id) e ∙ p)

listener-dm-echo_example :
    let r = (listener queue_send to_string from_str node (some "hi" ∷ some "hi" ∷ [])).0 in
    (channel_of r "acme" "bob" 2
      ≡ kept_after queue_send
          (text "hi")
          (kept_after queue_send (text "hi") (channel_of node "acme" "bob" 2)))
    × (channel_of r "acme" "ann" 2 ≡ channel_of node "acme" "ann" 2)
listener-dm-echo_example =
    listener-dm-echo queue_send to_string from_str node "hi" to_bob 2
      (run-empty-IsValid queue_send history) refl refl refl (ne_of_== "bob" "ann" refl)
