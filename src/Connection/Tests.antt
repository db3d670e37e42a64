-- ===== src/Connection/Tests.antt =====
-- The registry's theorems at a small history: two users of one tenant, a group, and a full channel.
use yappa_core.Common.{string_eq, nat_eq, ◌≡◌, refl, String, some, List, [], ◌∷◌}
use yappa_core.Sample.{ann, bob, queue_send}
use yappa_core.Common.Map.{get, insert, is_empty}
use yappa_core.Connection.{
  ConnectionRegistry, empty, register, send_msg_to_user, send_msg_to_group, join_group,
}
use yappa_core.Connection.Spec.{
  Call, registers, joins, sends_to_user, sends_to_group, view, apply, run, expected, channel_of,
}
use yappa_core.Connection.Valid.{IsValid, run-empty-IsValid}
use yappa_core.Connection.Refinement.{view-apply}

abbrev history : List (Call (List String) String)
history =
    registers ann 1 []
    ∷ registers bob 2 []
    ∷ joins "acme" "team" "ann"
    ∷ joins "acme" "team" "bob"
    ∷ sends_to_user "acme" "ann" "one"
    ∷ []

abbrev busy : ConnectionRegistry (List String)
busy = run queue_send empty history

-- A message to the group is queued for both users.
group_message :
    channel_of (apply queue_send busy (sends_to_group "acme" "team" "all")) "acme" "ann" 1
    ≡ some ("one" ∷ "all" ∷ [])
unfolding run apply register send_msg_to_user send_msg_to_group join_group get insert is_empty
group_message = refl

view-apply_example :
    view (apply queue_send busy (sends_to_group "acme" "team" "all"))
    ≡ expected queue_send (view busy) (sends_to_group "acme" "team" "all")
view-apply_example =
    view-apply queue_send busy (sends_to_group "acme" "team" "all")
      (run-empty-IsValid queue_send history)

run-empty-IsValid_example : IsValid busy
run-empty-IsValid_example = run-empty-IsValid queue_send history

abbrev one_user : ConnectionRegistry (List String)
one_user = record { inner = ("acme", ("ann", (1, "a" ∷ "b" ∷ []) ∷ []) ∷ []) ∷ []; groups = [] }

abbrev no_user : ConnectionRegistry (List String)
no_user = record { inner = ("acme", []) ∷ []; groups = [] }
