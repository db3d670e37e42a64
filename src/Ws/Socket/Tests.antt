-- ===== src/Ws/Socket/Tests.antt =====
-- A connection of bob: a chat and a close, and a silence.
use yappa_core.Common.{string_eq, nat_eq, arith, ◌≡◌, ◌==◌, ◌&&◌, true, false, some, List, [], ◌∷◌}
use yappa_core.Sample.{ann, bob, queue_send, ledger, services, draws}
use yappa_core.Protocol.{Message, text, close}
use yappa_core.Connection.{empty}
use yappa_core.Connection.Spec.{Call, registers, joins, run}
use yappa_core.Connection.Valid.{run-empty-IsValid}
use yappa_core.Limits.{release}
use yappa_core.Limits.Sample.{server, nothing}
use yappa_core.Ws.{World}
use yappa_core.Ws.Socket.{SocketEvent, frame, tick, handle_socket}
use yappa_core.Ws.Socket.Life.{Lived, handle_socket-Lived}
use yappa_core.Ws.Socket.Silence.{handle_socket-silent}

abbrev history : List (Call (List Message) Message)
history = registers ann 1 [] ∷ joins "acme" "team" "ann" ∷ []

abbrev world : World services ledger queue_send
world = record {
  registry = run queue_send empty history;
  tables = λ c u. c == 7 && u == "ann";
  messages = [];
  kafka = false;
  published = [];
  produced = [];
}

abbrev events : List SocketEvent
events = frame 5 draws (text "chat") ∷ tick 15 ∷ frame 16 draws close ∷ []

handle_socket-Lived_example :
    Lived services ledger queue_send bob server true 2 world nothing
      (handle_socket services ledger queue_send bob server true 2 [] 0 events world nothing)
handle_socket-Lived_example =
    handle_socket-Lived services ledger queue_send bob server true 2 [] 0 events world nothing
      (run-empty-IsValid queue_send history)

handle_socket-silent_example :
    (w : World services ledger queue_send) × (handle_socket services ledger queue_send bob server
        true 2 [] 0
        (tick 15000000000 ∷ tick 30000000001 ∷ [])
        world
        nothing
      ≡ some (true, w, release server true bob nothing))
handle_socket-silent_example =
    handle_socket-silent services ledger queue_send bob server true 2 [] 0 (15000000000 ∷ [])
      30000000001 world nothing (omega arith)
