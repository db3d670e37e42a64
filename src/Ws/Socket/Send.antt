-- ===== src/Ws/Socket/Send.antt =====
-- The send task of a connection: it writes what waits in the channel, until a write fails or times out.
use yappa_core.Common.{◌≡◌, refl, ap, Bool, true, false, List, [], ◌∷◌, ◌++◌, Every}
use yappa_core.Protocol.{Message}

-- How a write to the socket ends.
pub data Write : Type 0 where
  sent : Write
  send_error : Write
  timed_out : Write

-- What was written, and whether the task gave up. It waits where the channel is empty, or a write has not
-- ended yet.
unfoldable pub send_task : List Message → List Write → List Message × Bool
send_task [] writes = ([], false)
send_task (msg ∷ queue) [] = ([], false)
send_task (msg ∷ queue) (sent ∷ writes) =
    let (written, ended) = send_task queue writes in (msg ∷ written, ended)
send_task (msg ∷ queue) (send_error ∷ writes) = ([], true)
send_task (msg ∷ queue) (timed_out ∷ writes) = ([], true)

-- The frames are written in the order of the channel, none twice and none left out.
pub send_task-prefix :
    (queue : List Message) (writes : List Write)
    → (rest : List Message) × (queue ≡ (send_task queue writes).0 ++ rest)
unfolding send_task
send_task-prefix [] writes = ([], refl)
send_task-prefix (msg ∷ queue) [] = (msg ∷ queue, refl)
send_task-prefix (msg ∷ queue) (sent ∷ writes) =
    let (rest, e) = send_task-prefix queue writes in (rest, ap (λ q. msg ∷ q) e)
send_task-prefix (msg ∷ queue) (send_error ∷ writes) = (msg ∷ queue, refl)
send_task-prefix (msg ∷ queue) (timed_out ∷ writes) = (msg ∷ queue, refl)

pub Every-send_task :
    (P : Message → Type 0) (queue : List Message) (writes : List Write)
    → Every P queue
    → Every P (send_task queue writes).0
unfolding send_task
Every-send_task P [] writes h = tt
Every-send_task P (msg ∷ queue) [] h = tt
Every-send_task P (msg ∷ queue) (sent ∷ writes) h = (h.0, Every-send_task P queue writes h.1)
Every-send_task P (msg ∷ queue) (send_error ∷ writes) h = tt
Every-send_task P (msg ∷ queue) (timed_out ∷ writes) h = tt
