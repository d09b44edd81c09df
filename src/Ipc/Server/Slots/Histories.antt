-- ===== src/Ipc/Server/Slots/Histories.antt =====
-- `IpcServer` over any sequence of steps of its threads.
use sms_relay.Base.{ℕ, ◌+◌, ◌≤◌, ◌≡◌, refl, ◌∙◌, List, [], ◌∷◌, ◌++◌, All, length, arith}
use sms_relay.Ipc.Server.Slots.{
  max_clients, ClientConnection, IpcServer, create, get_active_connections, fds_of,
}
use sms_relay.Ipc.Server.Slots.Ownership.{count, count-append, held, IsOwned, IsSound}
use sms_relay.Ipc.Server.Slots.Events.{
  Event, starts, accepts, drops, cleans_up, removes, begins_stop, ends_stop, step, opened, IsTimely,
}
use sms_relay.Ipc.Server.Slots.Keeping.{
  Accounts, unchanged, start_sound, drop_client_sound, cleanup_sound, remove_client_sound,
  begin_stop_sound, end_stop_sound,
}
use sms_relay.Ipc.Server.Slots.Accepting.{accept_client_sound}

step_sound :
    (fd : ℕ) (event : Event) (s : IpcServer)
    → IsSound s
    → IsTimely event s
    → Accounts fd (count fd (opened event s)) s (step event s)
step_sound fd (starts given bound listening) s sound timely =
    start_sound fd given bound listening s sound
step_sound fd (accepts given address) s sound timely =
    accept_client_sound fd given address s sound timely
step_sound fd (drops i) s sound timely = drop_client_sound fd i s sound
step_sound fd (cleans_up i) s sound timely = cleanup_sound fd i s sound
step_sound fd (removes i) s sound timely = remove_client_sound fd i s sound
step_sound fd begins_stop s sound timely = begin_stop_sound fd s sound
step_sound fd ends_stop s sound timely = end_stop_sound fd s sound

abbrev pub run : List Event → IpcServer → IpcServer
run [] s = s
run (event ∷ events) s = run events (step event s)

abbrev pub opened_in : List Event → IpcServer → List ℕ
opened_in [] s = []
opened_in (event ∷ events) s = opened event s ++ opened_in events (step event s)

abbrev pub AreTimely : List Event → IpcServer → Type 0
AreTimely [] s = Unit
AreTimely (event ∷ events) s = IsTimely event s × AreTimely events (step event s)

pub run_sound :
    (fd : ℕ) (events : List Event) (s : IpcServer)
    → IsSound s
    → AreTimely events s
    → Accounts fd (count fd (opened_in events s)) s (run events s)
run_sound fd [] s sound timely = unchanged fd s sound
run_sound fd (event ∷ events) s sound (first, others) =
    let (next, sum) = step_sound fd event s sound first in
    let (last, total_sum) = run_sound fd events (step event s) next others in
    (
      last,
      omega (
        arith,
        sum,
        total_sum,
        count-append fd (opened event s) (opened_in events (step event s)),
      ),
    )

pub create-IsSound : (port : ℕ) → IsSound (create port)
unfolding create
create-IsSound port = record { owned = (refl, (refl, tt)); idle = λ _. refl; slots = refl }

active-length : (clients : List ClientConnection) → get_active_connections clients ≤ length clients
unfolding get_active_connections
active-length [] = omega arith
active-length (c ∷ clients) = ground (arith, active-length clients)

-- From the start of the server on, through any starts, clients, cleanups, removals and stops, if
-- clients are accepted only while the server runs: each socket that the server was given is closed
-- or held, by the listening server or a slot, as often as it was given, so none is lost and none is
-- closed twice; a slot with no live thread holds none; and no more than `max_clients` are active.
pub run-accounts :
    (fd port : ℕ) (events : List Event)
    → AreTimely events (create port)
    → let s = run events (create port) in
      (count fd s.closed + (count fd (fds_of s.server_fd) + count fd (held s.clients))
        ≡ count fd (opened_in events (create port)))
      × All IsOwned s.clients
      × (get_active_connections s.clients ≤ max_clients)
unfolding create
run-accounts fd port events timely =
    let s = run events (create port) in
    let (sound, sum) = run_sound fd events (create port) (create-IsSound port) timely in
    (sum ∙ omega arith, sound.owned, omega (arith, active-length s.clients, sound.slots))
