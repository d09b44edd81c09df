-- ===== src/Ipc/Server/Slots/Events.antt =====
-- The steps of `IpcServer` as events.
use sms_relay.Base.{ℕ, ◌≡◌, Bool, true, Option, List, [], ◌∷◌, Bytes, if◌then◌else◌}
use sms_relay.Ipc.Server.Slots.{
  IpcServer, start, fds_of, accept_client, drop_client, cleanup, remove_client, begin_stop,
  end_stop,
}

pub data Event : Type 0 where
  starts : Option ℕ → Bool → Bool → Event
  accepts : ℕ → Bytes → Event
  drops : ℕ → Event
  cleans_up : ℕ → Event
  removes : ℕ → Event
  begins_stop : Event
  ends_stop : Event

abbrev pub step : Event → IpcServer → IpcServer
step (starts fd bound listening) s = (start fd bound listening s).1
step (accepts fd address) s = accept_client fd address s
step (drops i) s = drop_client i s
step (cleans_up i) s = cleanup i s
step (removes i) s = remove_client i s
step begins_stop s = begin_stop s
step ends_stop s = end_stop s

-- The sockets that the operating system gives to the server in a step: a running server opens no
-- second listening socket.
abbrev pub opened : Event → IpcServer → List ℕ
opened (starts fd bound listening) s = if s.running then [] else fds_of fd
opened (accepts fd address) s = fd ∷ []
opened _ s = []

-- Clients are accepted while the server runs.
abbrev pub IsTimely : Event → IpcServer → Type 0
IsTimely (accepts fd address) s = s.running ≡ true
IsTimely _ s = Unit
