-- ===== src/Ipc/Server/Slots.antt =====
-- The connections of `IpcServer` (src/sms_relay/ipc/ipc_server.cpp and ipc_server.h) as steps of its
-- threads: a round of the accept loop, the cleanup of a client thread, and the two halves of `stop`
-- are one step each. `closed` logs `close`.
pub mod Ownership
pub mod Events
pub mod Keeping
pub mod Accepting
pub mod Histories
pub mod Shutdown
use sms_relay.Base.{
  ℕ, zero, suc, Bool, true, false, not, ◌&&◌, Option, none, some, List, [], ◌∷◌, ◌++◌, Bytes,
  get_elem?, replicate, ltb, if◌then◌else◌,
}
use mathlib.Core.Option

-- `std::thread`: an `absent` one is not joinable, an `ended` one is.
pub data Handler : Type 0 where
  absent alive ended : Handler

pub record ClientConnection : Type 0 where
  pub socket_fd : Option ℕ
  pub address : Bytes
  pub handler_thread : Handler
  pub active : Bool

pub record IpcServer : Type 0 where
  pub port : ℕ
  pub running : Bool
  pub server_fd : Option ℕ
  pub server_thread : Bool
  pub clients : List ClientConnection
  -- Slots whose thread was detached before it ended.
  pub detached : List ℕ
  pub closed : List ℕ

abbrev pub max_clients : ℕ
max_clients = 2

abbrev pub blank_client : ClientConnection
blank_client = record { socket_fd = none; address = []; handler_thread = absent; active = false }

unfoldable pub create : ℕ → IpcServer
create port = record {
  port = port;
  running = false;
  server_fd = none;
  server_thread = false;
  clients = replicate max_clients blank_client;
  detached = [];
  closed = [];
}

abbrev pub fds_of : Option ℕ → List ℕ
fds_of none = []
fds_of (some fd) = fd ∷ []

-- With a socket that cannot be used.
unfoldable pub give_up : ℕ → IpcServer → Bool × IpcServer
give_up fd s = (false, record s { server_fd = none; closed = s.closed ++ fd ∷ [] })

-- `socket` with its descriptor, and whether `bind` and `listen` succeed.
unfoldable pub open_server : Option ℕ → Bool → IpcServer → Bool × IpcServer
unfolding give_up
open_server none usable s = (false, record s { server_fd = none })
open_server (some fd) usable s =
    if usable
    then (true, record s { running = true; server_fd = some fd; server_thread = true })
    else give_up fd s

unfoldable pub start : Option ℕ → Bool → Bool → IpcServer → Bool × IpcServer
unfolding open_server
start fd bound listening s = if s.running then (false, s) else open_server fd (bound && listening) s

unfoldable pub get_active_connections : List ClientConnection → ℕ
get_active_connections [] = 0
get_active_connections (client ∷ clients) =
    if client.active then suc (get_active_connections clients) else get_active_connections clients

unfoldable pub find_available_client_slot : List ClientConnection → Option ℕ
find_available_client_slot [] = none
find_available_client_slot (client ∷ clients) =
    if client.active then Option.map suc (find_available_client_slot clients) else some 0

abbrev pub modify :
    (ClientConnection → ClientConnection) → ℕ → List ClientConnection → List ClientConnection
modify f i [] = []
modify f zero (client ∷ clients) = f client ∷ clients
modify f (suc i) (client ∷ clients) = client ∷ modify f i clients

-- What becomes of a slot whose socket is closed.
abbrev pub shut : ClientConnection → ClientConnection
shut client = record client { socket_fd = none; active = false }

-- The slot of a thread that has ended, and of one that was joined.
abbrev pub left : ClientConnection → ClientConnection
left client = record (shut client) { handler_thread = ended }

abbrev pub joined : ClientConnection → ClientConnection
joined client = record (shut client) { handler_thread = absent }

abbrev pub taken : ℕ → Bytes → ClientConnection → ClientConnection
taken fd address client = record {
  socket_fd = some fd;
  address = address;
  handler_thread = alive;
  active = true;
}

abbrev pub is_alive : Handler → Bool
is_alive alive = true
is_alive _ = false

abbrev pub is_joinable : Handler → Bool
is_joinable absent = false
is_joinable _ = true

-- The descriptor of a slot is closed, and the slot changes.
unfoldable pub close_slot : (ClientConnection → ClientConnection) → ℕ → IpcServer → IpcServer
close_slot f i s = elim (get_elem? s.clients i) [
  | none ↦ s
  | some client ↦ record s {
    clients = modify f i s.clients;
    closed = s.closed ++ fds_of client.socket_fd;
  }
]

-- Before a slot is used again its old thread is joined, which lets it come to its end, or detached
-- if the server is shutting down.
unfoldable pub release_thread : ℕ → ClientConnection → IpcServer → IpcServer
unfolding close_slot
release_thread i client s =
    if is_joinable client.handler_thread && s.running
    then (if is_alive client.handler_thread
        then close_slot joined i s
        else record s { clients = modify (λ c. record c { handler_thread = absent }) i s.clients })
    else if is_joinable client.handler_thread
    then record s { detached = s.detached ++ i ∷ [] }
    else s

-- The `accept_loop` with a client that `accept` returned.
unfoldable pub accept_client : ℕ → Bytes → IpcServer → IpcServer
unfolding find_available_client_slot release_thread
accept_client fd address s = elim (find_available_client_slot s.clients) [
  | none ↦ record s { closed = s.closed ++ fd ∷ [] }
  | some i ↦ elim (get_elem? s.clients i) [
    | none ↦ s
    | some client ↦
        let s' = release_thread i client s in
        record s' { clients = modify (taken fd address) i s'.clients }
  ]
]

-- A thread that gives its client up, before its cleanup.
unfoldable pub drop_client : ℕ → IpcServer → IpcServer
drop_client i s = record s { clients = modify (λ c. record c { active = false }) i s.clients }

-- The cleanup at the end of `handle_client_thread`, by the thread of a slot.
unfoldable pub cleanup : ℕ → IpcServer → IpcServer
unfolding close_slot
cleanup i s = elim (get_elem? s.clients i) [
  | none ↦ s
  | some client ↦ if is_alive client.handler_thread then close_slot left i s else s
]

unfoldable pub remove_client : ℕ → IpcServer → IpcServer
unfolding close_slot
remove_client i s = elim (get_elem? s.clients i) [
  | none ↦ s
  | some client ↦ if not client.active then s else close_slot shut i s
]

-- `stop` closes the sockets of the active clients.
unfoldable pub shut_active : List ClientConnection → List ℕ × List ClientConnection
shut_active [] = ([], [])
shut_active (client ∷ clients) =
    let (fds, others) = shut_active clients in
    if client.active
    then (fds_of client.socket_fd ++ fds, shut client ∷ others)
    else (fds, client ∷ others)

-- `stop` up to the joins: no more clients, and no more sockets.
unfoldable pub begin_stop : IpcServer → IpcServer
unfolding shut_active
begin_stop s =
    if not s.running
    then s
    else (let (fds, clients) = shut_active s.clients in
        record s {
          running = false;
          server_fd = none;
          clients = clients;
          closed = s.closed ++ (fds_of s.server_fd ++ fds);
        })

-- The threads of the clients come to their end and are joined.
unfoldable pub join_threads : List ClientConnection → List ℕ × List ClientConnection
join_threads [] = ([], [])
join_threads (client ∷ clients) =
    let (fds, others) = join_threads clients in
    if is_alive client.handler_thread
    then (fds_of client.socket_fd ++ fds, joined client ∷ others)
    else (fds, record client { handler_thread = absent } ∷ others)

-- The rest of `stop`.
unfoldable pub end_stop : IpcServer → IpcServer
unfolding join_threads
end_stop s =
    let (fds, clients) = join_threads s.clients in
    record s { server_thread = false; clients = clients; closed = s.closed ++ fds }
