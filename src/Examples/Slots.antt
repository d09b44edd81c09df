-- ===== src/Examples/Slots.antt =====
-- A server with three clients, of which one is one too many.
use sms_relay.Base.{◌+◌, ◌≤◌, ◌≡◌, refl, true, false, none, some, List, [], ◌∷◌, All, suc, arith}
use sms_relay.Base.Text.{codes}
use sms_relay.Ipc.Server.Slots.{
  alive, ClientConnection, IpcServer, max_clients, fds_of, get_active_connections,
  find_available_client_slot, create, start, open_server, accept_client, release_thread, close_slot,
  drop_client, cleanup, remove_client, begin_stop, end_stop,
}
use sms_relay.Ipc.Server.Slots.Ownership.{count, held, IsOwned, total}
use sms_relay.Ipc.Server.Slots.Events.{Event, starts, accepts, drops, cleans_up, removes}
use sms_relay.Ipc.Server.Slots.Histories.{run, opened_in, AreTimely, run-accounts}
use sms_relay.Ipc.Server.Slots.Shutdown.{stop-closed, accept_client-loses}

abbrev events : List Event
events =
    starts (some 3) true true
    ∷ accepts 8 (codes "::1")
    ∷ accepts 9 (codes "::1")
    ∷ accepts 10 (codes "::1")
    ∷ drops 0
    ∷ accepts 11 (codes "::1")
    ∷ removes 1
    ∷ cleans_up 1
    ∷ []

events-AreTimely : AreTimely events (create 7896)
unfolding create start open_server accept_client find_available_client_slot release_thread
    close_slot drop_client cleanup remove_client
events-AreTimely = (tt, (refl, (refl, (refl, (tt, (refl, (tt, (tt, tt))))))))

run-accounts_example :
    let s = run events (create 7896) in
    (count 8 s.closed + (count 8 (fds_of s.server_fd) + count 8 (held s.clients))
      ≡ count 8 (opened_in events (create 7896)))
    × All IsOwned s.clients
    × (get_active_connections s.clients ≤ max_clients)
run-accounts_example = run-accounts 8 7896 events events-AreTimely

stop-closed_example :
    count 11 (end_stop (begin_stop (run events (create 7896)))).closed
    ≡ count 11 (opened_in events (create 7896))
stop-closed_example = stop-closed 11 7896 events events-AreTimely

-- A server that is shutting down while the thread of its first slot has not yet cleaned up.
abbrev leaving : ClientConnection
leaving = record {
  socket_fd = some 8;
  address = codes "::1";
  handler_thread = alive;
  active = false;
}

abbrev stopping : IpcServer
stopping = record {
  port = 7896;
  running = false;
  server_fd = none;
  server_thread = true;
  clients = leaving ∷ leaving ∷ [];
  detached = [];
  closed = [];
}

first_free : find_available_client_slot stopping.clients ≡ some 0
unfolding find_available_client_slot
first_free = refl

accept_client-loses_example :
    suc (total 8 (accept_client 12 (codes "::1") stopping)) ≡ total 8 stopping
accept_client-loses_example =
    accept_client-loses 8 12 0 (codes "::1") stopping leaving refl first_free refl refl refl
      (λ e. absurd (omega (arith, e)))
