-- ===== src/Cli/Shell/Sessions.antt =====
-- A session of `InteractiveShell` from its start to its end.
use sms_relay.Base.{
  ◌≡◌, refl, ap, ◌∙◌, Bool, true, false, Option, none, some, List, Bytes, choose, if◌then◌else◌,
}
use sms_relay.Ipc.Socket.{Socket}
use sms_relay.Ipc.Client
use sms_relay.Ipc.Client.{Network, IpcClient, connect_to}
use sms_relay.Cli.Shell.{
  InteractiveShell, connected_client, closed, connect_to_server, run_loop, leave, run_session, run,
}
use sms_relay.Cli.Responses.{Outcome}

module _ {A S : Type 0} (network : Network A S) where
  connect_to-result :
      (found : Option (List A)) (c : IpcClient S)
      → c.connected ≡ false
      → (connect_to network found c).1.connected ≡ (connect_to network found c).0
  unfolding connect_to
  connect_to-result none c e = e
  connect_to-result (some result) c e = refl

  -- `connect` says whether the client is connected.
  pub connect-result :
      (c : IpcClient S) → (Client.connect network c).1.connected ≡ (Client.connect network c).0
  unfolding Client.connect
  connect-result c =
      choose (λ (r : Bool × IpcClient S). r.1.connected ≡ r.0) c.connected (true, c)
        (connect_to network (network.getaddrinfo c.host (Client.int_text c.port)) c) (λ e. e)
        (λ e. connect_to-result (network.getaddrinfo c.host (Client.int_text c.port)) c e)

disconnect-connected : {S : Type 0} (c : IpcClient S) → (Client.disconnect c).connected ≡ false
unfolding Client.disconnect
disconnect-connected {S} c =
    choose (λ (c' : IpcClient S). c'.connected ≡ false) c.connected _ c (λ _. refl) (λ e. e)

-- A shell whose client, if any, is not connected.
abbrev IsClosed : {S : Type 0} → Option (IpcClient S) → Type 0
IsClosed none = Unit
IsClosed (some c) = c.connected ≡ false

closed-IsClosed : {S : Type 0} (shell : InteractiveShell S) → IsClosed (closed shell).client
unfolding closed connected_client
closed-IsClosed {S} shell = by_client shell.client
  where
    with_client : Option (IpcClient S) → InteractiveShell S
    with_client client = record shell { client = client }

    disconnected : Option (IpcClient S) → Option (IpcClient S) → InteractiveShell S
    disconnected client none = with_client client
    disconnected client (some c) = record shell { client = some (Client.disconnect c) }

    by_client : (client : Option (IpcClient S)) → IsClosed (closed (with_client client)).client
    by_client none = tt
    by_client (some c) =
        choose (λ (o : Option (IpcClient S)). IsClosed (disconnected (some c) o).client) c.connected
          (some c) none (λ _. disconnect-connected c) (λ e. e)

IsClosed-unconnected :
    {S : Type 0} (shell : InteractiveShell S)
    → IsClosed shell.client
    → connected_client shell ≡ none
unfolding connected_client
IsClosed-unconnected {S} shell h = by_client shell.client h
  where
    by_client :
        (client : Option (IpcClient S))
        → IsClosed client
        → connected_client (record shell { client = client }) ≡ none
    by_client none h = refl
    by_client (some c) h = ap (λ b. if b then some c else none) h

module _ {A S : Type 0} (network : Network A S) (socket : Socket S) (help welcome : Bytes) where
  run_session-IsClosed :
      (inputs : List (Bool × Option Bytes)) (connected : Bool) (outcome : Outcome)
      (shell : InteractiveShell S)
      → (connected ≡ false → IsClosed shell.client)
      → IsClosed
          (run_session network socket help welcome inputs ((connected, outcome), shell)).1.client
  unfolding run_session leave
  run_session-IsClosed inputs false outcome shell h = h refl
  run_session-IsClosed inputs true outcome shell h =
      closed-IsClosed (run_loop network socket help welcome inputs shell).1

  -- Whatever a session reads, however its commands end, and also if it never reached the service: at
  -- its end there is no connected client.
  pub run-disconnected :
      (inputs : List (Bool × Option Bytes)) (shell : InteractiveShell S)
      → connected_client (run network socket help welcome inputs shell).1 ≡ none
  unfolding run connect_to_server
  run-disconnected inputs shell =
      IsClosed-unconnected (run network socket help welcome inputs shell).1 (
        run_session-IsClosed inputs _ _ (connect_to_server network socket help welcome shell).1
          (λ e. connect-result network (Client.create shell.host shell.port) ∙ e))
