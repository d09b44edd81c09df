-- ===== src/Cli/Shell.antt =====
-- `InteractiveShell` of src/sms_relay_cli/interactive_shell.cpp. Its handlers repeat those of
-- main.cpp behind a test of the connection. What the line editor and the client log themselves is
-- left out of the output.
pub mod Sessions
use sms_relay.Base.{
  ℕ, zero, suc, ◌+◌, length, replicate, Bool, true, false, not, ◌&&◌, Option, none, some, List, [],
  ◌∷◌, ◌++◌, Bytes, ◌==◌, if◌then◌else◌,
}
use sms_relay.Base.Text.{codes, to_string, bytes_eq, starts_with}
use sms_relay.Config.Types.{ℤ}
use sms_relay.Ipc.Socket.{Socket}
use sms_relay.Ipc.Client
use sms_relay.Ipc.Client.{Network, IpcClient}
use sms_relay.Cli.Arguments.{parse_server_string, parse_command_line, split_last}
use sms_relay.Cli.Print.{line}
use sms_relay.Cli.Responses.{Outcome, printed, failure}
use sms_relay.Cli.Commands.{
  execute_list, execute_read, execute_delete, execute_send, execute_status,
}
use sms_relay.Cli.App.{unreachable}

pub record InteractiveShell (S : Type 0) : Type 0 where
  pub server : Bytes
  pub host : Bytes
  pub port : ℤ
  pub client : Option (IpcClient S)
  pub running : Bool

-- The constructor does not initialise `port_`: `unset` is what it happens to hold.
unfoldable pub create : {S : Type 0} → ℤ → Bytes → InteractiveShell S
unfolding parse_server_string
create unset server =
    let (host, port) = parse_server_string unset server in
    record { server = server; host = host; port = port; client = none; running = true }

abbrev pub appended : Outcome → Outcome → Outcome
appended first next = record {
  exit_code = next.exit_code;
  out = first.out ++ next.out;
  errors = first.errors ++ next.errors;
}

-- The client, if it is there and connected.
unfoldable pub connected_client : {S : Type 0} → InteractiveShell S → Option (IpcClient S)
connected_client shell = elim shell.client [
  | none ↦ none
  | some c ↦ if c.connected then some c else none
]

-- `client_->disconnect()` where it is connected.
unfoldable pub closed : {S : Type 0} → InteractiveShell S → InteractiveShell S
unfolding connected_client Client.disconnect
closed shell = elim (connected_client shell) [
  | none ↦ shell
  | some c ↦ record shell { client = some (Client.disconnect c) }
]

abbrev pub if_connected : {S : Type 0} → Bytes → InteractiveShell S → Bytes
if_connected text shell = elim (connected_client shell) [ none ↦ [] | some c ↦ text ]

-- `help` and `welcome` are what `print_help` and `print_welcome` write.
module _ {A S : Type 0} (network : Network A S) (socket : Socket S) (help welcome : Bytes) where
  unfoldable pub connect_to_server : InteractiveShell S → (Bool × Outcome) × InteractiveShell S
  unfolding Client.create Client.connect
  connect_to_server shell =
      let (connected, c) = Client.connect network (Client.create shell.host shell.port) in
      (
        (connected, if connected then printed [] else failure (unreachable shell.server)),
        record shell { client = some c },
      )

  unfoldable pub on_client :
      (IpcClient S → Outcome × IpcClient S) → InteractiveShell S → Outcome × InteractiveShell S
  unfolding connected_client
  on_client handler shell = elim (connected_client shell) [
    | none ↦ (failure (line (codes "Error: Not connected to server")), shell)
    | some c ↦ let (outcome, c') = handler c in (outcome, record shell { client = some c' })
  ]

  unfoldable pub handle_exit : InteractiveShell S → Outcome × InteractiveShell S
  unfolding closed
  handle_exit shell = (
    printed (
        line (codes "Exiting...")
        ++ (if_connected (line (codes "Closing connection...")) shell ++ line (codes "Goodbye!"))),
    record (closed shell) { running = false },
  )

  unfoldable pub handle_list : List Bytes → InteractiveShell S → Outcome × InteractiveShell S
  unfolding on_client execute_list
  handle_list args shell = on_client (execute_list socket args) shell

  unfoldable pub handle_read : List Bytes → InteractiveShell S → Outcome × InteractiveShell S
  unfolding on_client execute_read
  handle_read args shell = on_client (execute_read socket args) shell

  unfoldable pub handle_delete : List Bytes → InteractiveShell S → Outcome × InteractiveShell S
  unfolding on_client execute_delete
  handle_delete args shell = on_client (execute_delete socket args) shell

  unfoldable pub handle_send : List Bytes → InteractiveShell S → Outcome × InteractiveShell S
  unfolding on_client execute_send
  handle_send args shell = on_client (execute_send socket args) shell

  unfoldable pub handle_status : InteractiveShell S → Outcome × InteractiveShell S
  unfolding on_client execute_status
  handle_status shell = on_client (execute_status socket) shell

  unfoldable pub handle_reconnect : InteractiveShell S → Outcome × InteractiveShell S
  unfolding closed connect_to_server
  handle_reconnect shell =
      let ((connected, outcome), shell') = connect_to_server (closed shell) in
      let start : Outcome =
        printed (line (codes "Reconnecting to " ++ (shell.server ++ codes "..."))) in
      (
        appended start (
            appended outcome (
              if connected
              then printed (line (codes "Reconnected successfully"))
              else failure (line (codes "Reconnection failed")))),
        shell',
      )

  -- `get_command_handler`.
  unfoldable pub command_handler :
      Bytes → Option (List Bytes → InteractiveShell S → Outcome × InteractiveShell S)
  unfolding bytes_eq handle_exit handle_list handle_read handle_delete handle_send handle_status
      handle_reconnect
  command_handler command =
      if bytes_eq command (codes "exit")
      then some (λ args shell. handle_exit shell)
      else if bytes_eq command (codes "help")
      then some (λ args shell. (printed help, shell))
      else if bytes_eq command (codes "list")
      then some handle_list
      else if bytes_eq command (codes "read")
      then some handle_read
      else if bytes_eq command (codes "delete")
      then some handle_delete
      else if bytes_eq command (codes "send")
      then some handle_send
      else if bytes_eq command (codes "status")
      then some (λ args shell. handle_status shell)
      else if bytes_eq command (codes "reconnect")
      then some (λ args shell. handle_reconnect shell)
      else none

  -- `execute_command` of one line.
  unfoldable pub execute_command : Bytes → InteractiveShell S → Outcome × InteractiveShell S
  unfolding parse_command_line command_handler
  execute_command command_line shell =
      let (command, args) = parse_command_line command_line in
      elim command [
        | [] ↦ (printed [], shell)
        | c ∷ cs ↦ elim (command_handler (c ∷ cs)) [
          | none ↦ (failure (line (codes "Unknown command: " ++ c ∷ cs)), shell)
          | some handler ↦ handler args shell
        ]
      ]

  abbrev exit_report : ℕ → Bytes → Bytes
  exit_report exit_code command =
      if not (exit_code == 0) && not (bytes_eq command (codes "exit"))
      then line (codes "Command failed with exit code " ++ to_string exit_code)
      else []

  -- What the loop of `run` does with a line that is not empty.
  unfoldable pub respond : Bytes → InteractiveShell S → Outcome × InteractiveShell S
  unfolding parse_command_line command_handler bytes_eq
  respond input shell =
      let (command, args) = parse_command_line input in
      elim command [
        | [] ↦ (printed [], shell)
        | c ∷ cs ↦ elim (command_handler (c ∷ cs)) [
          | none ↦ (
            failure (
                line (codes "Unknown command: " ++ c ∷ cs)
                ++ line (codes "Type 'help' for available commands")),
            shell,
          )
          | some handler ↦
              let (outcome, shell') = handler args shell in
              (appended outcome (printed (exit_report outcome.exit_code (c ∷ cs))), shell')
        ]
      ]

  -- The loop of `run` over what it reads: whether an interrupt was requested, and the line, which is
  -- `none` at the end of the input.
  unfoldable pub run_loop :
      List (Bool × Option Bytes) → InteractiveShell S → Outcome × InteractiveShell S
  unfolding respond
  run_loop [] shell = (printed [], shell)
  run_loop ((interrupted, input) ∷ inputs) shell = elim shell.running [
    | false ↦ (printed [], shell)
    | true ↦ elim interrupted [
      | true ↦ (printed (10 ∷ line (codes "Interrupt detected. Exiting gracefully...")), shell)
      | false ↦ elim input [
        | none ↦ (printed (10 ∷ []), shell)
        | some [] ↦ run_loop inputs shell
        | some (c ∷ cs) ↦
            let (outcome, shell') = respond (c ∷ cs) shell in
            let (rest, shell'') = run_loop inputs shell' in (appended outcome rest, shell'')
      ]
    ]
  ]

  unfoldable pub leave : InteractiveShell S → Outcome × InteractiveShell S
  unfolding closed
  leave shell = (
    printed (
        if_connected (line (codes "Disconnecting from server...")) shell
        ++ line (codes "Interactive shell exited.")),
    closed shell,
  )

  unfoldable pub run_session :
      List (Bool × Option Bytes)
      → (Bool × Outcome) × InteractiveShell S
      → Outcome × InteractiveShell S
  unfolding run_loop leave
  run_session inputs ((false, outcome), shell) = (outcome, shell)
  run_session inputs ((true, outcome), shell) =
      let (shown, shell') = run_loop inputs shell in
      let (last, shell'') = leave shell' in
      (appended outcome (appended (printed welcome) (appended shown last)), shell'')

  unfoldable pub run :
      List (Bool × Option Bytes) → InteractiveShell S → Outcome × InteractiveShell S
  unfolding connect_to_server run_session
  run inputs shell = run_session inputs (connect_to_server shell)
