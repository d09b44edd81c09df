-- ===== src/Cli/App.antt =====
-- `CliApp` and `main` of src/sms_relay_cli/main.cpp.
use sms_relay.Base.{
  Bool, true, false, Option, none, some, List, [], ◌∷◌, ◌++◌, Bytes, if◌then◌else◌,
}
use sms_relay.Base.Text.{codes}
use sms_relay.Ipc.Socket.{Socket}
use sms_relay.Ipc.Client
use sms_relay.Ipc.Client.{Network, IpcClient}
use sms_relay.Cli.Arguments.{CommandLineArgs, default_server, parse_arguments, find_mode}
use sms_relay.Cli.Print.{line}
use sms_relay.Cli.Responses.{Outcome, failure}
use sms_relay.Cli.Commands.{execute_command}

abbrev pub unreachable : Bytes → Bytes
unreachable server =
    line (codes "Error: Failed to connect to sms_relay service at " ++ server)
    ++ line (codes "Make sure sms_relay is running")

module _ {A S : Type 0} (network : Network A S) (socket : Socket S) where
  unfoldable pub run_connected :
      Bytes → CommandLineArgs → Bool × IpcClient S → Outcome × IpcClient S
  unfolding execute_command Client.disconnect
  run_connected usage args (false, client) = (failure (unreachable args.server), client)
  run_connected usage args (true, client) =
      let (outcome, client') = execute_command socket usage args.command args.command_args client in
      (outcome, Client.disconnect client')

  -- `argv` are the arguments behind the program's name. The client is absent where none is made.
  unfoldable pub run : Bytes → List Bytes → Outcome × Option (IpcClient S)
  unfolding run_connected parse_arguments Client.create Client.connect
  run usage [] = (record { exit_code = 1; out = usage; errors = [] }, none)
  run usage (arg ∷ argv) =
      let args = parse_arguments (arg ∷ argv) in
      let (outcome, client) =
        run_connected usage args (Client.connect network (Client.create args.host args.port)) in
      (outcome, some client)

  -- With no command the shell runs on the server that was given.
  unfoldable pub main : (Bytes → Outcome) → Bytes → List Bytes → Outcome
  unfolding run find_mode
  main shell usage argv =
      let (interactive_mode, server) = find_mode default_server argv in
      if interactive_mode
      then (let shown = shell server in
          record shown { out = line (codes "Starting interactive mode...") ++ shown.out })
      else (run usage argv).0
