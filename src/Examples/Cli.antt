-- ===== src/Examples/Cli.antt =====
-- What a user types.
use sms_relay.Base.{
  ℕ, ◌≡◌, refl, Bool, true, false, Option, none, some, List, [], ◌∷◌, Bytes, arith,
}
use sms_relay.Base.Text.{codes}
use sms_relay.Config.Types.{ℤ, pos}
use sms_relay.Ipc.Client.{Network}
use sms_relay.Cli.Arguments.{
  parse_indices, getlines, parse_tokens, parse_server_string, parse_arguments, find_mode,
}
use sms_relay.Cli.Arguments.Indices.{comma_list, parse_indices-comma_list}
use sms_relay.Cli.Editor.{completions}
use sms_relay.Cli.Shell.{InteractiveShell, connected_client, run}
use sms_relay.Cli.Shell
use sms_relay.Cli.Shell.Sessions.{run-disconnected}
use sms_relay.Examples.Server.{Pipe, pipe}

parse_indices-comma_list_example :
    parse_indices (comma_list (3 ∷ 255 ∷ 0 ∷ [])) ≡ (3 ∷ 255 ∷ 0 ∷ [], [])
parse_indices-comma_list_example =
    parse_indices-comma_list (3 ∷ 255 ∷ 0 ∷ []) (omega arith, (omega arith, (omega arith, tt)))

-- Numbers out of range are left out without a word.
parse_indices_out_of_range : parse_indices (codes "1,256,-1,7x,") ≡ (1 ∷ 7 ∷ [], [])
unfolding parse_indices getlines parse_tokens
parse_indices_out_of_range = refl

-- With no port in the address the shell's port stays what it happens to be.
create_no_port : (unset : ℤ) → (Shell.create {S = Pipe} unset (codes "localhost")).port ≡ unset
unfolding Shell.create parse_server_string
create_no_port unset = refl

completions_run : completions (codes "help re") ≡ (codes "read" ∷ codes "reconnect" ∷ [], 5)
unfolding completions
completions_run = refl

abbrev network : Network ℕ Pipe
network = record {
  getaddrinfo = λ host port. some (1 ∷ 2 ∷ []);
  open_socket = λ address. some ([], []);
  connect = λ s address. (true, s);
}

abbrev inputs : List (Bool × Option Bytes)
inputs = (false, some (codes "status")) ∷ (false, some (codes "reconnect")) ∷ (false, none) ∷ []

run-disconnected_example :
    connected_client (run network pipe [] [] inputs (Shell.create (pos 0) (codes "[::1]:7896"))).1
    ≡ none
run-disconnected_example =
    run-disconnected network pipe [] [] inputs (Shell.create (pos 0) (codes "[::1]:7896"))

run_arguments :
    parse_arguments
      (codes "--server" ∷ codes "host:9999" ∷ codes "read" ∷ codes "--index" ∷ codes "1" ∷ [])
    ≡ record {
      server = codes "host:9999";
      host = codes "host";
      port = pos 9999;
      command = codes "read";
      command_args = codes "--index" ∷ codes "1" ∷ [];
    }
unfolding parse_arguments
run_arguments = refl

-- An unknown option in front of the command: `main` finds the command, `CliApp` takes the option.
option_first :
    (find_mode [] (codes "--verbose" ∷ codes "list" ∷ []) ≡ (false, []))
    × ((parse_arguments (codes "--verbose" ∷ codes "list" ∷ [])).command ≡ codes "--verbose")
unfolding find_mode parse_arguments
option_first = (refl, refl)
