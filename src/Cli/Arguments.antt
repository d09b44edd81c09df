-- ===== src/Cli/Arguments.antt =====
-- What the command line client makes of texts that a user gives: indices, options, the server, and
-- the command line (src/sms_relay_cli/main.cpp and interactive_shell.cpp).
pub mod Indices
pub mod Servers
use sms_relay.Base.{
  ℕ, zero, suc, ◌-◌, ◌^◌, Bool, true, false, ◌&&◌, Option, none, some, List, [], ◌∷◌, ◌++◌, Bytes,
  length, take, drop, back?, ltb, leb, ◌==◌, if◌then◌else◌,
}
use sms_relay.Base.Result.{Result, ok, err, bad_number}
use sms_relay.Base.Text.{codes, bytes_eq, starts_with}
use sms_relay.Base.Digits.{is_space, starts_digit, number_of, skip_spaces}
use sms_relay.Config.Types.{ℤ, pos, negsuc}

-- `std::stoi` behind the spaces and the sign.
unfoldable pub unsigned_int : Bytes → Result ℤ
unfolding starts_digit number_of
unsigned_int s =
    if starts_digit s && ltb (number_of 0 s) (2 ^ 31)
    then ok (pos (number_of 0 s))
    else err bad_number

abbrev negated : ℕ → ℤ
negated zero = pos 0
negated (suc n) = negsuc n

unfoldable pub negative_int : Bytes → Result ℤ
unfolding starts_digit number_of
negative_int s =
    if starts_digit s && leb (number_of 0 s) (2 ^ 31)
    then ok (negated (number_of 0 s))
    else err bad_number

unfoldable pub signed_int : Bytes → Result ℤ
unfolding unsigned_int negative_int
signed_int [] = err bad_number
signed_int (c ∷ s) =
    if c == b'-' then negative_int s else if c == b'+' then unsigned_int s else unsigned_int (c ∷ s)

unfoldable pub stoi : Bytes → Result ℤ
unfolding skip_spaces signed_int
stoi s = signed_int (skip_spaces s)

-- The lines that `std::getline` reads up to a delimiter, of which the last is no line if it is
-- empty. `token` is the line so far.
unfoldable pub getlines : ℕ → Bytes → Bytes → List Bytes
getlines delimiter [] [] = []
getlines delimiter (t ∷ ts) [] = (t ∷ ts) ∷ []
getlines delimiter token (c ∷ cs) = elim (c == delimiter) [
  | true ↦ token ∷ getlines delimiter [] cs
  | false ↦ getlines delimiter (token ++ c ∷ []) cs
]

abbrev pub invalid_index : Bytes → Bytes
invalid_index token = codes "Error: Invalid index '" ++ (token ++ (codes "'" ++ 10 ∷ []))

-- A number outside the range is left out without a word.
unfoldable pub index_of : ℤ → List ℕ
index_of (pos idx) = if leb idx 255 then idx ∷ [] else []
index_of (negsuc n) = []

-- The loop of `parse_indices`: the indices, and what is written to the error stream.
unfoldable pub parse_tokens : List Bytes → Bytes × Bytes
unfolding stoi index_of
parse_tokens [] = ([], [])
parse_tokens (token ∷ tokens) =
    let (result, errors) = parse_tokens tokens in
    elim (stoi token) [
      | err e ↦ (result, invalid_index token ++ errors)
      | ok idx ↦ (index_of idx ++ result, errors)
    ]

unfoldable pub parse_indices : Bytes → Bytes × Bytes
unfolding getlines parse_tokens
parse_indices indices_str = parse_tokens (getlines b',' [] indices_str)

-- The last value behind an option, or what there was.
unfoldable pub option_value : Bytes → Bytes → List Bytes → Bytes
unfolding bytes_eq
option_value name value [] = value
option_value name value (arg ∷ []) = value
option_value name value (arg ∷ next ∷ args) =
    option_value name (if bytes_eq arg name then next else value) (next ∷ args)

-- `--index`, which may be given several times.
unfoldable pub index_options : List Bytes → Bytes × Bytes
unfolding bytes_eq parse_indices
index_options [] = ([], [])
index_options (arg ∷ []) = ([], [])
index_options (arg ∷ next ∷ args) =
    let (indices, errors) = index_options (next ∷ args) in
    if bytes_eq arg (codes "--index")
    then (let (idx_list, problems) = parse_indices next in
        (idx_list ++ indices, problems ++ errors))
    else (indices, errors)

-- `--to` and `--text`.
unfoldable pub send_options : Bytes × Bytes → List Bytes → Bytes × Bytes
unfolding bytes_eq
send_options found [] = found
send_options found (arg ∷ []) = found
send_options (recipient, text) (arg ∷ next ∷ args) =
    send_options
      (if bytes_eq arg (codes "--to")
        then (next, text)
        else if bytes_eq arg (codes "--text")
        then (recipient, next)
        else (recipient, text))
      (next ∷ args)

-- `s.find_last_of(c)`: what stands before it and behind it.
unfoldable pub split_last : ℕ → Bytes → Option (Bytes × Bytes)
split_last c [] = none
split_last c (x ∷ s) = elim (split_last c s) [
  | some (front, back) ↦ some (x ∷ front, back)
  | none ↦ if x == c then some ([], s) else none
]

abbrev pub default_port : ℤ
default_port = pos 7896

abbrev last_is : ℕ → Bytes → Bool
last_is c s = elim (back? s) [ none ↦ false | some x ↦ x == c ]

-- The address without the brackets around it.
unfoldable pub without_brackets : Bytes → Bytes
without_brackets [] = []
without_brackets (c ∷ host) =
    if c == b'[' && last_is b']' (c ∷ host) then take (length (c ∷ host) - 2) host else c ∷ host

abbrev port_of : Result ℤ → ℤ
port_of (err e) = default_port
port_of (ok port) = port

-- `parse_server_string`; `port` is what the variable held before.
unfoldable pub parse_server_string : ℤ → Bytes → Bytes × ℤ
unfolding split_last without_brackets stoi
parse_server_string port server = elim (split_last b':' server) [
  | none ↦ (without_brackets server, port)
  | some (host, after) ↦ (without_brackets host, port_of (stoi after))
]

pub record CommandLineArgs : Type 0 where
  pub server : Bytes
  pub host : Bytes
  pub port : ℤ
  pub command : Bytes
  pub command_args : List Bytes

abbrev pub default_server : Bytes
default_server = codes "::1:7896"

-- The first argument that is no option is the command, the others are its own.
unfoldable pub placed : Bytes → CommandLineArgs → CommandLineArgs
placed arg found = elim found.command [
  | [] ↦ record found { command = arg }
  | _ ∷ _ ↦ record found { command_args = found.command_args ++ arg ∷ [] }
]

-- The loop over the arguments behind the program's name.
unfoldable pub sort_arguments : CommandLineArgs → List Bytes → CommandLineArgs
unfolding bytes_eq placed
sort_arguments found [] = found
sort_arguments found (arg ∷ []) = placed arg found
sort_arguments found (arg ∷ next ∷ args) = elim (bytes_eq arg (codes "--server")) [
  | true ↦ sort_arguments (record found { server = next }) args
  | false ↦ sort_arguments (placed arg found) (next ∷ args)
]

unfoldable pub parse_arguments : List Bytes → CommandLineArgs
unfolding sort_arguments parse_server_string
parse_arguments argv =
    let found =
      sort_arguments
        (record {
          server = default_server;
          host = [];
          port = default_port;
          command = [];
          command_args = [];
        })
        argv in
    let (host, port) = parse_server_string found.port found.server in
    record found { host = host; port = port }

-- The loop of `main`: whether no command is given, and the server.
unfoldable pub find_mode : Bytes → List Bytes → Bool × Bytes
unfolding bytes_eq starts_with
find_mode server [] = (true, server)
find_mode server (arg ∷ []) = (starts_with arg (codes "--"), server)
find_mode server (arg ∷ next ∷ args) = elim (starts_with arg (codes "--")) [
  | false ↦ (false, server)
  | true ↦ elim (bytes_eq arg (codes "--server")) [
    | true ↦ find_mode next args
    | false ↦ find_mode server (next ∷ args)
  ]
]

-- The words that `>>` reads; `token` is the word so far.
unfoldable pub words : Bytes → Bytes → List Bytes
words [] [] = []
words (t ∷ ts) [] = (t ∷ ts) ∷ []
words token (c ∷ cs) = elim (is_space c) [
  | true ↦ elim token as (λ _. List Bytes) [ [] ↦ words [] cs | t ∷ ts ↦ (t ∷ ts) ∷ words [] cs ]
  | false ↦ words (token ++ c ∷ []) cs
]

unfoldable pub parse_command_line : Bytes → Bytes × List Bytes
unfolding words
parse_command_line input = elim (words [] input) [
  | [] ↦ ([], [])
  | command ∷ args ↦ (command, args)
]
