-- ===== src/Cli/Editor.antt =====
-- The completion and the colours of the shell's input line
-- (src/sms_relay_cli/interactive_shell.cpp).
use sms_relay.Base.{
  ℕ, ◌+◌, length, replicate, Bool, true, false, none, some, List, [], ◌∷◌, ◌++◌, Bytes, ◌==◌,
  if◌then◌else◌,
}
use sms_relay.Base.Text.{codes, bytes_eq, starts_with}
use sms_relay.Cli.Arguments.{split_last}

abbrev pub commands : List Bytes
commands =
    codes "list"
    ∷ codes "read"
    ∷ codes "delete"
    ∷ codes "send"
    ∷ codes "status"
    ∷ codes "help"
    ∷ codes "exit"
    ∷ codes "reconnect"
    ∷ []

unfoldable pub with_prefix : Bytes → List Bytes → List Bytes
unfolding starts_with
with_prefix prefix [] = []
with_prefix prefix (cmd ∷ cmds) =
    if starts_with cmd prefix then cmd ∷ with_prefix prefix cmds else with_prefix prefix cmds

-- The completions of the word behind the last blank, and where it starts.
unfoldable pub completions : Bytes → List Bytes × ℕ
unfolding split_last with_prefix
completions input = elim (split_last b' ' input) [
  | none ↦ (with_prefix input commands, 0)
  | some (front, prefix) ↦ (with_prefix prefix commands, length front + 1)
]

unfoldable pub is_command : Bytes → List Bytes → Bool
unfolding bytes_eq
is_command word [] = false
is_command word (cmd ∷ cmds) = if bytes_eq word cmd then true else is_command word cmds

-- Which bytes are coloured: those of the words that are commands. `word` is the word so far.
unfoldable pub highlighted : Bytes → Bytes → List Bool
unfolding is_command
highlighted word [] = replicate (length word) (is_command word commands)
highlighted word (c ∷ input) = elim (c == b' ') [
  | true ↦ replicate (length word) (is_command word commands) ++ false ∷ highlighted [] input
  | false ↦ highlighted (word ++ c ∷ []) input
]
