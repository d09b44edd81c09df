-- ===== src/At/CommandQueue.antt =====
-- The FIFO of src/sms_relay/at/command_queue.cpp. A promise is the number of its `enqueue`,
-- counted from 0; the caller's future is known by the same number.
use sms_relay.Base.{
  ℕ, suc, Bool, true, false, Option, none, some, List, [], ◌∷◌, ◌++◌, Bytes, length,
}

-- `QueuedCommand`; an empty one has no promise.
pub record QueuedCommand : Type 0 where
  pub text : Bytes
  pub promise : Option ℕ

pub record CommandQueue : Type 0 where
  pub commands : List QueuedCommand
  pub promises : ℕ

abbrev pub empty_queue : CommandQueue
empty_queue = record { commands = []; promises = 0 }

-- The queue with the command at its end, and the number of its promise.
unfoldable pub enqueue : Bytes → CommandQueue → CommandQueue × ℕ
enqueue cmd q = (
  record {
    commands = q.commands ++ record { text = cmd; promise = some q.promises } ∷ [];
    promises = suc q.promises;
  },
  q.promises,
)

unfoldable pub dequeue_from : List QueuedCommand → QueuedCommand × List QueuedCommand
dequeue_from [] = (record { text = []; promise = none }, [])
dequeue_from (cmd ∷ rest) = (cmd, rest)

unfoldable pub dequeue : CommandQueue → QueuedCommand × CommandQueue
unfolding dequeue_from
dequeue q = let (cmd, rest) = dequeue_from q.commands in (cmd, record q { commands = rest })

unfoldable pub is_empty : List QueuedCommand → Bool
is_empty [] = true
is_empty (cmd ∷ rest) = false

abbrev pub size : CommandQueue → ℕ
size q = length q.commands
