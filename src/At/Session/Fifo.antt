-- ===== src/At/Session/Fifo.antt =====
-- The promises of src/sms_relay/at/at_session.cpp as a queue: settled, current, waiting.
pub mod Steps
use mathlib.Core.Path.{subst}
use sms_relay.Base.{
  Bool-cases, ◌⊎◌, inl, inr, ℕ, zero, suc, ◌+◌, Bool, true, false, ◌≡◌, refl, ap, ◌∙◌, sym, Option,
  none, some, List, [], ◌∷◌, ◌++◌, map, append_assoc, append-nil, Bytes, All, All-append, arith,
}
use sms_relay.At.CommandQueue.{
  QueuedCommand, CommandQueue, dequeue, dequeue_from, enqueue, is_empty,
}
use sms_relay.At.ResponseBuilder.{AtResponse}
use sms_relay.At.Session.{
  CurrentCommand, Session, begin_command, process_next_command, send_command, posted, settle,
  release, disarm,
}

-- 0, 1, …, n - 1
abbrev pub upto : ℕ → List ℕ
upto zero = []
upto (suc n) = upto n ++ n ∷ []

abbrev pub promise_of : QueuedCommand → ℕ
promise_of cmd = elim cmd.promise [ none ↦ 0 | some p ↦ p ]

abbrev pub HasPromise : QueuedCommand → Type 0
HasPromise cmd = (p : ℕ) × (cmd.promise ≡ some p)

abbrev pub outstanding : Option CurrentCommand → List ℕ
outstanding none = []
outstanding (some c) = c.promise ∷ []

abbrev pub settled_ids : List (ℕ × AtResponse) → List ℕ
settled_ids [] = []
settled_ids ((p, r) ∷ rest) = p ∷ settled_ids rest

abbrev pub queued_ids : List QueuedCommand → List ℕ
queued_ids [] = []
queued_ids (cmd ∷ rest) = promise_of cmd ∷ queued_ids rest

-- The promises that are not settled yet, the current command's first.
abbrev pub pending : Session → List ℕ
pending s = outstanding s.current ++ queued_ids s.queue.commands

abbrev pub is_given : Option CurrentCommand → Bool
is_given none = false
is_given (some c) = true

-- Settled and pending promises are those that `enqueue` made, each once and in order.
pub record IsValid (s : Session) : Type 0 where
  pub order : settled_ids s.settled ++ pending s ≡ upto s.queue.promises
  pub promised : All HasPromise s.queue.commands
  pub matched : s.in_progress ≡ is_given s.current

settled_ids-append :
    (xs : List (ℕ × AtResponse)) (p : ℕ) (r : AtResponse)
    → settled_ids (xs ++ (p, r) ∷ []) ≡ settled_ids xs ++ p ∷ []
settled_ids-append [] p r = refl
settled_ids-append ((q, x) ∷ xs) p r = ap (◌∷◌ q) (settled_ids-append xs p r)

queued_ids-append :
    (xs : List QueuedCommand) (cmd : QueuedCommand)
    → queued_ids (xs ++ cmd ∷ []) ≡ queued_ids xs ++ promise_of cmd ∷ []
queued_ids-append [] cmd = refl
queued_ids-append (x ∷ xs) cmd = ap (◌∷◌ (promise_of x)) (queued_ids-append xs cmd)

-- `send_command` adds the next number at the end.
pub send_command-IsValid : (cmd : Bytes) {s : Session} → IsValid s → IsValid (send_command cmd s).0
unfolding send_command
send_command-IsValid cmd {s} v = record {
  order =
      ap (λ q. settled_ids s.settled ++ (outstanding s.current ++ q))
        (queued_ids-append s.queue.commands _)
      ∙ simp (← append_assoc) (
          ap (λ l. l ++ s.queue.promises ∷ [])
            (append_assoc (settled_ids s.settled) (outstanding s.current)
                (queued_ids s.queue.commands)
              ∙ v.order));
  promised = All-append HasPromise s.queue.commands _ v.promised ((s.queue.promises, refl), tt);
  matched = v.matched;
}

List-cases {ℓ} : {A : Type ℓ} (l : List A) → (l ≡ []) ⊎ ((x : A) × (xs : List A) × (l ≡ x ∷ xs))
List-cases [] = inl refl
List-cases (x ∷ xs) = inr (x, xs, refl)

process_idle :
    (s : Session) {cmd : QueuedCommand} {rest : List QueuedCommand} {p : ℕ}
    → s.in_progress ≡ false
    → s.queue.commands ≡ cmd ∷ rest
    → cmd.promise ≡ some p
    → process_next_command s
      ≡ begin_command cmd.text p (record s { queue = record s.queue { commands = rest } })
unfolding process_next_command is_empty dequeue_from
process_idle s i e h = ground (arith, i, e, h)

process_busy : (s : Session) → s.in_progress ≡ true → process_next_command s ≡ s
unfolding process_next_command
process_busy s e = rw e

process_empty : (s : Session) → s.queue.commands ≡ [] → process_next_command s ≡ s
unfolding process_next_command is_empty
process_empty s e = ground (arith, e)

outstanding-none : (c : Option CurrentCommand) → is_given c ≡ false → outstanding c ≡ []
outstanding-none none h = refl
outstanding-none (some c) h = absurd (cc h)

begin_command-IsValid :
    {s : Session} (cmd : QueuedCommand) (rest : List QueuedCommand) (p : ℕ)
    → IsValid s
    → s.in_progress ≡ false
    → s.queue.commands ≡ cmd ∷ rest
    → cmd.promise ≡ some p
    → IsValid (begin_command cmd.text p (record s { queue = record s.queue { commands = rest } }))
unfolding begin_command
begin_command-IsValid {s} cmd rest p v i e h = record {
  order = ap (λ l. settled_ids s.settled ++ l) moved ∙ v.order;
  promised = (rw e at v.promised).1;
  matched = refl;
}
  where
    moved : p ∷ queued_ids rest ≡ pending s
    moved = ground (arith, outstanding-none s.current (sym v.matched ∙ i), e, h)

-- Starting the next command moves its number from the queue to the current command.
pub process_next_command-IsValid : {s : Session} → IsValid s → IsValid (process_next_command s)
process_next_command-IsValid {s} v = elim (Bool-cases s.in_progress) [
  | inl busy ↦ subst IsValid (sym (process_busy s busy)) v
  | inr idle ↦ elim (List-cases s.queue.commands) [
    | inl e ↦ subst IsValid (sym (process_empty s e)) v
    | inr (cmd, rest, e) ↦
        let (p, h) = (rw e at v.promised).0 in
        subst IsValid (sym (process_idle s idle e h)) (begin_command-IsValid cmd rest p v idle e h)
  ]
]

-- Settling the current command, if there is one, and releasing it moves its number to the log.
pub release-settle-IsValid :
    (response : AtResponse) {s : Session}
    → IsValid s
    → IsValid (release (settle s.current response s))
unfolding release settle
release-settle-IsValid response {s} v = go s.current v.order
  where
    go :
        (c : Option CurrentCommand)
        → settled_ids s.settled ++ (outstanding c ++ queued_ids s.queue.commands)
          ≡ upto s.queue.promises
        → IsValid (release (settle c response s))
    go none e = record { order = e; promised = v.promised; matched = refl }
    go (some c) e = record {
      order =
          ap (λ l. l ++ queued_ids s.queue.commands)
            (settled_ids-append s.settled c.promise response)
          ∙ append_assoc (settled_ids s.settled) (c.promise ∷ []) (queued_ids s.queue.commands)
          ∙ e;
      promised = v.promised;
      matched = refl;
    }
