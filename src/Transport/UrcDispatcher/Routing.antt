-- ===== src/Transport/UrcDispatcher/Routing.antt =====
-- Which handler a line reaches.
use sms_relay.Base.{
  ℕ, suc, ◌+◌, Bool, true, false, ◌≡◌, ◌≢◌, refl, Option, none, some, inl, inr, [], ◌∷◌, ◌++◌,
  Bytes, All, length, length-append, drop, Bool-cases, arith,
}
use sms_relay.Base.Text.{bytes_eq, starts_with, find_byte}
use sms_relay.Transport.UrcDispatcher.{
  Handlers, Call, register_handler, arguments, call, dispatch_in, dispatch, matches, is_urc,
}

module _ {H : Type 0} where
  -- No prefix but `p` itself fits the line.
  abbrev pub OnlyMatch : Bytes → Bytes → Handlers H → Type 0
  OnlyMatch p line [] = Unit
  OnlyMatch p line ((q, h) ∷ rest) =
      ((bytes_eq q p ≡ false) → starts_with line q ≡ false) × OnlyMatch p line rest

  -- The latest registration for a prefix receives the lines that start with it, whatever the
  -- order of the table, if no other registered prefix fits the line.
  pub dispatch_in-register :
      (handlers : Handlers H) (p : Bytes) (h : Option H) (line : Bytes)
      → starts_with line p ≡ true
      → OnlyMatch p line handlers
      → dispatch_in (register_handler p h handlers) line ≡ some (call p h line)
  unfolding register_handler dispatch_in
  dispatch_in-register [] p h line s o = rw s
  dispatch_in-register ((q, g) ∷ rest) p h line s (o, later) = elim (Bool-cases (bytes_eq q p)) [
    | inl e ↦ rw (e, s)
    | inr e ↦ rw (e, o e) (dispatch_in-register rest p h line s later)
  ]

  -- What `dispatch` returns to its caller.
  abbrev pub handled : Option (Option (Call H)) → Bool
  handled none = false
  handled (some c) = true

  matches-handled :
      (handlers : Handlers H) (line : Bytes)
      → matches handlers line ≡ handled (dispatch_in handlers line)
  unfolding matches dispatch_in
  matches-handled [] line = refl
  matches-handled ((p, h) ∷ rest) line = ground (arith, matches-handled rest line)

  -- `is_urc` answers as `dispatch` would, for every table and line.
  pub is_urc-handled :
      (handlers : Handlers H) (line : Bytes)
      → is_urc handlers line ≡ handled (dispatch handlers line)
  unfolding dispatch is_urc
  is_urc-handled handlers [] = refl
  is_urc-handled handlers (x ∷ xs) = matches-handled handlers (x ∷ xs)

find_byte-append :
    (c : ℕ) (s rest : Bytes) → All (λ b. b ≢ c) s → find_byte c (s ++ c ∷ rest) ≡ some (length s)
unfolding find_byte
find_byte-append c [] rest h = ground arith
find_byte-append c (x ∷ s) rest h = ground (arith, h, find_byte-append c s rest h.1)

drop-two : (p : Bytes) (x y : ℕ) (rest : Bytes) → drop (length p + 2) (p ++ x ∷ y ∷ rest) ≡ rest
drop-two [] x y rest = refl
drop-two (z ∷ p) x y rest =
    let e : suc (length p) + 2 ≡ suc (length p + 2) = omega arith in rw e (drop-two p x y rest)

-- A notification `prefix: args` gives its handler exactly `args`.
pub arguments-notification :
    (prefix args : Bytes)
    → All (λ c. c ≢ b':') prefix
    → args ≢ []
    → arguments (prefix ++ b':' ∷ b' ' ∷ args) ≡ args
unfolding arguments
arguments-notification prefix [] clean h = absurd (h refl)
arguments-notification prefix (a ∷ args) clean h = ground (
  arith,
  find_byte-append b':' prefix (b' ' ∷ a ∷ args) clean,
  length-append prefix (b':' ∷ b' ' ∷ a ∷ args),
  drop-two prefix b':' b' ' (a ∷ args),
)
