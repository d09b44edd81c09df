-- ===== src/Base/Digits.antt =====
-- Decimal numbers in strings: `std::stoi`, and the digits that `std::to_string` writes.
use Prim.Native.Nat.{ℕ, zero, suc, ◌+◌, ◌-◌, ◌*◌, ◌/◌, ◌%◌, ◌^◌, ◌<◌}
use mathlib.Core.Path.{◌≡◌, refl, sym, ap, ◌∙◌}
use mathlib.Core.Logic.{inl, inr}
use mathlib.Core.Bool.{Bool, true, false, ◌||◌}
use mathlib.Core.List.{[], ◌∷◌, ◌++◌, append-nil, append_assoc}
use native.Mathlib.Nat.{pow-suc}
use native.Mathlib.Omega.{arith}
use sms_relay.Base.Lists.{All, All-append}
use sms_relay.Base.Numbers.{Bytes}
use sms_relay.Base.Result.{Result, ok, err, bad_number}
use sms_relay.Base.Tests.{ltb, leb, ◌==◌, within, if◌then◌else◌, Bool-cases}
use sms_relay.Base.Text.{digits_of, to_string}

abbrev pub is_digit : ℕ → Bool
is_digit c = within b'0' b'9' c

-- `std::isspace`
abbrev pub is_space : ℕ → Bool
is_space c = c == b' ' || within 9 13 c

-- The number that the digits in front of `s` continue.
unfoldable pub number_of : ℕ → Bytes → ℕ
number_of acc [] = acc
number_of acc (c ∷ s) = elim (is_digit c) [
  | true ↦ number_of (acc * 10 + (c - b'0')) s
  | false ↦ acc
]

unfoldable pub starts_digit : Bytes → Bool
starts_digit [] = false
starts_digit (c ∷ s) = is_digit c

unfoldable pub skip_spaces : Bytes → Bytes
skip_spaces [] = []
skip_spaces (c ∷ s) = if is_space c then skip_spaces s else c ∷ s

-- `static_cast<uint8_t>(std::stoi(s))` behind the spaces and the sign: `int` has 32 bits.
unfoldable pub unsigned_u8 : Bytes → Result ℕ
unfolding starts_digit number_of
unsigned_u8 s =
    if starts_digit s
    then (if ltb (number_of 0 s) (2 ^ 31) then ok (number_of 0 s % 2 ^ 8) else err bad_number)
    else err bad_number

unfoldable pub negative_u8 : Bytes → Result ℕ
unfolding starts_digit number_of
negative_u8 s =
    if starts_digit s
    then (if leb (number_of 0 s) (2 ^ 31)
        then ok ((2 ^ 32 - number_of 0 s) % 2 ^ 8)
        else err bad_number)
    else err bad_number

unfoldable pub signed_u8 : Bytes → Result ℕ
unfolding unsigned_u8 negative_u8
signed_u8 [] = err bad_number
signed_u8 (c ∷ s) =
    if c == b'-' then negative_u8 s else if c == b'+' then unsigned_u8 s else unsigned_u8 (c ∷ s)

unfoldable pub stoi_u8 : Bytes → Result ℕ
unfolding skip_spaces signed_u8
stoi_u8 s = signed_u8 (skip_spaces s)

abbrev pub AreDigits : Bytes → Type 0
AreDigits = All (λ c. is_digit c ≡ true)

pub number_of-append :
    (acc : ℕ) (front rest : Bytes)
    → AreDigits front
    → number_of acc (front ++ rest) ≡ number_of (number_of acc front) rest
unfolding number_of
number_of-append acc [] rest h = refl
number_of-append acc (c ∷ front) rest (h, hs) =
    ground (arith, h, number_of-append (acc * 10 + (c - b'0')) front rest hs)

pub digits_of-AreDigits : (fuel n : ℕ) → AreDigits (digits_of fuel n)
unfolding digits_of
digits_of-AreDigits zero n = tt
digits_of-AreDigits (suc fuel) n = elim (Bool-cases (ltb n 10)) [
  | inl e ↦ rw (e) (ground (arith, e), tt)
  | inr e ↦ rw (e) (
      All-append (λ c. is_digit c ≡ true) (digits_of fuel (n / 10)) ((n % 10 + b'0') ∷ [])
        (digits_of-AreDigits fuel (n / 10)) (ground arith, tt))
]

number_of-one : (acc d : ℕ) → d < 10 → number_of acc ((d + b'0') ∷ []) ≡ acc * 10 + d
unfolding number_of
number_of-one acc d h = ground (arith, h)

pub number_of-digits_of : (fuel n : ℕ) → n < 10 ^ fuel → number_of 0 (digits_of fuel n) ≡ n
unfolding digits_of
number_of-digits_of zero n h = unfold number_of in omega arith
number_of-digits_of (suc fuel) n h = elim (Bool-cases (ltb n 10)) [
  | inl e ↦ rw (e) (number_of-one 0 n (ground (arith, e)) ∙ omega arith)
  | inr e ↦ rw (e) (
      number_of-append 0 (digits_of fuel (n / 10)) ((n % 10 + b'0') ∷ [])
        (digits_of-AreDigits fuel (n / 10))
      ∙ ap (λ k. number_of k ((n % 10 + b'0') ∷ []))
          (number_of-digits_of fuel (n / 10) (omega (arith, pow-suc 10 fuel)))
      ∙ number_of-one (n / 10) (n % 10) (omega arith)
      ∙ omega arith)
]

starts_digit-digits_of :
    (fuel n : ℕ) (rest : Bytes) → starts_digit (digits_of (suc fuel) n ++ rest) ≡ true
unfolding starts_digit digits_of
starts_digit-digits_of zero n rest = ground arith
starts_digit-digits_of (suc fuel) n rest = elim (Bool-cases (ltb n 10)) [
  | inl e ↦ rw (e) (ground (arith, e))
  | inr e ↦ rw (e) (
      ap starts_digit (append_assoc (digits_of (suc fuel) (n / 10)) ((n % 10 + b'0') ∷ []) rest)
      ∙ starts_digit-digits_of fuel (n / 10) ((n % 10 + b'0') ∷ rest))
]

pub to_string-AreDigits : (n : ℕ) → AreDigits (to_string n)
unfolding to_string
to_string-AreDigits n = digits_of-AreDigits 20 n

pub starts_digit-to_string : (n : ℕ) (rest : Bytes) → starts_digit (to_string n ++ rest) ≡ true
unfolding to_string
starts_digit-to_string n rest = starts_digit-digits_of 19 n rest

pub number_of-to_string : (n : ℕ) → n < 10 ^ 20 → number_of 0 (to_string n) ≡ n
unfolding to_string
number_of-to_string n h = number_of-digits_of 20 n h

stoi_u8-digits : (s : Bytes) → starts_digit s ≡ true → stoi_u8 s ≡ unsigned_u8 s
unfolding stoi_u8 skip_spaces signed_u8 starts_digit
stoi_u8-digits [] h = ground (arith, h)
stoi_u8-digits (c ∷ s) h = ground (arith, h)

unsigned_u8-value :
    (s : Bytes) (n : ℕ)
    → starts_digit s ≡ true
    → number_of 0 s ≡ n
    → n < 2 ^ 31
    → unsigned_u8 s ≡ ok (n % 2 ^ 8)
unfolding unsigned_u8
unsigned_u8-value s n h e l = ground (arith, h, e, l)

pub stoi_u8-to_string : (n : ℕ) → n < 2 ^ 31 → stoi_u8 (to_string n) ≡ ok (n % 2 ^ 8)
stoi_u8-to_string n h =
    let start : starts_digit (to_string n) ≡ true =
      ap starts_digit (sym (append-nil (to_string n))) ∙ starts_digit-to_string n [] in
    stoi_u8-digits (to_string n) start
    ∙ unsigned_u8-value (to_string n) n start (number_of-to_string n (omega (arith, h))) h

pub stoi_u8-space : (s : Bytes) → stoi_u8 (b' ' ∷ s) ≡ stoi_u8 s
unfolding stoi_u8 skip_spaces
stoi_u8-space s = refl
