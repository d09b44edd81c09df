-- ===== src/Cli/Arguments/Servers.antt =====
-- Server addresses as a user writes them, and `parse_server_string`.
use sms_relay.Base.{
  ℕ, ◌-◌, ◌<◌, ◌^◌, ◌≡◌, refl, sym, ap, ◌∙◌, Bool, true, false, none, some, [], ◌∷◌, ◌++◌,
  append_assoc, Bytes, length, length-append, take, take-append_length, back?-concat, ◌==◌,
  if◌then◌else◌, arith,
}
use sms_relay.Base.Text.{to_string}
use sms_relay.Base.Digits.{AreDigits, to_string-AreDigits}
use sms_relay.Config.Types.{ℤ, pos}
use sms_relay.Cli.Arguments.{
  stoi, split_last, last_is, without_brackets, port_of, parse_server_string,
}
use sms_relay.Cli.Arguments.Indices.{stoi-to_string}

split_last-none : (digits : Bytes) → AreDigits digits → split_last b':' digits ≡ none
unfolding split_last
split_last-none [] h = refl
split_last-none (c ∷ digits) (h, hs) =
    rw (split_last-none digits hs, split_last) (ground (arith, h))

split_last-append :
    (host digits : Bytes)
    → AreDigits digits
    → split_last b':' (host ++ b':' ∷ digits) ≡ some (host, digits)
unfolding split_last
split_last-append [] digits h = rw (split_last-none digits h, split_last) refl
split_last-append (c ∷ host) digits h = rw (split_last-append host digits h, split_last) refl

without_brackets-bracketed : (host : Bytes) → without_brackets (b'[' ∷ (host ++ b']' ∷ [])) ≡ host
unfolding without_brackets
without_brackets-bracketed host =
    let ends : last_is b']' (b'[' ∷ (host ++ b']' ∷ [])) ≡ true =
      ap (λ o. elim o as (λ _. Bool) [ none ↦ false | some x ↦ x == b']' ])
        (back?-concat (b'[' ∷ host) b']') in
    let size : length (b'[' ∷ (host ++ b']' ∷ [])) - 2 ≡ length host =
      omega (arith, length-append host (b']' ∷ [])) in
    ap
      (λ b.
        if b
        then take (length (b'[' ∷ (host ++ b']' ∷ [])) - 2) (host ++ b']' ∷ [])
        else b'[' ∷ (host ++ b']' ∷ []))
      ends
    ∙ ap (λ n. take n (host ++ b']' ∷ [])) size
    ∙ take-append_length host (b']' ∷ [])

-- An address in brackets with a port: the host is what stands between the brackets, whatever it is,
-- colons included, and the port is the number, if it is below 2 ^ 31.
pub parse_server_string-bracketed :
    (port : ℤ) (host : Bytes) (n : ℕ)
    → n < 2 ^ 31
    → parse_server_string port (b'[' ∷ (host ++ b']' ∷ b':' ∷ to_string n)) ≡ (host, pos n)
unfolding parse_server_string
parse_server_string-bracketed port host n h =
    let split : split_last b':' (b'[' ∷ (host ++ b']' ∷ b':' ∷ to_string n))
        ≡ some (b'[' ∷ (host ++ b']' ∷ []), to_string n) =
      ap (λ t. split_last b':' (b'[' ∷ t))
        (sym (append_assoc host (b']' ∷ []) (b':' ∷ to_string n)))
      ∙ split_last-append (b'[' ∷ (host ++ b']' ∷ [])) (to_string n) (to_string-AreDigits n) in
    ap
      (λ found. elim found as (λ _. Bytes × ℤ) [
        | none ↦ (without_brackets (b'[' ∷ (host ++ b']' ∷ b':' ∷ to_string n)), port)
        | some (front, after) ↦ (without_brackets front, port_of (stoi after))
      ])
      split
    ∙ ap (λ t. (t, port_of (stoi (to_string n)))) (without_brackets-bracketed host)
    ∙ ap (λ r. (host, port_of r)) (stoi-to_string n h)
