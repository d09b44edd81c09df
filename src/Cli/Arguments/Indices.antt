-- ===== src/Cli/Arguments/Indices.antt =====
-- Lists of indices as a user writes them, and `parse_indices`.
use sms_relay.Base.{
  ℕ, ◌≤◌, ◌<◌, ◌^◌, ◌≡◌, refl, sym, ap, ◌∙◌, true, List, [], ◌∷◌, ◌++◌, append_assoc, append-nil,
  map, All, Bytes, arith,
}
use sms_relay.Base.Result.{ok}
use sms_relay.Base.Text.{to_string}
use sms_relay.Base.Digits.{
  is_digit, starts_digit, number_of, skip_spaces, AreDigits, to_string-AreDigits,
  starts_digit-to_string, number_of-to_string,
}
use sms_relay.Config.Types.{pos}
use sms_relay.Cli.Arguments.{
  unsigned_int, signed_int, stoi, getlines, index_of, parse_tokens, parse_indices,
}

-- Numbers with commas between them.
abbrev pub comma_list : List ℕ → Bytes
comma_list [] = []
comma_list (i ∷ []) = to_string i
comma_list (i ∷ j ∷ indices) = to_string i ++ b',' ∷ comma_list (j ∷ indices)

getlines-digit :
    (token : Bytes) (c : ℕ) (rest : Bytes)
    → is_digit c ≡ true
    → getlines b',' token (c ∷ rest) ≡ getlines b',' (token ++ c ∷ []) rest
unfolding getlines
getlines-digit [] c rest h = ground (arith, h)
getlines-digit (t ∷ ts) c rest h = ground (arith, h)

getlines-digits :
    (token digits rest : Bytes)
    → AreDigits digits
    → getlines b',' token (digits ++ rest) ≡ getlines b',' (token ++ digits) rest
getlines-digits token [] rest h = ap (λ t. getlines b',' t rest) (sym (append-nil token))
getlines-digits token (c ∷ digits) rest (h, hs) =
    getlines-digit token c (digits ++ rest) h
    ∙ getlines-digits (token ++ c ∷ []) digits rest hs
    ∙ ap (λ t. getlines b',' t rest) (append_assoc token (c ∷ []) digits)

getlines-comma :
    (token rest : Bytes) → getlines b',' token (b',' ∷ rest) ≡ token ∷ getlines b',' [] rest
unfolding getlines
getlines-comma [] rest = refl
getlines-comma (t ∷ ts) rest = refl

getlines-end : (token : Bytes) → starts_digit token ≡ true → getlines b',' token [] ≡ token ∷ []
unfolding getlines starts_digit
getlines-end [] h = absurd (cc h)
getlines-end (t ∷ ts) h = refl

starts_digit-number : (n : ℕ) → starts_digit (to_string n) ≡ true
starts_digit-number n =
    ap starts_digit (sym (append-nil (to_string n))) ∙ starts_digit-to_string n []

getlines-comma_list :
    (indices : List ℕ) → getlines b',' [] (comma_list indices) ≡ map to_string indices
getlines-comma_list [] = unfold getlines in refl
getlines-comma_list (i ∷ []) =
    ap (getlines b',' []) (sym (append-nil (to_string i)))
    ∙ getlines-digits [] (to_string i) [] (to_string-AreDigits i)
    ∙ getlines-end (to_string i) (starts_digit-number i)
getlines-comma_list (i ∷ j ∷ indices) =
    getlines-digits [] (to_string i) (b',' ∷ comma_list (j ∷ indices)) (to_string-AreDigits i)
    ∙ getlines-comma (to_string i) (comma_list (j ∷ indices))
    ∙ ap (◌∷◌ (to_string i)) (getlines-comma_list (j ∷ indices))

stoi-digits : (s : Bytes) → starts_digit s ≡ true → stoi s ≡ unsigned_int s
unfolding stoi skip_spaces signed_int starts_digit
stoi-digits [] h = ground (arith, h)
stoi-digits (c ∷ s) h = ground (arith, h)

unsigned_int-value :
    (s : Bytes) (n : ℕ)
    → starts_digit s ≡ true
    → number_of 0 s ≡ n
    → n < 2 ^ 31
    → unsigned_int s ≡ ok (pos n)
unfolding unsigned_int
unsigned_int-value s n h e l = ground (arith, h, e, l)

pub stoi-to_string : (n : ℕ) → n < 2 ^ 31 → stoi (to_string n) ≡ ok (pos n)
stoi-to_string n h =
    let start = starts_digit-number n in
    stoi-digits (to_string n) start
    ∙ unsigned_int-value (to_string n) n start (number_of-to_string n (omega (arith, h))) h

parse_tokens-numbers :
    (indices : List ℕ)
    → All (λ i. i ≤ 255) indices
    → parse_tokens (map to_string indices) ≡ (indices, [])
unfolding parse_tokens index_of
parse_tokens-numbers [] h = refl
parse_tokens-numbers (i ∷ indices) (h, hs) =
    rw (stoi-to_string i (omega arith), parse_tokens, parse_tokens-numbers indices hs)
      (ground (arith, h))

-- A list of numbers up to 255, written with commas between them, is read as these numbers in their
-- order, with no complaint.
pub parse_indices-comma_list :
    (indices : List ℕ)
    → All (λ i. i ≤ 255) indices
    → parse_indices (comma_list indices) ≡ (indices, [])
unfolding parse_indices
parse_indices-comma_list indices h =
    ap parse_tokens (getlines-comma_list indices) ∙ parse_tokens-numbers indices h
