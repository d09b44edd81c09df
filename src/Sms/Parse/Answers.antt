-- ===== src/Sms/Parse/Answers.antt =====
-- Notifications and listings as a modem writes them, after the parsers of `SmsService`.
use sms_relay.Base.{
  ℕ, suc, ◌+◌, ◌%◌, ◌^◌, ◌<◌, ◌≡◌, ◌≢◌, refl, sym, ap, ap₂, ◌∙◌, true, false, some, List, [], ◌∷◌,
  ◌++◌, map, append-nil, Bytes, All, length, take, drop, take-append_length, arith,
}
use sms_relay.Base.Result.{ok}
use sms_relay.Base.Text.{codes, to_string, find_byte, starts_with}
use sms_relay.Base.Digits.{
  AreDigits, starts_digit, stoi_u8, stoi_u8-to_string, stoi_u8-space, starts_digit-to_string,
  to_string-AreDigits,
}
use sms_relay.At.ResponseBuilder.{AtResponse}
use sms_relay.Sms.Parse.{
  until_quote, quote_comma, match_here, parse_cmti_args, add_pair, cmgl_line, cmgl_lines,
  parse_cmgl_response,
}

abbrev pub cmti_args : Bytes → ℕ → Bytes
cmti_args storage index = b'"' ∷ (storage ++ b'"' ∷ b',' ∷ to_string index)

until_quote-append :
    (name rest : Bytes)
    → All (λ c. c ≢ b'"') name
    → until_quote (name ++ b'"' ∷ rest) ≡ (name, b'"' ∷ rest)
unfolding until_quote
until_quote-append [] rest h = refl
until_quote-append (c ∷ name) rest (h, hs) = ground (arith, h, until_quote-append name rest hs)

match_here-quoted :
    (n : ℕ) (name s rest digits : Bytes)
    → until_quote s ≡ (n ∷ name, rest)
    → quote_comma rest ≡ some digits
    → match_here (b'"' ∷ s) ≡ some (n ∷ name, digits)
unfolding match_here
match_here-quoted n name s rest digits e e' = ground (arith, e, e')

match_here-args :
    (n : ℕ) (name digits : Bytes)
    → All (λ c. c ≢ b'"') (n ∷ name)
    → starts_digit digits ≡ true
    → match_here (b'"' ∷ ((n ∷ name) ++ b'"' ∷ b',' ∷ digits)) ≡ some (n ∷ name, digits)
match_here-args n name digits h start =
    match_here-quoted n name _ (b'"' ∷ b',' ∷ digits) digits
      (until_quote-append (n ∷ name) (b',' ∷ digits) h) (unfold quote_comma in rw (start) refl)

-- The arguments of a notification that names a storage, not empty and without a quotation mark, and
-- an index are parsed to this storage and this index, which is cut to eight bits, as long as the
-- index fits an `int`.
pub parse_cmti_args-notification :
    (storage : Bytes) (index : ℕ)
    → storage ≢ []
    → All (λ c. c ≢ b'"') storage
    → index < 2 ^ 31
    → parse_cmti_args (cmti_args storage index) ≡ ok (storage, index % 2 ^ 8)
unfolding parse_cmti_args
parse_cmti_args-notification [] index ne h l = absurd (ne refl)
parse_cmti_args-notification (n ∷ name) index ne h l =
    rw
      (
        match_here-args n name (to_string index) h (
            ap starts_digit (sym (append-nil (to_string index))) ∙ starts_digit-to_string index []),
        stoi_u8-to_string index l,
        parse_cmti_args,
      )
      refl

-- One message of a listing: index, status, and what follows the second comma.
pub record Listed : Type 0 where
  pub index : ℕ
  pub stat : ℕ
  pub rest : Bytes
  pub pdu : Bytes

abbrev pub line_of : Listed → Bytes
line_of m = codes "+CMGL: " ++ (to_string m.index ++ (b',' ∷ (to_string m.stat ++ (b',' ∷ m.rest))))

abbrev pub listing : List Listed → List Bytes
listing [] = []
listing (m ∷ messages) = line_of m ∷ m.pdu ∷ listing messages

abbrev pub IsListed : Listed → Type 0
IsListed m = (m.index < 2 ^ 8) × (m.stat < 2 ^ 8) × (starts_with m.pdu (codes "+CMGL:") ≡ false)

abbrev NoComma : Bytes → Type 0
NoComma = All (λ c. c ≢ b',')

find_comma :
    (front back : Bytes)
    → NoComma front
    → find_byte b',' (front ++ b',' ∷ back) ≡ some (length front)
unfolding find_byte
find_comma [] back h = refl
find_comma (c ∷ front) back (h, hs) = ground (arith, h, find_comma front back hs)

drop-comma : (front back : Bytes) → drop (length front + 1) (front ++ b',' ∷ back) ≡ back
drop-comma [] back = refl
drop-comma (c ∷ front) back =
    ap (λ k. drop k (c ∷ (front ++ b',' ∷ back))) {y = suc (length front + 1)} (omega arith)
    ∙ drop-comma front back

cmgl_line-found :
    (line rest behind : Bytes) (first second : ℕ) (pairs : List (ℕ × ℕ))
    → drop 6 line ≡ rest
    → find_byte b',' rest ≡ some first
    → drop (first + 1) rest ≡ behind
    → find_byte b',' behind ≡ some second
    → cmgl_line line pairs
      ≡ add_pair (stoi_u8 (take first rest)) (stoi_u8 (take second behind)) pairs
unfolding cmgl_line
cmgl_line-found line rest behind first second pairs e f e' f' =
    let at_first = ap (find_byte b',') e ∙ f in
    let at_behind = ap (drop (first + 1)) e ∙ e' in
    let at_second = ap (find_byte b',') at_behind ∙ f' in
    rw (at_first, at_second, at_behind, e, cmgl_line) refl

cmgl_line-fields :
    (index stat rest line : Bytes) (pairs : List (ℕ × ℕ))
    → NoComma index
    → NoComma stat
    → drop 6 line ≡ index ++ b',' ∷ (stat ++ b',' ∷ rest)
    → cmgl_line line pairs ≡ add_pair (stoi_u8 index) (stoi_u8 stat) pairs
cmgl_line-fields index stat rest line pairs h h' e =
    let behind = stat ++ b',' ∷ rest in
    cmgl_line-found line (index ++ b',' ∷ behind) behind (length index) (length stat) pairs e
      (find_comma index behind h) (drop-comma index behind) (find_comma stat rest h')
    ∙ ap₂ (λ i t. add_pair (stoi_u8 i) (stoi_u8 t) pairs) (take-append_length index (b',' ∷ behind))
        (take-append_length stat (b',' ∷ rest))

digits-NoComma : (s : Bytes) → AreDigits s → NoComma s
digits-NoComma [] h = tt
digits-NoComma (c ∷ s) (h, hs) = ((λ e. ground (arith, h, e)), digits-NoComma s hs)

cmgl_line-listed :
    (m : Listed) (pairs : List (ℕ × ℕ))
    → m.index < 2 ^ 8
    → m.stat < 2 ^ 8
    → cmgl_line (line_of m) pairs ≡ (m.index, m.stat) ∷ pairs
unfolding add_pair
cmgl_line-listed m pairs h h' =
    cmgl_line-fields (b' ' ∷ to_string m.index) (to_string m.stat) m.rest (line_of m) pairs
      ((λ e. ground (arith, e)), digits-NoComma (to_string m.index) (to_string-AreDigits m.index))
      (digits-NoComma (to_string m.stat) (to_string-AreDigits m.stat)) refl
    ∙ rw
        (
          stoi_u8-space (to_string m.index),
          stoi_u8-to_string m.index (omega (arith, h)),
          stoi_u8-to_string m.stat (omega (arith, h')),
        )
        (paired (omega (arith, h)) (omega (arith, h')))
  where
    paired :
        m.index % 2 ^ 8 ≡ m.index
        → m.stat % 2 ^ 8 ≡ m.stat
        → add_pair (ok (m.index % 2 ^ 8)) (ok (m.stat % 2 ^ 8)) pairs ≡ (m.index, m.stat) ∷ pairs
    paired e e' = ap₂ (λ i t. (i, t) ∷ pairs) e e'

cmgl_lines-listing :
    (messages : List Listed)
    → All IsListed messages
    → cmgl_lines (listing messages) ≡ map (λ m. (m.index, m.stat)) messages
unfolding cmgl_lines starts_with
cmgl_lines-listing [] h = refl
cmgl_lines-listing (m ∷ messages) ((h, h', other), hs) =
    cmgl_line-listed m _ h h'
    ∙ ap (◌∷◌ (m.index, m.stat)) (rw (other) (cmgl_lines-listing messages hs))

-- From a listing, where each message has a line with its index and status below 256 and a line with
-- its PDU that does not look like the first kind, exactly the indices and the statuses are read, in
-- their order.
pub parse_cmgl_response-listing :
    (response : AtResponse) (messages : List Listed)
    → All IsListed messages
    → response.lines ≡ listing messages
    → parse_cmgl_response response ≡ map (λ m. (m.index, m.stat)) messages
unfolding parse_cmgl_response
parse_cmgl_response-listing response messages h e = ap cmgl_lines e ∙ cmgl_lines-listing messages h
