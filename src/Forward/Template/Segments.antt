-- ===== src/Forward/Template/Segments.antt =====
-- `render` on templates as they are written: text and variables.
use sms_relay.Base.{
  inl, inr, ap₂, Bool-cases, ℕ, suc, ◌≡◌, ◌≢◌, refl, ap, ◌∙◌, Bool, true, false, some, List, [],
  ◌∷◌, ◌++◌, Bytes, All, length, if◌then◌else◌, arith,
}
use mathlib.Core.Path.{subst}
use sms_relay.Base.Text.{codes, starts_with, find, to_string}
use sms_relay.Sms.Message.{IncomingSms}
use sms_relay.Forward.Template.{replace_all, then_replace, render}
use sms_relay.Forward.Template.Replaces.{
  Replaces, stop, replace-Replaces, Replaces-skip, Replaces-hit,
}

pub data Variable : Type 0 where
  sender text timestamp index : Variable

pub data Segment : Type 0 where
  literal : Bytes → Segment
  variable : Variable → Segment

abbrev pub name_of : Variable → Bytes
name_of sender = codes "{sender}"
name_of text = codes "{text}"
name_of timestamp = codes "{timestamp}"
name_of index = codes "{index}"

abbrev pub pattern_of : Variable → Bytes
pattern_of v = b'$' ∷ name_of v

abbrev pub printed : Segment → Bytes
printed (literal bytes) = bytes
printed (variable v) = pattern_of v

abbrev pub template : List Segment → Bytes
template [] = []
template (segment ∷ segments) = printed segment ++ template segments

-- The value of a variable.
abbrev pub value_of : IncomingSms → Variable → Bytes
value_of sms sender = sms.decoded.number
value_of sms text = sms.decoded.text
value_of sms timestamp = sms.decoded.timestamp
value_of sms index = to_string sms.index

abbrev pub value_in : IncomingSms → Segment → Bytes
value_in sms (literal bytes) = bytes
value_in sms (variable v) = value_of sms v

abbrev pub filled : IncomingSms → List Segment → Bytes
filled sms [] = []
filled sms (segment ∷ segments) = value_in sms segment ++ filled sms segments

abbrev pub NoDollar : Bytes → Type 0
NoDollar = All (λ c. c ≢ b'$')

abbrev pub IsPlain : Segment → Type 0
IsPlain (literal bytes) = NoDollar bytes
IsPlain (variable v) = Unit

abbrev same_variable : Variable → Variable → Bool
same_variable sender sender = true
same_variable text text = true
same_variable timestamp timestamp = true
same_variable index index = true
same_variable _ _ = false

-- The segments after the replacement of a variable.
abbrev put : Variable → Bytes → Segment → Segment
put v bytes (literal other) = literal other
put v bytes (variable w) = if same_variable v w then literal bytes else variable w

abbrev put_all : Variable → Bytes → List Segment → List Segment
put_all v bytes [] = []
put_all v bytes (segment ∷ segments) = put v bytes segment ∷ put_all v bytes segments

the_same : (v w : Variable) → same_variable v w ≡ true → v ≡ w
the_same sender sender h = refl
the_same text text h = refl
the_same timestamp timestamp h = refl
the_same index index h = refl
the_same sender text h = cc
the_same sender timestamp h = cc
the_same sender index h = cc
the_same text sender h = cc
the_same text timestamp h = cc
the_same text index h = cc
the_same timestamp sender h = cc
the_same timestamp text h = cc
the_same timestamp index h = cc
the_same index sender h = cc
the_same index text h = cc
the_same index timestamp h = cc

starts_with-plain :
    (v : Variable) (c : ℕ) (rest : Bytes) → c ≢ b'$' → starts_with (c ∷ rest) (pattern_of v) ≡ false
unfolding starts_with
starts_with-plain v c rest h = ground (arith, h)

-- Text without a dollar sign in front.
skip_plain :
    (v : Variable) (to plain str out : Bytes)
    → NoDollar plain
    → Replaces (pattern_of v) to str out
    → Replaces (pattern_of v) to (plain ++ str) (plain ++ out)
skip_plain v to [] str out h r = r
skip_plain v to (c ∷ plain) str out (h, hs) r =
    Replaces-skip (pattern_of v) to c (plain ++ str) (plain ++ out)
      (starts_with-plain v c (plain ++ str) h) (skip_plain v to plain str out hs r)

name_of-NoDollar : (v : Variable) → NoDollar (name_of v)
name_of-NoDollar sender = ground arith
name_of-NoDollar text = ground arith
name_of-NoDollar timestamp = ground arith
name_of-NoDollar index = ground arith

starts_with-other :
    (v w : Variable) (str : Bytes)
    → same_variable v w ≡ false
    → starts_with (pattern_of w ++ str) (pattern_of v) ≡ false
unfolding starts_with
starts_with-other sender sender str h = cc
starts_with-other text text str h = cc
starts_with-other timestamp timestamp str h = cc
starts_with-other index index str h = cc
starts_with-other sender text str h = refl
starts_with-other sender timestamp str h = refl
starts_with-other sender index str h = refl
starts_with-other text sender str h = refl
starts_with-other text timestamp str h = refl
starts_with-other text index str h = refl
starts_with-other timestamp sender str h = refl
starts_with-other timestamp text str h = refl
starts_with-other timestamp index str h = refl
starts_with-other index sender str h = refl
starts_with-other index text str h = refl
starts_with-other index timestamp str h = refl

replaced :
    (v : Variable) (to : Bytes) (segments : List Segment)
    → All IsPlain segments
    → Replaces (pattern_of v) to (template segments) (template (put_all v to segments))
unfolding find
replaced v to [] h = stop refl
replaced v to (literal plain ∷ segments) (h, hs) =
    skip_plain v to plain (template segments) (template (put_all v to segments)) h
      (replaced v to segments hs)
replaced v to (variable w ∷ segments) (h, hs) = elim (Bool-cases (same_variable v w)) [
  | inl e ↦ rw (e) (
      subst
        (λ u.
          Replaces (pattern_of v) to (pattern_of u ++ template segments)
            (to ++ template (put_all v to segments)))
        (the_same v w e)
        (Replaces-hit b'$' (name_of v) to (template segments) (template (put_all v to segments))
          (replaced v to segments hs)))
  | inr e ↦ rw (e) (
      Replaces-skip (pattern_of v) to b'$' (name_of w ++ template segments)
        (name_of w ++ template (put_all v to segments))
        (starts_with-other v w (template segments) e)
        (skip_plain v to (name_of w) (template segments) (template (put_all v to segments))
          (name_of-NoDollar w) (replaced v to segments hs)))
]

replace_all-template :
    (v : Variable) (to : Bytes) (segments : List Segment)
    → All IsPlain segments
    → replace_all (template segments) (pattern_of v) to ≡ some (template (put_all v to segments))
unfolding replace_all
replace_all-template v to segments h =
    replace-Replaces (suc (length (template segments))) (pattern_of v) to (template segments)
      (template (put_all v to segments)) (omega arith) (omega arith) (replaced v to segments h)

put_all-IsPlain :
    (v : Variable) (to : Bytes) (segments : List Segment)
    → NoDollar to
    → All IsPlain segments
    → All IsPlain (put_all v to segments)
put_all-IsPlain v to [] plain h = tt
put_all-IsPlain v to (literal other ∷ segments) plain (h, hs) =
    (h, put_all-IsPlain v to segments plain hs)
put_all-IsPlain v to (variable w ∷ segments) plain (h, hs) = elim (Bool-cases (same_variable v w)) [
  | inl e ↦ rw (e) (plain, put_all-IsPlain v to segments plain hs)
  | inr e ↦ rw (e) (tt, put_all-IsPlain v to segments plain hs)
]

-- All four replacements, one after the other.
abbrev stage : IncomingSms → Variable → List Segment → List Segment
stage sms v segments = put_all v (value_of sms v) segments

printed_stages :
    (sms : IncomingSms) (segment : Segment)
    → printed (
        put index (value_of sms index) (
          put timestamp
            (value_of sms timestamp)
            (put text (value_of sms text) (put sender (value_of sms sender) segment))))
      ≡ value_in sms segment
printed_stages sms (literal other) = refl
printed_stages sms (variable sender) = refl
printed_stages sms (variable text) = refl
printed_stages sms (variable timestamp) = refl
printed_stages sms (variable index) = refl

template-stages :
    (sms : IncomingSms) (segments : List Segment)
    → template (stage sms index (stage sms timestamp (stage sms text (stage sms sender segments))))
      ≡ filled sms segments
template-stages sms [] = refl
template-stages sms (segment ∷ segments) =
    ap₂ ◌++◌ (printed_stages sms segment) (template-stages sms segments)

-- A template of text without dollar signs and of variables is rendered, without running out of
-- fuel, with each variable replaced by its value and the rest unchanged, as long as there is no
-- dollar sign in the sender, the text and the timestamp of the message.
pub render-filled :
    (sms : IncomingSms) (segments : List Segment)
    → All IsPlain segments
    → NoDollar sms.decoded.number
    → NoDollar sms.decoded.text
    → NoDollar sms.decoded.timestamp
    → render (template segments) sms ≡ some (filled sms segments)
unfolding render
render-filled sms segments h number words time =
    let s₁ = stage sms sender segments in
    let s₂ = stage sms text s₁ in
    let s₃ = stage sms timestamp s₂ in
    let h₁ = put_all-IsPlain sender (value_of sms sender) segments number h in
    let h₂ = put_all-IsPlain text (value_of sms text) s₁ words h₁ in
    let h₃ = put_all-IsPlain timestamp (value_of sms timestamp) s₂ time h₂ in
    ap
      (λ r. then_replace (pattern_of index) (value_of sms index) (
        then_replace (pattern_of timestamp) (value_of sms timestamp)
          (then_replace (pattern_of text) (value_of sms text) r)))
      (replace_all-template sender (value_of sms sender) segments h)
    ∙ ap
        (λ r.
          then_replace (pattern_of index) (value_of sms index)
            (then_replace (pattern_of timestamp) (value_of sms timestamp) r))
        (replace_all-template text (value_of sms text) s₁ h₁)
    ∙ ap (then_replace (pattern_of index) (value_of sms index))
        (replace_all-template timestamp (value_of sms timestamp) s₂ h₂)
    ∙ replace_all-template index (value_of sms index) s₃ h₃
    ∙ ap some (template-stages sms segments)
