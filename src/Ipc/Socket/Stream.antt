-- ===== src/Ipc/Socket/Stream.antt =====
-- What a stream socket promises, and the receiving loop on it.
use sms_relay.Base.{
  ℕ, zero, suc, ◌+◌, ◌-◌, ◌≤◌, ◌<◌, ◌≡◌, refl, sym, ap, ◌∙◌, none, some, [], ◌∷◌, ◌++◌,
  append_assoc, append-nil, Bytes, length, length-append, take, drop, take-append_past,
  drop-append_past, take-append_length, drop-append_length, arith, inl, inr, ◌⊎◌,
}
use sms_relay.Ipc.Socket.{Socket, recv_loop, recv_exactly}

-- `recv` returns a piece of the bytes to come, of at most the length asked for, and nothing only
-- where none are to come.
pub record IsStream {S : Type 0} (socket : Socket S) (incoming : S → Bytes) : Type 0 where
  pub in_order : (n : ℕ) (s : S) → incoming s ≡ (socket.recv n s).0 ++ incoming (socket.recv n s).1
  pub at_most : (n : ℕ) (s : S) → length (socket.recv n s).0 ≤ n
  pub at_end : (n : ℕ) (s : S) → 0 < n → (socket.recv n s).0 ≡ [] → incoming s ≡ []

-- `send` takes all bytes, behind those sent before, and receiving and sending do not disturb each
-- other.
pub record IsSender {S : Type 0} (socket : Socket S) (incoming outgoing : S → Bytes) : Type 0 where
  pub sent : (bytes : Bytes) (s : S) → (socket.send bytes s).0 ≡ length bytes
  pub behind : (bytes : Bytes) (s : S) → outgoing (socket.send bytes s).1 ≡ outgoing s ++ bytes
  pub apart : (bytes : Bytes) (s : S) → incoming (socket.send bytes s).1 ≡ incoming s
  pub quiet : (n : ℕ) (s : S) → outgoing (socket.recv n s).1 ≡ outgoing s

pub Bytes-cases : (xs : Bytes) → (xs ≡ []) ⊎ ((x : ℕ) × (rest : Bytes) × (xs ≡ x ∷ rest))
Bytes-cases [] = inl refl
Bytes-cases (x ∷ rest) = inr (x, rest, refl)

module _ {S : Type 0} (socket : Socket S) (incoming : S → Bytes)
    (stream : IsStream socket incoming) where
  -- A piece of `n` bytes that arrive.
  piece :
      (n b : ℕ) (bs : Bytes) (s : S)
      → (socket.recv n s).0 ≡ b ∷ bs
      → let s' = (socket.recv n s).1 in
        (length bs < n)
        × ((b ∷ bs) ++ incoming s' ≡ incoming s)
        × ((b ∷ bs) ++ take (n - length (b ∷ bs)) (incoming s') ≡ take n (incoming s))
        × (drop (n - length (b ∷ bs)) (incoming s') ≡ drop n (incoming s))
  piece n b bs s e =
      let s' = (socket.recv n s).1 in
      let short : length (b ∷ bs) ≤ n = omega (arith, ap length e, stream.at_most n s) in
      let whole : (b ∷ bs) ++ incoming s' ≡ incoming s =
        ap (λ p. p ++ incoming s') (sym e) ∙ sym (stream.in_order n s) in
      (
        omega arith,
        whole,
        sym (take-append_past n (b ∷ bs) (incoming s') short) ∙ ap (take n) whole,
        sym (drop-append_past n (b ∷ bs) (incoming s') short) ∙ ap (drop n) whole,
      )

  recv_loop-enough :
      (fuel n : ℕ) (received : Bytes) (s : S)
      → n ≤ fuel
      → n ≤ length (incoming s)
      → (s' : S) × (recv_loop socket fuel n received s
          ≡ (some (received ++ take n (incoming s)), s'))
        × (incoming s' ≡ drop n (incoming s))
  unfolding recv_loop
  recv_loop-enough zero (suc n) received s h k = absurd (omega arith)
  recv_loop-enough zero zero received s h k = (s, ap (λ r. (some r, s)) (sym (append-nil _)), refl)
  recv_loop-enough (suc fuel) zero received s h k =
      (s, ap (λ r. (some r, s)) (sym (append-nil _)), refl)
  recv_loop-enough (suc fuel) (suc n) received s h k =
      elim (Bytes-cases (socket.recv (suc n) s).0) [
        | inl e ↦ absurd (omega (arith, ap length (stream.at_end (suc n) s (omega arith) e)))
        | inr (b, bs, e) ↦
            let s' = (socket.recv (suc n) s).1 in
            let (short, whole, front, back) = piece (suc n) b bs s e in
            let more : length (b ∷ bs) + length (incoming s') ≡ length (incoming s) =
              sym (length-append (b ∷ bs) _) ∙ ap length whole in
            let (end, got, left) =
              recv_loop-enough fuel (suc n - length (b ∷ bs)) (received ++ b ∷ bs) s' (omega arith)
                (omega arith) in
            (
              end,
              rw (e, recv_loop)
                  (got
                    ∙ ap (λ r. (some r, end))
                        (append_assoc received (b ∷ bs) _ ∙ ap (λ t. received ++ t) front)),
              left ∙ back,
            )
      ]

  recv_loop-short :
      (fuel n : ℕ) (received : Bytes) (s : S)
      → n ≤ fuel
      → length (incoming s) < n
      → (recv_loop socket fuel n received s).0 ≡ none
  unfolding recv_loop
  recv_loop-short fuel zero received s h k = absurd (omega arith)
  recv_loop-short zero (suc n) received s h k = absurd (omega arith)
  recv_loop-short (suc fuel) (suc n) received s h k = elim (Bytes-cases (socket.recv (suc n) s).0) [
    | inl e ↦ rw (e, recv_loop) refl
    | inr (b, bs, e) ↦
        let s' = (socket.recv (suc n) s).1 in
        let (short, whole, _, _) = piece (suc n) b bs s e in
        let more : length (b ∷ bs) + length (incoming s') ≡ length (incoming s) =
          sym (length-append (b ∷ bs) _) ∙ ap length whole in
        rw (e, recv_loop)
          (recv_loop-short fuel (suc n - length (b ∷ bs)) (received ++ b ∷ bs) s' (omega arith)
            (omega arith))
  ]

  -- However `recv` cuts the bytes, the loop returns the next `n` of them and leaves the others.
  pub recv_exactly-enough :
      (n : ℕ) (s : S)
      → n ≤ length (incoming s)
      → (s' : S) × (recv_exactly socket n s ≡ (some (take n (incoming s)), s'))
        × (incoming s' ≡ drop n (incoming s))
  unfolding recv_exactly
  recv_exactly-enough n s k = recv_loop-enough n n [] s (omega arith) k

  pub recv_exactly-short :
      (n : ℕ) (s : S) → length (incoming s) < n → (recv_exactly socket n s).0 ≡ none
  unfolding recv_exactly
  recv_exactly-short n s k = recv_loop-short n n [] s (omega arith) k

  pub recv_exactly-front :
      (n : ℕ) (front rest : Bytes) (s : S)
      → length front ≡ n
      → incoming s ≡ front ++ rest
      → (s' : S) × (recv_exactly socket n s ≡ (some front, s')) × (incoming s' ≡ rest)
  recv_exactly-front n front rest s k e =
      let long : n ≤ length (incoming s) = omega (arith, ap length e, length-append front rest) in
      let (s', got, left) = recv_exactly-enough n s long in
      (
        s',
        got
            ∙ ap (λ t. (some t, s'))
                (ap (take n) e
                  ∙ ap (λ k. take k (front ++ rest)) (sym k)
                  ∙ take-append_length front rest),
        left
            ∙ ap (drop n) e
            ∙ ap (λ k. drop k (front ++ rest)) (sym k)
            ∙ drop-append_length front rest,
      )
