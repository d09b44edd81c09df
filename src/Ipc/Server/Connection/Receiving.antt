-- ===== src/Ipc/Server/Connection/Receiving.antt =====
-- How a client thread of `IpcServer` receives a request.
use sms_relay.Base.{
  ℕ, zero, suc, ◌≤◌, ◌<◌, ◌^◌, ◌≡◌, ◌≢◌, ◌⊎◌, refl, sym, ap, ◌∙◌, true, false, Option, none, some,
  [], ◌∷◌, ◌++◌, append_assoc, append-nil, if◌then◌else◌, Bytes, length, length-append, Bool-cases,
  inl, inr, arith,
}
use sms_relay.Ipc.Protocol.{ipc_magic}
use sms_relay.Ipc.Wire.{size_u32}
use sms_relay.Ipc.Header.{Header, parse_header}
use sms_relay.Ipc.Header.RoundTrip.{
  header_bytes, header_of, message, length-header_bytes, Is32Bit, parse_header-bytes,
  header_of-Is32Bit,
}
use sms_relay.Ipc.Socket.{Socket}
use sms_relay.Ipc.Socket.Stream.{IsStream, recv_exactly-front, recv_exactly-short}
use sms_relay.Ipc.Server.Connection.{
  max_payload_size, is_acceptable, receive_payload, checked_payload, receive_request,
}

-- A request as its bytes tell it.
pub record Request : Type 0 where
  pub code : ℕ
  pub seq : ℕ
  pub payload : Bytes

pub record IsAccepted (r : Request) : Type 0 where
  pub code_bound : r.code < 2 ^ 32
  pub seq_bound : r.seq < 2 ^ 32
  pub payload_bound : length r.payload ≤ max_payload_size

abbrev pub bytes_of : Request → Bytes
bytes_of r = message r.code r.seq r.payload

-- What no request can start with: too few bytes for a header, a header with another magic number
-- or with a length above `max_payload_size`, or fewer bytes behind it than it announces.
pub data IsBroken (bytes : Bytes) : Type 0 where
  no_header : length bytes < 16 → IsBroken bytes
  bad_magic :
      (h : Header) (rest : Bytes)
      → Is32Bit h
      → bytes ≡ header_bytes h ++ rest
      → h.magic ≢ ipc_magic
      → IsBroken bytes
  too_large :
      (h : Header) (rest : Bytes)
      → Is32Bit h
      → bytes ≡ header_bytes h ++ rest
      → max_payload_size < h.length
      → IsBroken bytes
  truncated :
      (h : Header) (rest : Bytes)
      → Is32Bit h
      → bytes ≡ header_bytes h ++ rest
      → length rest < h.length
      → IsBroken bytes

module _ {S : Type 0} (socket : Socket S) (incoming : S → Bytes)
    (stream : IsStream socket incoming) where
  receive_payload-whole :
      (header payload rest : Bytes) (s : S)
      → incoming s ≡ payload ++ rest
      → (s' : S) × (receive_payload socket header (length payload) s
          ≡ (some (header ++ payload), s'))
        × (incoming s' ≡ rest)
  unfolding receive_payload
  receive_payload-whole header [] rest s e = (s, ap (λ t. (some t, s)) (sym (append-nil header)), e)
  receive_payload-whole header (b ∷ bs) rest s e =
      let (s', got, left) =
        recv_exactly-front socket incoming stream (length (b ∷ bs)) (b ∷ bs) rest s refl e in
      (
        s',
        ap
            (λ r.
              (elim r.0 as (λ _. Option Bytes) [ none ↦ none | some t ↦ some (header ++ t) ], r.1))
            got,
        left,
      )

  acceptable :
      (h : Header) → h.magic ≡ ipc_magic → h.length ≤ max_payload_size → is_acceptable h ≡ true
  unfolding is_acceptable
  acceptable h m k = ground (arith, m, k)

  -- What happens behind the header.
  receive_request-header :
      (h : Header) (rest : Bytes) (s : S)
      → Is32Bit h
      → incoming s ≡ header_bytes h ++ rest
      → (s' : S) × (receive_request socket s
          ≡ checked_payload socket (header_bytes h) (some (h, 16)) s')
        × (incoming s' ≡ rest)
  unfolding receive_request
  receive_request-header h rest s b e =
      let (s', got, left) =
        recv_exactly-front socket incoming stream 16 (header_bytes h) rest s (length-header_bytes h)
          e in
      let n = length-header_bytes h in
      let parsed : parse_header (header_bytes h) ≡ some (h, 16) =
        ap parse_header (sym (append-nil (header_bytes h)))
        ∙ parse_header-bytes h [] b (omega (arith, length-append (header_bytes h) [])) in
      (
        s',
        ap
              (λ r. elim r.0 as (λ _. Option Bytes × S) [
                | none ↦ (none, r.1)
                | some t ↦ checked_payload socket t (parse_header t) r.1
              ])
              got
            ∙ ap (λ p. checked_payload socket (header_bytes h) p s') parsed,
        left,
      )

  refused :
      (h : Header) → (h.magic ≢ ipc_magic) ⊎ (max_payload_size < h.length) → is_acceptable h ≡ false
  unfolding is_acceptable
  refused h bad = ground (arith, bad)

  receive_payload-short :
      (header : Bytes) (n : ℕ) (s : S)
      → length (incoming s) < n
      → (receive_payload socket header n s).0 ≡ none
  unfolding receive_payload
  receive_payload-short header zero s k = absurd (omega arith)
  receive_payload-short header (suc n) s k =
      ap (λ p. elim p as (λ _. Option Bytes) [ none ↦ none | some t ↦ some (header ++ t) ])
        (recv_exactly-short socket incoming stream (suc n) s k)

  refused_header :
      (h : Header) (rest : Bytes) (s : S)
      → Is32Bit h
      → incoming s ≡ header_bytes h ++ rest
      → is_acceptable h ≡ false
      → (receive_request socket s).0 ≡ none
  unfolding checked_payload
  refused_header h rest s b e bad =
      let (s', got, left) = receive_request-header h rest s b e in
      ap (λ z. z.0) got
      ∙ ap (λ b. (if b then receive_payload socket (header_bytes h) h.length s' else (none, s')).0)
          bad

  pub receive_request-broken : (s : S) → IsBroken (incoming s) → (receive_request socket s).0 ≡ none
  unfolding checked_payload receive_request
  receive_request-broken s (IsBroken.no_header k) =
      rw (recv_exactly-short socket incoming stream 16 s k, receive_request) refl
  receive_request-broken s (IsBroken.bad_magic h rest b e bad) =
      refused_header h rest s b e (refused h (inl bad))
  receive_request-broken s (IsBroken.too_large h rest b e bad) =
      refused_header h rest s b e (refused h (inr bad))
  receive_request-broken s (IsBroken.truncated h rest b e k) = elim (Bool-cases (is_acceptable h)) [
    | inr bad ↦ refused_header h rest s b e bad
    | inl good ↦
        let (s', got, left) = receive_request-header h rest s b e in
        ap (λ z. z.0) got
        ∙ ap
            (λ b. (if b then receive_payload socket (header_bytes h) h.length s' else (none, s')).0)
            good
        ∙ receive_payload-short (header_bytes h) h.length s' (omega (arith, ap length left))
  ]

  -- A request in front of what comes in is received as it was sent, and no more is taken.
  pub receive_request-message :
      (r : Request) (rest : Bytes) (s : S)
      → IsAccepted r
      → incoming s ≡ bytes_of r ++ rest
      → (s' : S) × (receive_request socket s ≡ (some (bytes_of r), s')) × (incoming s' ≡ rest)
  unfolding message checked_payload
  receive_request-message r rest s a e =
      let h = header_of r.code r.seq r.payload in
      let (s₁, got, left) =
        receive_request-header h (r.payload ++ rest) s
          (header_of-Is32Bit r.code r.seq r.payload a.code_bound a.seq_bound)
          (e ∙ append_assoc (header_bytes h) r.payload rest) in
      let (s', whole, left') = receive_payload-whole (header_bytes h) r.payload rest s₁ left in
      let size : size_u32 r.payload ≡ length r.payload = omega (arith, a.payload_bound) in
      let passed : is_acceptable h ≡ true = acceptable h refl (omega (arith, a.payload_bound)) in
      (
        s',
        got
            ∙ ap
                (λ b. if b then receive_payload socket (header_bytes h) h.length s₁ else (none, s₁))
                passed
            ∙ ap (λ n. receive_payload socket (header_bytes h) n s₁) size
            ∙ whole,
        left',
      )
