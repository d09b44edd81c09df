-- ===== src/Ipc/Client/Exchange.antt =====
-- A command of the client and the response to it.
use sms_relay.Base.{
  ℕ, zero, suc, ◌-◌, ◌⊎◌, inl, inr, Bool-cases, ◌<◌, ◌^◌, ◌≡◌, ◌≢◌, refl, sym, ap, ◌∙◌, true, false,
  not, none, some, [], ◌∷◌, ◌++◌, append_assoc, append-nil, Bytes, length, length-append, ◌==◌,
  if◌then◌else◌, arith,
}
use sms_relay.Ipc.Protocol.{ipc_magic, Status, status_code}
use sms_relay.Ipc.Wire.{size_u32, serialize_response}
use sms_relay.Ipc.Header.{Header, parse_header}
use sms_relay.Ipc.Header.RoundTrip.{
  header_bytes, header_of, message, response-message, length-header_bytes, Is32Bit,
  status_code-small, parse_header-bytes, header_of-Is32Bit,
}
use sms_relay.Ipc.Socket.{Socket, recv_exactly}
use sms_relay.Ipc.Socket.Stream.{IsStream, recv_exactly-front, recv_exactly-short}
use sms_relay.Ipc.Client.{
  IpcClient, on_socket, disconnect, receive_rest, receive_parsed, receive_response, send_on,
  send_command,
}

-- What is no response: too few bytes for a header, or a header with another magic number or with
-- fewer bytes behind it than it announces.
pub data IsCut (bytes : Bytes) : Type 0 where
  no_header : length bytes < 16 → IsCut bytes
  bad_header :
      (h : Header) (rest : Bytes)
      → Is32Bit h
      → bytes ≡ header_bytes h ++ rest
      → (h.magic ≢ ipc_magic) ⊎ (length rest < h.length)
      → IsCut bytes

module _ {S : Type 0} (socket : Socket S) (incoming : S → Bytes)
    (stream : IsStream socket incoming) where
  receive_rest-whole :
      (header payload rest : Bytes) (s : S) (c : IpcClient S)
      → incoming s ≡ payload ++ rest
      → (s' : S) × (receive_rest socket header (length payload) s c
          ≡ (header ++ payload, on_socket socket s' c))
        × (incoming s' ≡ rest)
  unfolding receive_rest
  receive_rest-whole header [] rest s c e =
      (s, ap (λ t. (t, on_socket socket s c)) (sym (append-nil header)), e)
  receive_rest-whole header (b ∷ bs) rest s c e =
      let (s', got, left) =
        recv_exactly-front socket incoming stream (length (b ∷ bs)) (b ∷ bs) rest s refl e in
      (
        s',
        ap
            (λ r. elim r.0 as (λ _. Bytes × IpcClient S) [
              | none ↦ ([], disconnect (on_socket socket r.1 c))
              | some t ↦ (header ++ t, on_socket socket r.1 c)
            ])
            got,
        left,
      )

  receive_response-message :
      (code seq : ℕ) (payload rest : Bytes) (s : S) (c : IpcClient S)
      → code < 2 ^ 32
      → seq < 2 ^ 32
      → length payload < 2 ^ 32
      → incoming s ≡ message code seq payload ++ rest
      → (s' : S) × (receive_response socket s c ≡ (message code seq payload, on_socket socket s' c))
        × (incoming s' ≡ rest)
  unfolding receive_response receive_parsed message
  receive_response-message code seq payload rest s c k q p e =
      let h = header_of code seq payload in
      let n = length-header_bytes h in
      let (s₁, got, left) =
        recv_exactly-front socket incoming stream 16 (header_bytes h) (payload ++ rest) s n
          (e ∙ append_assoc (header_bytes h) payload rest) in
      let parsed : parse_header (header_bytes h) ≡ some (h, 16) =
        ap parse_header (sym (append-nil (header_bytes h)))
        ∙ parse_header-bytes h [] (header_of-Is32Bit code seq payload k q)
            (omega (arith, length-append (header_bytes h) [])) in
      let size : size_u32 payload ≡ length payload = omega arith in
      let (s', whole, left') = receive_rest-whole (header_bytes h) payload rest s₁ c left in
      (
        s',
        ap
              (λ r. elim r.0 as (λ _. Bytes × IpcClient S) [
                | none ↦ ([], disconnect (on_socket socket r.1 c))
                | some t ↦ receive_parsed socket t (parse_header t) r.1 c
              ])
              got
            ∙ ap (λ z. receive_parsed socket (header_bytes h) z s₁ c) parsed
            ∙ ap (λ z. receive_rest socket (header_bytes h) z s₁ c) size
            ∙ whole,
        left',
      )

  send_command-sent :
      (request : Bytes) (s : S) (c : IpcClient S)
      → c.connected ≡ true
      → c.sock ≡ some s
      → 0 < (socket.send request s).0
      → send_command socket request c ≡ receive_response socket (socket.send request s).1 c
  unfolding send_command send_on
  send_command-sent request s c connected sock sent =
      let some_sent : (socket.send request s).0 ≡ suc ((socket.send request s).0 - 1) =
        omega arith in
      ap (λ z. if not z then ([], c) else send_on socket c.sock request c) connected
      ∙ ap (λ z. send_on socket z request c) sock
      ∙ ap
          (λ n. elim n as (λ _. Bytes × IpcClient S) [
            | zero ↦ ([], disconnect (on_socket socket (socket.send request s).1 c))
            | suc _ ↦ receive_response socket (socket.send request s).1 c
          ])
          some_sent

  -- A connected client whose request is taken by `send`, in whole or in part, and to which a
  -- response comes, returns the response as it was sent, however `recv` cuts it; it stays connected
  -- and takes nothing of what follows. The sequence number and the length of the payload of the
  -- response fit in 32 bits.
  pub send_command-response :
      (request : Bytes) (status : Status) (seq : ℕ) (payload rest : Bytes) (s : S) (c : IpcClient S)
      → c.connected ≡ true
      → c.sock ≡ some s
      → 0 < (socket.send request s).0
      → seq < 2 ^ 32
      → length payload < 2 ^ 32
      → incoming (socket.send request s).1 ≡ serialize_response status seq payload ++ rest
      → (s' : S) × (send_command socket request c
          ≡ (serialize_response status seq payload, on_socket socket s' c))
        × (incoming s' ≡ rest)
  send_command-response request status seq payload rest s c connected sock sent q p e =
      let s₁ = (socket.send request s).1 in
      let same = response-message status seq payload in
      let (s', got, left) =
        receive_response-message (status_code status) seq payload rest s₁ c
          (status_code-small status) q p (e ∙ ap (λ t. t ++ rest) same) in
      (
        s',
        send_command-sent request s c connected sock sent
            ∙ got
            ∙ ap (λ t. (t, on_socket socket s' c)) (sym same),
        left,
      )

  -- What becomes of a client that disconnects.
  abbrev dropped : IpcClient S → IpcClient S
  dropped c = record c { connected = false; sock = none }

  disconnect-on_socket :
      (s : S) (c : IpcClient S) → c.connected ≡ true → disconnect (on_socket socket s c) ≡ dropped c
  unfolding disconnect
  disconnect-on_socket s c e =
      ap (λ b. if b then record c { connected = false; sock = none } else on_socket socket s c) e

  receive_rest-short :
      (header : Bytes) (n : ℕ) (s : S) (c : IpcClient S)
      → c.connected ≡ true
      → length (incoming s) < n
      → receive_rest socket header n s c ≡ ([], dropped c)
  unfolding receive_rest
  receive_rest-short header zero s c e k = absurd (omega arith)
  receive_rest-short header (suc n) s c e k =
      ap
        (λ r. elim r as (λ _. Bytes × IpcClient S) [
          | none ↦ ([], disconnect (on_socket socket (recv_exactly socket (suc n) s).1 c))
          | some t ↦ (header ++ t, on_socket socket (recv_exactly socket (suc n) s).1 c)
        ])
        (recv_exactly-short socket incoming stream (suc n) s k)
      ∙ ap (λ z. ([], z)) (disconnect-on_socket _ c e)

  receive_header-broken :
      (h : Header) (rest : Bytes) (s : S) (c : IpcClient S)
      → c.connected ≡ true
      → Is32Bit h
      → incoming s ≡ header_bytes h ++ rest
      → (h.magic ≢ ipc_magic) ⊎ (length rest < h.length)
      → receive_response socket s c ≡ ([], dropped c)
  unfolding receive_response receive_parsed
  receive_header-broken h rest s c connected b e bad =
      let (s₁, got, left) =
        recv_exactly-front socket incoming stream 16 (header_bytes h) rest s (length-header_bytes h)
          e in
      let parsed : parse_header (header_bytes h) ≡ some (h, 16) =
        ap parse_header (sym (append-nil (header_bytes h)))
        ∙ parse_header-bytes h [] b
            (omega (arith, length-header_bytes h, length-append (header_bytes h) [])) in
      ap
        (λ r. elim r.0 as (λ _. Bytes × IpcClient S) [
          | none ↦ ([], disconnect (on_socket socket r.1 c))
          | some t ↦ receive_parsed socket t (parse_header t) r.1 c
        ])
        got
      ∙ ap (λ z. receive_parsed socket (header_bytes h) z s₁ c) parsed
      ∙ elim (Bool-cases (h.magic == ipc_magic)) [
        | inr other ↦
            ap
              (λ z.
                if not z
                then ([], disconnect (on_socket socket s₁ c))
                else receive_rest socket (header_bytes h) h.length s₁ c)
              other
            ∙ ap (λ z. ([], z)) (disconnect-on_socket s₁ c connected)
        | inl good ↦
            let short : length rest < h.length = ground (arith, bad, good) in
            ap
              (λ z.
                if not z
                then ([], disconnect (on_socket socket s₁ c))
                else receive_rest socket (header_bytes h) h.length s₁ c)
              good
            ∙ receive_rest-short (header_bytes h) h.length s₁ c connected
                (omega (arith, ap length left))
      ]

  -- If what comes back to a connected client is less than a header, has another magic number, or is
  -- shorter than its header says, the client returns an empty vector and is disconnected, with its
  -- socket closed.
  pub send_command-broken :
      (request : Bytes) (s : S) (c : IpcClient S)
      → c.connected ≡ true
      → c.sock ≡ some s
      → 0 < (socket.send request s).0
      → IsCut (incoming (socket.send request s).1)
      → send_command socket request c ≡ ([], record c { connected = false; sock = none })
  unfolding receive_response
  send_command-broken request s c connected sock sent (IsCut.no_header k) =
      let s₁ = (socket.send request s).1 in
      send_command-sent request s c connected sock sent
      ∙ ap
          (λ r. elim r as (λ _. Bytes × IpcClient S) [
            | none ↦ ([], disconnect (on_socket socket (recv_exactly socket 16 s₁).1 c))
            | some t ↦ receive_parsed socket t (parse_header t) (recv_exactly socket 16 s₁).1 c
          ])
          (recv_exactly-short socket incoming stream 16 s₁ k)
      ∙ ap (λ z. ([], z)) (disconnect-on_socket _ c connected)
  send_command-broken request s c connected sock sent (IsCut.bad_header h rest b e bad) =
      send_command-sent request s c connected sock sent
      ∙ receive_header-broken h rest (socket.send request s).1 c connected b e bad
