-- ===== src/Ipc/Server/Connection/Requests.antt =====
-- What a client thread of `IpcServer` does with the bytes that come in.
use sms_relay.Base.{
  ℕ, zero, suc, ◌≡◌, refl, sym, ap, ◌∙◌, Bool, true, false, Option, none, some, List, [], ◌∷◌, ◌++◌,
  append_assoc, append-nil, Bytes, length, ◌-◌, Bool-cases, Option-cases, inl, inr,
}
use sms_relay.Base.Result.{Error}
use sms_relay.Sms.Service.{Modem, Service}
use sms_relay.Ipc.Protocol.{SmsInfo}
use sms_relay.Ipc.Header.{Header, parse_header}
use sms_relay.Ipc.Socket.{Socket, recv_loop, recv_exactly}
use sms_relay.Ipc.Socket.Stream.{IsStream, IsSender, Bytes-cases}
use sms_relay.Ipc.Server.{process_command}
use sms_relay.Ipc.Server.Connection.{
  is_acceptable, receive_payload, checked_payload, receive_request, send_response, answer, serve,
  handle_client_thread,
}
use sms_relay.Ipc.Server.Connection.Receiving.{
  Request, IsAccepted, IsBroken, bytes_of, receive_request-message, receive_request-broken,
}

-- The rounds of a thread that goes on, at the times of the requests.
abbrev pub rounds_of : List (ℕ × Request) → List (Bool × ℕ)
rounds_of [] = []
rounds_of ((now, r) ∷ requests) = (true, now) ∷ rounds_of requests

abbrev pub joined_bytes : List (ℕ × Request) → Bytes
joined_bytes [] = []
joined_bytes ((now, r) ∷ requests) = bytes_of r ++ joined_bytes requests

abbrev pub AllAccepted : List (ℕ × Request) → Type 0
AllAccepted [] = Unit
AllAccepted ((now, r) ∷ requests) = IsAccepted r × AllAccepted requests

module _ {M : Type 0} (port : ℕ) (unset : SmsInfo) (modem : Modem M) (left_first : Bool)
    (what : Error → Bytes) where
  -- `process_command` for each request in turn, and the answers in a row.
  abbrev pub answer_each : List (ℕ × Request) → Service → M → Bytes × Service × M
  answer_each [] service m = ([], service, m)
  answer_each ((now, r) ∷ requests) service m =
      let (response, service', m') =
        process_command port unset modem left_first what now (bytes_of r) service m in
      let (responses, service'', m'') = answer_each requests service' m' in
      (response ++ responses, service'', m'')

module _ {M S : Type 0} (socket : Socket S) (incoming outgoing : S → Bytes)
    (stream : IsStream socket incoming) (sender : IsSender socket incoming outgoing) (port : ℕ)
    (unset : SmsInfo) (modem : Modem M) (left_first : Bool) (what : Error → Bytes) where
  send_response-out :
      (response : Bytes) (s : S)
      → (outgoing (send_response socket response s) ≡ outgoing s ++ response)
        × (incoming (send_response socket response s) ≡ incoming s)
  unfolding send_response
  send_response-out [] s = (sym (append-nil (outgoing s)), refl)
  send_response-out (b ∷ bs) s = (sender.behind (b ∷ bs) s, sender.apart (b ∷ bs) s)

  recv_loop-quiet :
      (fuel n : ℕ) (received : Bytes) (s : S)
      → outgoing (recv_loop socket fuel n received s).1 ≡ outgoing s
  unfolding recv_loop
  recv_loop-quiet zero n received s = refl
  recv_loop-quiet (suc fuel) zero received s = refl
  recv_loop-quiet (suc fuel) (suc n) received s = elim (Bytes-cases (socket.recv (suc n) s).0) [
    | inl e ↦ rw (e, recv_loop) (sender.quiet (suc n) s)
    | inr (b, bs, e) ↦
        rw (e, recv_loop)
          (recv_loop-quiet fuel (suc n - length (b ∷ bs)) (received ++ b ∷ bs)
              (socket.recv (suc n) s).1
            ∙ sender.quiet (suc n) s)
  ]

  recv_exactly-quiet : (n : ℕ) (s : S) → outgoing (recv_exactly socket n s).1 ≡ outgoing s
  unfolding recv_exactly
  recv_exactly-quiet n s = recv_loop-quiet n n [] s

  receive_payload-quiet :
      (header : Bytes) (n : ℕ) (s : S) → outgoing (receive_payload socket header n s).1 ≡ outgoing s
  unfolding receive_payload
  receive_payload-quiet header zero s = refl
  receive_payload-quiet header (suc n) s = recv_exactly-quiet (suc n) s

  checked_payload-quiet :
      (header : Bytes) (parsed : Option (Header × ℕ)) (s : S)
      → outgoing (checked_payload socket header parsed s).1 ≡ outgoing s
  unfolding checked_payload
  checked_payload-quiet header none s = refl
  checked_payload-quiet header (some (h, offset)) s = elim (Bool-cases (is_acceptable h)) [
    | inl e ↦ rw (e, checked_payload) (receive_payload-quiet header h.length s)
    | inr e ↦ rw (e, checked_payload) refl
  ]

  -- Receiving sends nothing.
  receive_request-quiet : (s : S) → outgoing (receive_request socket s).1 ≡ outgoing s
  unfolding receive_request
  receive_request-quiet s = elim (Option-cases (recv_exactly socket 16 s).0) [
    | inl e ↦ rw (e, receive_request) (recv_exactly-quiet 16 s)
    | inr (header, e) ↦
        rw (e, receive_request)
          (checked_payload-quiet header (parse_header header) _ ∙ recv_exactly-quiet 16 s)
  ]

  serve-request :
      (now : ℕ) (r : Request) (rest : Bytes) (s : S) (service : Service) (m : M)
      → IsAccepted r
      → incoming s ≡ bytes_of r ++ rest
      → let (response, service', m') =
          process_command port unset modem left_first what now (bytes_of r) service m in
        (s' : S) × (serve socket port unset modem left_first what now s service m
          ≡ (true, s', service', m'))
        × (incoming s' ≡ rest)
        × (outgoing s' ≡ outgoing s ++ response)
  unfolding serve answer
  serve-request now r rest s service m a e =
      let (s₁, got, left) = receive_request-message socket incoming stream r rest s a e in
      let response =
        (process_command port unset modem left_first what now (bytes_of r) service m).0 in
      let (out, come) = send_response-out response s₁ in
      let calm : outgoing s₁ ≡ outgoing s =
        ap (λ z. outgoing z.1) (sym got) ∙ receive_request-quiet s in
      (
        send_response socket response s₁,
        ap (λ z. answer socket port unset modem left_first what now z.0 z.1 service m) got,
        come ∙ left,
        out ∙ ap (λ t. t ++ response) calm,
      )

  -- On a socket that keeps the order of the bytes and sends an answer whole, and however `recv` cuts
  -- the bytes, requests that came in a row are answered one after the other, in
  -- their order: the thread is still in its loop, it has sent the answers in a row and nothing
  -- else, the service and the modem are as the commands left them, and what follows the requests is
  -- not touched. A request counts if its code and number fit in 32 bits and its payload has no more
  -- than `max_payload_size` bytes.
  pub handle_client_thread-requests :
      (requests : List (ℕ × Request)) (rest : Bytes) (s : S) (service : Service) (m : M)
      → AllAccepted requests
      → incoming s ≡ joined_bytes requests ++ rest
      → let (responses, service', m') =
          answer_each port unset modem left_first what requests service m in
        (s' : S) × (handle_client_thread socket port unset modem left_first what
            (rounds_of requests)
            s
            service
            m
          ≡ (true, s', service', m'))
        × (incoming s' ≡ rest)
        × (outgoing s' ≡ outgoing s ++ responses)
  unfolding handle_client_thread
  handle_client_thread-requests [] rest s service m a e =
      (s, refl, e, sym (append-nil (outgoing s)))
  handle_client_thread-requests ((now, r) ∷ requests) rest s service m (a, others) e =
      let (response, service', m') =
        process_command port unset modem left_first what now (bytes_of r) service m in
      let (s₁, served, left, out) =
        serve-request now r (joined_bytes requests ++ rest) s service m a
          (e ∙ append_assoc (bytes_of r) (joined_bytes requests) rest) in
      let (s', more, left', out') =
        handle_client_thread-requests requests rest s₁ service' m' others left in
      (
        s',
        ap
              (λ z. elim z.0 as (λ _. Bool × S × Service × M) [
                | false ↦ (false, z.1, z.2, z.3)
                | true ↦
                    handle_client_thread socket port unset modem left_first what
                      (rounds_of requests) z.1 z.2 z.3
              ])
              served
            ∙ more,
        left',
        out'
            ∙ ap (λ t. t ++ (answer_each port unset modem left_first what requests service' m').0)
                out
            ∙ append_assoc (outgoing s) response _,
      )

  -- At a broken request (too few bytes for a header, another magic number, a length above
  -- `max_payload_size`, or fewer bytes of payload than announced) on a socket that keeps the order
  -- of the bytes and sends an answer whole, the thread ends: nothing is sent, and the service and
  -- the modem stay as they are.
  pub handle_client_thread-broken :
      (now : ℕ) (rounds : List (Bool × ℕ)) (s : S) (service : Service) (m : M)
      → IsBroken (incoming s)
      → (s' : S) × (handle_client_thread socket port unset modem left_first what
            ((true, now) ∷ rounds)
            s
            service
            m
          ≡ (false, s', service, m))
        × (outgoing s' ≡ outgoing s)
  unfolding handle_client_thread serve answer
  handle_client_thread-broken now rounds s service m broken =
      let none_there = receive_request-broken socket incoming stream s broken in
      (
        (receive_request socket s).1,
        ap
            (λ r.
              let z =
                answer socket port unset modem left_first what now r (receive_request socket s).1
                  service m in
              elim z.0 as (λ _. Bool × S × Service × M) [
                | false ↦ (false, z.1, z.2, z.3)
                | true ↦
                    handle_client_thread socket port unset modem left_first what rounds z.1 z.2 z.3
              ])
            none_there,
        receive_request-quiet s,
      )
