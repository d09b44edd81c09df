-- ===== src/Ipc/Client.antt =====
-- `IpcClient` of src/sms_relay_cli/ipc/ipc_client.cpp on any network.
pub mod Exchange
use sms_relay.Base.{
  ℕ, zero, suc, Bool, true, false, not, Option, none, some, List, [], ◌∷◌, ◌++◌, Bytes, ◌==◌,
  if◌then◌else◌,
}
use sms_relay.Base.Text.{to_string}
use sms_relay.Config.Types.{ℤ, pos, negsuc}
use sms_relay.Ipc.Protocol.{ipc_magic}
use sms_relay.Ipc.Header.{Header, parse_header}
use sms_relay.Ipc.Socket.{Socket, recv_exactly}

-- `getaddrinfo` of a host and a port, `socket` for one of its addresses, and `connect`, with what
-- becomes of the socket.
pub record Network (A S : Type 0) : Type 0 where
  pub getaddrinfo : Bytes → Bytes → Option (List A)
  pub open_socket : A → Option S
  pub connect : S → A → Bool × S

-- `sock` is `none` for -1.
pub record IpcClient (S : Type 0) : Type 0 where
  pub host : Bytes
  pub port : ℤ
  pub sock : Option S
  pub connected : Bool

-- `std::to_string` of an `int`.
unfoldable pub int_text : ℤ → Bytes
int_text (pos n) = to_string n
int_text (negsuc n) = b'-' ∷ to_string (suc n)

module _ {S : Type 0} where
  unfoldable pub create : Bytes → ℤ → IpcClient S
  create host port = record { host = host; port = port; sock = none; connected = false }

  unfoldable pub disconnect : IpcClient S → IpcClient S
  disconnect c = if c.connected then record c { connected = false; sock = none } else c

module _ {A S : Type 0} where
  -- The loop over the addresses: whether a connection succeeded, and `sock_`.
  unfoldable pub try_addresses : Network A S → Option S → List A → Bool × Option S
  try_addresses network sock [] = (false, sock)
  try_addresses network sock (rp ∷ rest) = elim (network.open_socket rp) [
    | none ↦ try_addresses network none rest
    | some s ↦
        let (reached, s') = network.connect s rp in
        elim reached [ true ↦ (true, some s') | false ↦ try_addresses network none rest ]
  ]

  unfoldable pub connect_to : Network A S → Option (List A) → IpcClient S → Bool × IpcClient S
  unfolding try_addresses
  connect_to network none c = (false, c)
  connect_to network (some result) c =
      let (connected, sock) = try_addresses network c.sock result in
      (connected, record c { sock = sock; connected = connected })

  unfoldable pub connect : Network A S → IpcClient S → Bool × IpcClient S
  unfolding connect_to int_text
  connect network c =
      if c.connected
      then (true, c)
      else connect_to network (network.getaddrinfo c.host (int_text c.port)) c

-- A command ends with a response or with an empty vector; where it breaks off, the client is
-- disconnected.
module _ {S : Type 0} (socket : Socket S) where
  abbrev pub on_socket : S → IpcClient S → IpcClient S
  on_socket s c = record c { sock = some s }

  unfoldable pub receive_rest : Bytes → ℕ → S → IpcClient S → Bytes × IpcClient S
  unfolding recv_exactly disconnect
  receive_rest header_buf zero s c = (header_buf, on_socket s c)
  receive_rest header_buf (suc length) s c =
      let (payload, s') = recv_exactly socket (suc length) s in
      elim payload [
        | none ↦ ([], disconnect (on_socket s' c))
        | some bytes ↦ (header_buf ++ bytes, on_socket s' c)
      ]

  unfoldable pub receive_parsed :
      Bytes → Option (Header × ℕ) → S → IpcClient S → Bytes × IpcClient S
  unfolding receive_rest disconnect
  receive_parsed header_buf none s c = ([], disconnect (on_socket s c))
  receive_parsed header_buf (some (header, offset)) s c =
      if not (header.magic == ipc_magic)
      then ([], disconnect (on_socket s c))
      else receive_rest header_buf header.length s c

  unfoldable pub receive_response : S → IpcClient S → Bytes × IpcClient S
  unfolding recv_exactly receive_parsed parse_header disconnect
  receive_response s c =
      let (header, s') = recv_exactly socket 16 s in
      elim header [
        | none ↦ ([], disconnect (on_socket s' c))
        | some header_buf ↦ receive_parsed header_buf (parse_header header_buf) s' c
      ]

  -- `send` on no socket fails. A request that is sent in part counts as sent.
  unfoldable pub send_on : Option S → Bytes → IpcClient S → Bytes × IpcClient S
  unfolding receive_response disconnect
  send_on none request c = ([], disconnect c)
  send_on (some s) request c =
      let (sent, s') = socket.send request s in
      elim sent [ zero ↦ ([], disconnect (on_socket s' c)) | suc _ ↦ receive_response s' c ]

  unfoldable pub send_command : Bytes → IpcClient S → Bytes × IpcClient S
  unfolding send_on
  send_command request c = if not c.connected then ([], c) else send_on c.sock request c
