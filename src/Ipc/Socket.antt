-- ===== src/Ipc/Socket.antt =====
-- The sockets of the operating system, which the server and the client of the protocol are given,
-- and the loop in which both receive (src/sms_relay/ipc/ipc_server.cpp).
pub mod Stream
use sms_relay.Base.{
  ℕ, zero, suc, ◌-◌, Bool, Option, none, some, List, [], ◌∷◌, ◌++◌, Bytes, length, ltb,
  if◌then◌else◌,
}

-- `recv` with the number of bytes it may return: what it returns, which is empty where the result
-- is zero or negative. `send` returns the number of bytes sent, which is 0 where it fails.
pub record Socket (S : Type 0) : Type 0 where
  pub recv : ℕ → S → Bytes × S
  pub send : Bytes → S → ℕ × S

module _ {S : Type 0} (socket : Socket S) where
  -- `received` is the buffer so far, and `n` how much of it is missing. Every round but the last
  -- receives a byte, so `n` rounds are enough.
  unfoldable pub recv_loop : ℕ → ℕ → Bytes → S → Option Bytes × S
  recv_loop zero n received s = (some received, s)
  recv_loop (suc fuel) zero received s = (some received, s)
  recv_loop (suc fuel) (suc n) received s =
      let (bytes, s') = socket.recv (suc n) s in
      elim bytes [
        | [] ↦ (none, s')
        | b ∷ bs ↦ recv_loop fuel (suc n - length (b ∷ bs)) (received ++ b ∷ bs) s'
      ]

  unfoldable pub recv_exactly : ℕ → S → Option Bytes × S
  unfolding recv_loop
  recv_exactly n s = recv_loop n n [] s
