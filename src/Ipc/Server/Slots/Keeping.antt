-- ===== src/Ipc/Server/Slots/Keeping.antt =====
-- The steps of `IpcServer` that take no new client keep account of the sockets.
use sms_relay.Base.{
  ℕ, zero, suc, ◌+◌, ◌≡◌, refl, ap, ◌∙◌, Bool, true, false, not, ◌&&◌, Option, none, some, List, [],
  ◌∷◌, ◌++◌, All, length, get_elem?, if◌then◌else◌, arith, choose,
}
use sms_relay.Ipc.Server.Slots.{
  Handler, absent, alive, ended, ClientConnection, IpcServer, start, give_up, open_server, modify,
  shut, left, joined, is_alive, fds_of, close_slot, drop_client, cleanup, remove_client,
  shut_active, begin_stop, join_threads, end_stop,
}
use sms_relay.Ipc.Server.Slots.Ownership.{
  count, count-append, IsOwned, length-modify, total, IsSound, close_slot-total, close_slot-IsSound,
  modify-total, shut_active-total, join_threads-total,
}
use sms_relay.Ipc.Server.Slots.Events.{starts, opened}

-- A sound state that accounts for all that the state before did, and for `extra` more.
abbrev pub Accounts : ℕ → ℕ → IpcServer → IpcServer → Type 0
Accounts fd extra s s' = IsSound s' × (total fd s' ≡ total fd s + extra)

open_server_sound :
    (fd : ℕ) (given : Option ℕ) (usable : Bool) (s : IpcServer)
    → IsSound s
    → s.server_fd ≡ none
    → Accounts fd (count fd (fds_of given)) s (open_server given usable s).1
unfolding open_server give_up
open_server_sound fd none usable s sound empty = (
  record { owned = sound.owned; idle = λ _. refl; slots = sound.slots },
  omega (arith, ap (λ o. count fd (fds_of o)) empty),
)
open_server_sound fd (some given) true s sound empty = (
  record { owned = sound.owned; idle = λ e. cc e; slots = sound.slots },
  omega (arith, ap (λ o. count fd (fds_of o)) empty),
)
open_server_sound fd (some given) false s sound empty = (
  record { owned = sound.owned; idle = λ _. refl; slots = sound.slots },
  omega (arith, ap (λ o. count fd (fds_of o)) empty, count-append fd s.closed (given ∷ [])),
)

pub start_sound :
    (fd : ℕ) (given : Option ℕ) (bound listening : Bool) (s : IpcServer)
    → IsSound s
    → Accounts fd
        (count fd (opened (starts given bound listening) s))
        s
        (start given bound listening s).1
unfolding start
start_sound fd given bound listening s sound =
    let rest = λ (b : Bool). count fd (if b then [] else fds_of given) in
    choose (λ r. Accounts fd (rest s.running) s r.1) s.running (false, s)
      (open_server given (bound && listening) s) (λ e. (sound, omega (arith, ap rest e)))
      (λ e.
        let (still, sum) = open_server_sound fd given (bound && listening) s sound (sound.idle e) in
        (still, omega (arith, sum, ap rest e)))

pub drop_client_sound : (fd i : ℕ) (s : IpcServer) → IsSound s → Accounts fd 0 s (drop_client i s)
unfolding drop_client
drop_client_sound fd i s sound = (
  record {
    owned = drop-IsOwned i s.clients sound.owned;
    idle = sound.idle;
    slots = length-modify (λ c. record c { active = false }) i s.clients ∙ sound.slots;
  },
  omega (arith, modify-total fd (λ c. record c { active = false }) i s.clients (λ c. refl)),
)
  where
    drop-IsOwned :
        (i : ℕ) (clients : List ClientConnection)
        → All IsOwned clients
        → All IsOwned (modify (λ c. record c { active = false }) i clients)
    drop-IsOwned i [] all = tt
    drop-IsOwned zero (c ∷ clients) (first, others) = (first, others)
    drop-IsOwned (suc i) (c ∷ clients) (first, others) = (first, drop-IsOwned i clients others)

pub unchanged : (fd : ℕ) (s : IpcServer) → IsSound s → Accounts fd 0 s s
unchanged fd s sound = (sound, omega arith)

pub close_slot_sound :
    (fd : ℕ) (f : ClientConnection → ClientConnection) (i : ℕ) (s : IpcServer)
    → ((c : ClientConnection) → (f c).socket_fd ≡ none)
    → ((c : ClientConnection) → IsOwned (f c))
    → IsSound s
    → Accounts fd 0 s (close_slot f i s)
close_slot_sound fd f i s h k sound =
    (close_slot-IsSound f i s k sound, omega (arith, close_slot-total fd f i s h))

shut-IsOwned : (c : ClientConnection) → IsOwned (shut c)
shut-IsOwned c = owned_by c.handler_thread
  where
    owned_by :
        (h : Handler)
        → IsOwned
            (record { socket_fd = none; address = c.address; handler_thread = h; active = false })
    owned_by absent = refl
    owned_by alive = tt
    owned_by ended = refl

pub cleanup_sound : (fd i : ℕ) (s : IpcServer) → IsSound s → Accounts fd 0 s (cleanup i s)
unfolding cleanup
cleanup_sound fd i s sound = by_slot (get_elem? s.clients i)
  where
    by_slot :
        (found : Option ClientConnection)
        → Accounts fd 0 s (elim found [
          | none ↦ s
          | some client ↦ if is_alive client.handler_thread then close_slot left i s else s
        ])
    by_slot none = unchanged fd s sound
    by_slot (some client) =
        choose (Accounts fd 0 s) (is_alive client.handler_thread) (close_slot left i s) s
          (λ _. close_slot_sound fd left i s (λ c. refl) (λ c. refl) sound)
          (λ _. unchanged fd s sound)

pub remove_client_sound :
    (fd i : ℕ) (s : IpcServer) → IsSound s → Accounts fd 0 s (remove_client i s)
unfolding remove_client
remove_client_sound fd i s sound = by_slot (get_elem? s.clients i)
  where
    by_slot :
        (found : Option ClientConnection)
        → Accounts fd 0 s (elim found [
          | none ↦ s
          | some client ↦ if not client.active then s else close_slot shut i s
        ])
    by_slot none = unchanged fd s sound
    by_slot (some client) =
        choose (Accounts fd 0 s) (not client.active) s (close_slot shut i s)
          (λ _. unchanged fd s sound)
          (λ _. close_slot_sound fd shut i s (λ c. refl) shut-IsOwned sound)

shut_active-IsOwned :
    (clients : List ClientConnection)
    → All IsOwned clients
    → All IsOwned (shut_active clients).1 × (length (shut_active clients).1 ≡ length clients)
unfolding shut_active
shut_active-IsOwned [] all = (tt, refl)
shut_active-IsOwned (c ∷ clients) (first, others) =
    let (rest, size) = shut_active-IsOwned clients others in
    choose
      (λ (r : List ℕ × List ClientConnection).
        All IsOwned r.1 × (length r.1 ≡ suc (length clients)))
      c.active (fds_of c.socket_fd ++ (shut_active clients).0, shut c ∷ (shut_active clients).1)
      ((shut_active clients).0, c ∷ (shut_active clients).1)
      (λ _. ((shut-IsOwned c, rest), ap suc size)) (λ _. ((first, rest), ap suc size))

pub begin_stop_sound : (fd : ℕ) (s : IpcServer) → IsSound s → Accounts fd 0 s (begin_stop s)
unfolding begin_stop
begin_stop_sound fd s sound =
    let (rest, size) = shut_active-IsOwned s.clients sound.owned in
    choose (Accounts fd 0 s) (not s.running) s _ (λ _. unchanged fd s sound)
      (λ _. (
        record { owned = rest; idle = λ _. refl; slots = size ∙ sound.slots },
        omega (
          arith,
          shut_active-total fd s.clients,
          count-append fd s.closed (fds_of s.server_fd ++ (shut_active s.clients).0),
          count-append fd (fds_of s.server_fd) (shut_active s.clients).0,
        ),
      ))

join_threads-IsOwned :
    (clients : List ClientConnection)
    → All IsOwned clients
    → All IsOwned (join_threads clients).1 × (length (join_threads clients).1 ≡ length clients)
unfolding join_threads
join_threads-IsOwned [] all = (tt, refl)
join_threads-IsOwned (c ∷ clients) (first, others) =
    let (rest, size) = join_threads-IsOwned clients others in
    choose
      (λ (r : List ℕ × List ClientConnection).
        All IsOwned r.1 × (length r.1 ≡ suc (length clients)))
      (is_alive c.handler_thread)
      (fds_of c.socket_fd ++ (join_threads clients).0, joined c ∷ (join_threads clients).1)
      ((join_threads clients).0, record c { handler_thread = absent } ∷ (join_threads clients).1)
      (λ _. ((refl, rest), ap suc size)) (λ e. ((ground (arith, e, first), rest), ap suc size))

pub end_stop_sound : (fd : ℕ) (s : IpcServer) → IsSound s → Accounts fd 0 s (end_stop s)
unfolding end_stop
end_stop_sound fd s sound =
    let (rest, size) = join_threads-IsOwned s.clients sound.owned in
    let (sum, empty) = join_threads-total fd s.clients sound.owned in
    (
      record { owned = rest; idle = sound.idle; slots = size ∙ sound.slots },
      omega (arith, sum, ap (count fd) empty, count-append fd s.closed (join_threads s.clients).0),
    )
