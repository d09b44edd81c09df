-- ===== src/Ipc/Server/Slots/Ownership.antt =====
-- Who owns the sockets of `IpcServer`.
use sms_relay.Base.{
  ℕ, zero, suc, ◌+◌, ◌≡◌, refl, sym, ap, ◌∙◌, false, Option, none, some, List, [], ◌∷◌, ◌++◌, All,
  length, get_elem?, ◌==◌, if◌then◌else◌, arith, inl, inr, Bool-cases, Option-cases,
}
use mathlib.Core.Path.{subst}
use sms_relay.Ipc.Server.Slots.{
  Handler, absent, alive, ended, ClientConnection, IpcServer, find_available_client_slot, modify,
  shut, is_alive, fds_of, close_slot, shut_active, join_threads,
}

abbrev pub count : ℕ → List ℕ → ℕ
count fd [] = 0
count fd (x ∷ xs) = if x == fd then suc (count fd xs) else count fd xs

pub count-append : (fd : ℕ) (xs ys : List ℕ) → count fd (xs ++ ys) ≡ count fd xs + count fd ys
count-append fd [] ys = omega arith
count-append fd (x ∷ xs) ys = ground (arith, count-append fd xs ys)

abbrev pub held : List ClientConnection → List ℕ
held [] = []
held (client ∷ clients) = fds_of client.socket_fd ++ held clients

-- A slot with no live thread holds no socket.
abbrev pub IsOwnedBy : Handler → Option ℕ → Type 0
IsOwnedBy alive socket_fd = Unit
IsOwnedBy absent socket_fd = socket_fd ≡ none
IsOwnedBy ended socket_fd = socket_fd ≡ none

abbrev pub IsOwned : ClientConnection → Type 0
IsOwned client = IsOwnedBy client.handler_thread client.socket_fd

pub held-cons :
    (fd : ℕ) (client : ClientConnection) (clients : List ClientConnection)
    → count fd (held (client ∷ clients))
      ≡ count fd (fds_of client.socket_fd) + count fd (held clients)
held-cons fd client clients = count-append fd (fds_of client.socket_fd) (held clients)

-- A slot that changes, seen from outside.
pub held-modify :
    (fd : ℕ) (f : ClientConnection → ClientConnection) (i : ℕ) (clients : List ClientConnection)
    (client : ClientConnection)
    → get_elem? clients i ≡ some client
    → count fd (held (modify f i clients)) + count fd (fds_of client.socket_fd)
      ≡ count fd (held clients) + count fd (fds_of (f client).socket_fd)
held-modify fd f i [] client e = absurd (cc e)
held-modify fd f zero (c ∷ clients) client e =
    let same : c ≡ client = cc e in
    subst
      (λ z.
        count fd (held (f c ∷ clients)) + count fd (fds_of z.socket_fd)
        ≡ count fd (held (c ∷ clients)) + count fd (fds_of (f z).socket_fd))
      same (omega (arith, held-cons fd (f c) clients, held-cons fd c clients))
held-modify fd f (suc i) (c ∷ clients) client e = omega (
  arith,
  held-modify fd f i clients client e,
  held-cons fd c (modify f i clients),
  held-cons fd c clients,
)

pub get_elem?-modify :
    (f : ClientConnection → ClientConnection) (i : ℕ) (clients : List ClientConnection)
    (client : ClientConnection)
    → get_elem? clients i ≡ some client
    → get_elem? (modify f i clients) i ≡ some (f client)
get_elem?-modify f i [] client e = absurd (cc e)
get_elem?-modify f zero (c ∷ clients) client e = cc e
get_elem?-modify f (suc i) (c ∷ clients) client e = get_elem?-modify f i clients client e

pub length-modify :
    (f : ClientConnection → ClientConnection) (i : ℕ) (clients : List ClientConnection)
    → length (modify f i clients) ≡ length clients
length-modify f i [] = refl
length-modify f zero (c ∷ clients) = refl
length-modify f (suc i) (c ∷ clients) = ap suc (length-modify f i clients)

pub modify-IsOwned :
    (f : ClientConnection → ClientConnection) (i : ℕ) (clients : List ClientConnection)
    (client : ClientConnection)
    → get_elem? clients i ≡ some client
    → IsOwned (f client)
    → All IsOwned clients
    → All IsOwned (modify f i clients)
modify-IsOwned f i [] client e h all = tt
modify-IsOwned f zero (c ∷ clients) client e h (first, others) =
    (subst (λ z. IsOwned (f z)) (sym (same e)) h, others)
  where
    same : some c ≡ some client → c ≡ client
    same e = cc e
modify-IsOwned f (suc i) (c ∷ clients) client e h (first, others) =
    (first, modify-IsOwned f i clients client e h others)

pub slot-IsOwned :
    (i : ℕ) (clients : List ClientConnection) (client : ClientConnection)
    → get_elem? clients i ≡ some client
    → All IsOwned clients
    → IsOwned client
slot-IsOwned i [] client e all = absurd (cc e)
slot-IsOwned zero (c ∷ clients) client e (first, others) = subst IsOwned (same e) first
  where
    same : some c ≡ some client → c ≡ client
    same e = cc e
slot-IsOwned (suc i) (c ∷ clients) client e (first, others) = slot-IsOwned i clients client e others

-- The slot that is found is free.
pub free_slot :
    (clients : List ClientConnection) (i : ℕ)
    → find_available_client_slot clients ≡ some i
    → (client : ClientConnection) × (get_elem? clients i ≡ some client) × (client.active ≡ false)
unfolding find_available_client_slot
free_slot [] i e = absurd (cc e)
free_slot (c ∷ clients) zero e = elim (Bool-cases c.active) [
  | inr free ↦ (c, refl, free)
  | inl used ↦ absurd (ground (arith, e, used))
]
free_slot (c ∷ clients) (suc i) e = elim (Bool-cases c.active) [
  | inr free ↦ absurd (ground (arith, e, free))
  | inl used ↦ free_slot clients i (ground (arith, e, used))
]

-- The sockets that the server holds or has closed.
abbrev pub total : ℕ → IpcServer → ℕ
total fd s = count fd s.closed + (count fd (fds_of s.server_fd) + count fd (held s.clients))

pub record IsSound (s : IpcServer) : Type 0 where
  pub owned : All IsOwned s.clients
  pub idle : s.running ≡ false → s.server_fd ≡ none
  pub slots : length s.clients ≡ 2

pub close_slot-total :
    (fd : ℕ) (f : ClientConnection → ClientConnection) (i : ℕ) (s : IpcServer)
    → ((c : ClientConnection) → (f c).socket_fd ≡ none)
    → total fd (close_slot f i s) ≡ total fd s
unfolding close_slot
close_slot-total fd f i s h = elim (Option-cases (get_elem? s.clients i)) [
  | inl e ↦ rw (e, close_slot) refl
  | inr (client, e) ↦
      rw (e, close_slot)
        (omega (
          arith,
          held-modify fd f i s.clients client e,
          ap (λ o. count fd (fds_of o)) (h client),
          count-append fd s.closed (fds_of client.socket_fd),
        ))
]

pub close_slot-IsSound :
    (f : ClientConnection → ClientConnection) (i : ℕ) (s : IpcServer)
    → ((c : ClientConnection) → IsOwned (f c))
    → IsSound s
    → IsSound (close_slot f i s)
unfolding close_slot
close_slot-IsSound f i s h sound = elim (Option-cases (get_elem? s.clients i)) [
  | inl e ↦ rw (e, close_slot) sound
  | inr (client, e) ↦
      rw (e, close_slot)
        (record {
          owned = modify-IsOwned f i s.clients client e (h client) sound.owned;
          idle = sound.idle;
          slots = length-modify f i s.clients ∙ sound.slots;
        })
]

-- A slot that changes and keeps its socket.
pub modify-total :
    (fd : ℕ) (f : ClientConnection → ClientConnection) (i : ℕ) (clients : List ClientConnection)
    → ((c : ClientConnection) → (f c).socket_fd ≡ c.socket_fd)
    → count fd (held (modify f i clients)) ≡ count fd (held clients)
modify-total fd f i [] h = refl
modify-total fd f zero (c ∷ clients) h = ap (λ o. count fd (fds_of o ++ held clients)) (h c)
modify-total fd f (suc i) (c ∷ clients) h = omega (
  arith,
  modify-total fd f i clients h,
  held-cons fd c (modify f i clients),
  held-cons fd c clients,
)

pub shut_active-total :
    (fd : ℕ) (clients : List ClientConnection)
    → count fd (shut_active clients).0 + count fd (held (shut_active clients).1)
      ≡ count fd (held clients)
unfolding shut_active
shut_active-total fd [] = omega arith
shut_active-total fd (c ∷ clients) = elim (Bool-cases c.active) [
  | inl e ↦
      rw (e, shut_active)
        (omega (
          arith,
          shut_active-total fd clients,
          held-cons fd c clients,
          held-cons fd (shut c) (shut_active clients).1,
          count-append fd (fds_of c.socket_fd) (shut_active clients).0,
        ))
  | inr e ↦
      rw (e, shut_active)
        (omega (
          arith,
          shut_active-total fd clients,
          held-cons fd c clients,
          held-cons fd c (shut_active clients).1,
        ))
]

pub join_threads-total :
    (fd : ℕ) (clients : List ClientConnection)
    → All IsOwned clients
    → (count fd (join_threads clients).0 ≡ count fd (held clients))
      × (held (join_threads clients).1 ≡ [])
unfolding join_threads
join_threads-total fd [] all = (refl, refl)
join_threads-total fd (c ∷ clients) (first, others) =
    let (sum, empty) = join_threads-total fd clients others in
    elim (Bool-cases (is_alive c.handler_thread)) [
      | inl e ↦
          rw (e, join_threads)
            (
              omega (
                arith,
                sum,
                held-cons fd c clients,
                count-append fd (fds_of c.socket_fd) (join_threads clients).0,
              ),
              empty,
            )
      | inr e ↦
          let no_socket : c.socket_fd ≡ none = ground (arith, e, first) in
          rw (e, join_threads)
            (
              omega (arith, sum, held-cons fd c clients, ap (λ o. count fd (fds_of o)) no_socket),
              ap (λ o. fds_of o ++ held (join_threads clients).1) no_socket ∙ empty,
            )
    ]
