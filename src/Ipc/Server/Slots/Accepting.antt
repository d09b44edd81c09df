-- ===== src/Ipc/Server/Slots/Accepting.antt =====
-- A client that is accepted while `IpcServer` runs.
use sms_relay.Base.{
  ℕ, ◌≡◌, refl, sym, ap, ◌∙◌, Bool, true, ◌&&◌, Option, none, some, [], ◌∷◌, ◌++◌, Bytes, get_elem?,
  if◌then◌else◌, arith, inl, inr, Option-cases,
}
use mathlib.Core.Path.{subst}
use sms_relay.Ipc.Server.Slots.{
  Handler, absent, alive, ended, ClientConnection, IpcServer, find_available_client_slot, modify,
  joined, taken, is_alive, is_joinable, fds_of, close_slot, release_thread, accept_client,
}
use sms_relay.Ipc.Server.Slots.Ownership.{
  count, count-append, IsOwnedBy, held-modify, get_elem?-modify, length-modify, modify-IsOwned,
  slot-IsOwned, free_slot, IsSound, modify-total,
}
use sms_relay.Ipc.Server.Slots.Keeping.{unchanged, close_slot_sound, Accounts}

-- A slot with no socket.
abbrev IsVacant : ℕ → IpcServer → Type 0
IsVacant i s = (c : ClientConnection) × (get_elem? s.clients i ≡ some c) × (c.socket_fd ≡ none)

close_slot-IsVacant :
    (f : ClientConnection → ClientConnection) (i : ℕ) (c : ClientConnection) (s : IpcServer)
    → get_elem? s.clients i ≡ some c
    → ((c : ClientConnection) → (f c).socket_fd ≡ none)
    → IsVacant i (close_slot f i s)
unfolding close_slot
close_slot-IsVacant f i c s e h =
    subst
      (λ (found : Option ClientConnection). IsVacant i (elim found as (λ _. IpcServer) [
        | none ↦ s
        | some client ↦ record s {
          clients = modify f i s.clients;
          closed = s.closed ++ fds_of client.socket_fd;
        }
      ]))
      (sym e) (f c, get_elem?-modify f i s.clients c e, h c)

-- The thread that had the slot before is gone and its socket is closed.
release_thread_sound :
    (fd i : ℕ) (c : ClientConnection) (s : IpcServer)
    → IsSound s
    → get_elem? s.clients i ≡ some c
    → s.running ≡ true
    → Accounts fd 0 s (release_thread i c s) × IsVacant i (release_thread i c s)
unfolding release_thread
release_thread_sound fd i c s sound e running =
    subst (λ b. IsReleased (released c.handler_thread b)) (sym running)
      (by_handler c.handler_thread (slot-IsOwned i s.clients c e sound.owned))
  where
    IsReleased : IpcServer → Type 0
    IsReleased s' = Accounts fd 0 s s' × IsVacant i s'

    vacated : IpcServer
    vacated = record s { clients = modify (λ c. record c { handler_thread = absent }) i s.clients }

    released : Handler → Bool → IpcServer
    released h b =
        if is_joinable h && b
        then (if is_alive h then close_slot joined i s else vacated)
        else if is_joinable h
        then record s { detached = s.detached ++ i ∷ [] }
        else s

    by_handler : (h : Handler) → IsOwnedBy h c.socket_fd → IsReleased (released h true)
    by_handler absent empty = (unchanged fd s sound, (c, e, empty))
    by_handler alive _ = (
      close_slot_sound fd joined i s (λ c. refl) (λ c. refl) sound,
      close_slot-IsVacant joined i c s e (λ c. refl),
    )
    by_handler ended empty =
        let f = λ (c : ClientConnection). record c { handler_thread = absent } in
        (
          (
            record {
              owned = modify-IsOwned f i s.clients c e empty sound.owned;
              idle = sound.idle;
              slots = length-modify f i s.clients ∙ sound.slots;
            },
            omega (arith, modify-total fd f i s.clients (λ c. refl)),
          ),
          (f c, get_elem?-modify f i s.clients c e, empty),
        )

-- The slot is taken.
take_sound :
    (fd given : ℕ) (address : Bytes) (i : ℕ) (s s' : IpcServer)
    → Accounts fd 0 s s'
    → IsVacant i s'
    → Accounts fd
        (count fd (given ∷ []))
        s
        (record s' { clients = modify (taken given address) i s'.clients })
take_sound fd given address i s s' (sound, sum) (c, e, empty) = (
  record {
    owned = modify-IsOwned (taken given address) i s'.clients c e tt sound.owned;
    idle = sound.idle;
    slots = length-modify (taken given address) i s'.clients ∙ sound.slots;
  },
  omega (
    arith,
    sum,
    held-modify fd (taken given address) i s'.clients c e,
    ap (λ o. count fd (fds_of o)) empty,
  ),
)

pub accept_client_sound :
    (fd given : ℕ) (address : Bytes) (s : IpcServer)
    → IsSound s
    → s.running ≡ true
    → Accounts fd (count fd (given ∷ [])) s (accept_client given address s)
unfolding accept_client
accept_client_sound fd given address s sound running =
    elim (Option-cases (find_available_client_slot s.clients)) [
      | inl e ↦
          subst (λ z. Accounts fd (count fd (given ∷ [])) s (by_slot z)) (sym e)
            (
              record { owned = sound.owned; idle = sound.idle; slots = sound.slots },
              omega (arith, count-append fd s.closed (given ∷ [])),
            )
      | inr (i, e) ↦
          let (c, there, _) = free_slot s.clients i e in
          let (accounts, vacant) = release_thread_sound fd i c s sound there running in
          subst (λ z. Accounts fd (count fd (given ∷ [])) s (by_slot z)) (sym e)
            (subst (λ z. Accounts fd (count fd (given ∷ [])) s (by_client i z)) (sym there)
              (take_sound fd given address i s (release_thread i c s) accounts vacant))
    ]
  where
    by_client : ℕ → Option ClientConnection → IpcServer
    by_client i none = s
    by_client i (some client) =
        let s' = release_thread i client s in
        record s' { clients = modify (taken given address) i s'.clients }

    by_slot : Option ℕ → IpcServer
    by_slot none = record s { closed = s.closed ++ given ∷ [] }
    by_slot (some i) = by_client i (get_elem? s.clients i)
