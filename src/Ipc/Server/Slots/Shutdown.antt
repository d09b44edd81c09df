-- ===== src/Ipc/Server/Slots/Shutdown.antt =====
-- The end of `IpcServer`.
use sms_relay.Base.{
  ℕ, suc, ◌≡◌, ◌≢◌, refl, sym, ap, ◌∙◌, Bool, false, not, ◌&&◌, Option, none, some, List, [], ◌∷◌,
  ◌++◌, Bytes, get_elem?, if◌then◌else◌, arith, choose,
}
use mathlib.Core.Path.{subst}
use sms_relay.Ipc.Server.Slots.{
  Handler, absent, alive, joined, is_alive, is_joinable, close_slot, ClientConnection, IpcServer,
  create, find_available_client_slot, modify, taken, fds_of, release_thread, accept_client,
  begin_stop, join_threads, end_stop,
}
use sms_relay.Ipc.Server.Slots.Ownership.{
  count, count-append, held-modify, total, IsSound, join_threads-total,
}
use sms_relay.Ipc.Server.Slots.Events.{Event}
use sms_relay.Ipc.Server.Slots.Keeping.{begin_stop_sound}
use sms_relay.Ipc.Server.Slots.Histories.{run, opened_in, AreTimely, run_sound, create-IsSound}

-- With no listening socket, the joins leave nothing open.
end_stop-closed :
    (fd : ℕ) (s : IpcServer)
    → IsSound s
    → s.server_fd ≡ none
    → count fd (end_stop s).closed ≡ total fd s
unfolding end_stop
end_stop-closed fd s sound empty =
    let (sum, _) = join_threads-total fd s.clients sound.owned in
    omega (
      arith,
      sum,
      ap (λ o. count fd (fds_of o)) empty,
      count-append fd s.closed (join_threads s.clients).0,
    )

begin_stop-silent : (s : IpcServer) → IsSound s → (begin_stop s).server_fd ≡ none
unfolding begin_stop
begin_stop-silent s sound =
    choose (λ (s' : IpcServer). s'.server_fd ≡ none) (not s.running) s _
      (λ e. sound.idle (ground (arith, e))) (λ _. refl)

-- After any history in which clients are accepted only while the server runs, both halves of `stop`
-- leave every socket that the server was ever given closed, as often as it was given.
pub stop-closed :
    (fd port : ℕ) (events : List Event)
    → AreTimely events (create port)
    → count fd (end_stop (begin_stop (run events (create port)))).closed
      ≡ count fd (opened_in events (create port))
unfolding create
stop-closed fd port events timely =
    let s = run events (create port) in
    let (sound, sum) = run_sound fd events (create port) (create-IsSound port) timely in
    let (still, same) = begin_stop_sound fd s sound in
    end_stop-closed fd (begin_stop s) still (begin_stop-silent s sound) ∙ omega (arith, sum, same)

-- A client that `accept` still returns while the server stops, at a slot whose thread has given its
-- client up and has not yet cleaned up: the socket of the old client is overwritten. If the new
-- client's socket is another one, the old socket is counted once less among those that the server
-- holds or has closed.
pub accept_client-loses :
    (fd given i : ℕ) (address : Bytes) (s : IpcServer) (c : ClientConnection)
    → s.running ≡ false
    → find_available_client_slot s.clients ≡ some i
    → get_elem? s.clients i ≡ some c
    → c.handler_thread ≡ alive
    → c.socket_fd ≡ some fd
    → given ≢ fd
    → suc (total fd (accept_client given address s)) ≡ total fd s
unfolding accept_client release_thread
accept_client-loses fd given i address s c stopping e there running socket other =
    subst (λ z. Loses (by_slot z)) (sym e)
      (subst (λ z. Loses (by_client i z)) (sym there)
        (subst (λ h. Loses (placed (released h s.running))) (sym running)
          (subst (λ b. Loses (placed (released alive b))) (sym stopping)
            (omega (
              arith,
              held-modify fd (taken given address) i s.clients c there,
              ap (λ o. count fd (fds_of o)) socket,
              once fd,
              none_of given fd other,
            )))))
  where
    Loses : IpcServer → Type 0
    Loses s' = suc (total fd s') ≡ total fd s

    released : Handler → Bool → IpcServer
    released h b =
        if is_joinable h && b
        then (if is_alive h then close_slot joined i s else record s {
          clients = modify (λ c. record c { handler_thread = absent }) i s.clients;
        })
        else if is_joinable h
        then record s { detached = s.detached ++ i ∷ [] }
        else s

    placed : IpcServer → IpcServer
    placed s' = record s' { clients = modify (taken given address) i s'.clients }

    by_client : ℕ → Option ClientConnection → IpcServer
    by_client i none = s
    by_client i (some client) =
        let s' = release_thread i client s in
        record s' { clients = modify (taken given address) i s'.clients }

    by_slot : Option ℕ → IpcServer
    by_slot none = record s { closed = s.closed ++ given ∷ [] }
    by_slot (some i) = by_client i (get_elem? s.clients i)

    once : (fd : ℕ) → count fd (fd ∷ []) ≡ 1
    once fd = ground arith

    none_of : (given fd : ℕ) → given ≢ fd → count fd (given ∷ []) ≡ 0
    none_of given fd other = ground (arith, other)
