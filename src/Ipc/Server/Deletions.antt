-- ===== src/Ipc/Server/Deletions.antt =====
-- What a request to delete does (`handle_delete` of `IpcServer`).
use sms_relay.Base.{
  ℕ, ◌+◌, ◌<◌, ◌^◌, ◌≡◌, refl, sym, ap, ◌∙◌, Bool, true, false, ◌||◌, Option, none, List, [], ◌∷◌,
  ◌++◌, Bytes, length, ◌==◌, if◌then◌else◌, arith, inl, inr,
}
use mathlib.Core.Path.{subst}
use sms_relay.Base.Result.{Error}
use sms_relay.Sms.Message.{IncomingSms}
use sms_relay.Sms.Inbox.{remove_from_cache}
use sms_relay.Sms.Inbox.Table.{message_at, message_at-remove}
use sms_relay.Sms.Service.{Modem, Service, indices_to_delete, delete_message}
use sms_relay.Sms.Service.Deletion.{is_silent, delete_until, delete_message-until}
use sms_relay.Ipc.Protocol.{CommandType, SmsInfo}
use sms_relay.Ipc.Wire.{serialize_request, serialize_vec}
use sms_relay.Ipc.Socket.Stream.{Bytes-cases}
use sms_relay.Ipc.Server.{success, delete_indices, process_command}
use sms_relay.Ipc.Server.Answers.{process_command-delete}

-- How a cache and a modem share out indices, each list in their order, and leave the modem: an
-- index is deleted if the modem answers with a success to every command that its deletion sends,
-- and is then no longer in the cache; it has failed if the modem does not.
pub data IsDeletion {M : Type 0} (modem : Modem M)
    : List IncomingSms → M → Bytes → Bytes → Bytes → M → Type 0 where
  finished : {cache : List IncomingSms} {m : M} → IsDeletion modem cache m [] [] [] m
  removed :
      {cache : List IncomingSms} {m m' m'' : M} {x : ℕ} {xs ys zs : Bytes}
      → delete_until modem (indices_to_delete x cache) m ≡ (true, m')
      → IsDeletion modem (remove_from_cache x cache) m' xs ys zs m''
      → IsDeletion modem cache m (x ∷ xs) ys (x ∷ zs) m''
  kept :
      {cache : List IncomingSms} {m m' m'' : M} {x : ℕ} {xs ys zs : Bytes}
      → delete_until modem (indices_to_delete x cache) m ≡ (false, m')
      → IsDeletion modem cache m' xs ys zs m''
      → IsDeletion modem cache m xs (x ∷ ys) (x ∷ zs) m''

pub length-IsDeletion :
    {M : Type 0} {modem : Modem M} {cache : List IncomingSms} {m m' : M} {xs ys zs : Bytes}
    → IsDeletion modem cache m xs ys zs m'
    → length xs + length ys ≡ length zs
length-IsDeletion IsDeletion.finished = refl
length-IsDeletion (IsDeletion.removed e rest) = omega (arith, length-IsDeletion rest)
length-IsDeletion (IsDeletion.kept e rest) = omega (arith, length-IsDeletion rest)

abbrev pub contains : ℕ → Bytes → Bool
contains i [] = false
contains i (x ∷ xs) = x == i || contains i xs

abbrev pub with_cache : List IncomingSms → Service → Service
with_cache cache s = record s { message_cache = cache }

-- A message that goes and others that go after it.
cleared :
    (x i : ℕ) (deleted : Bytes) (before : Option IncomingSms)
    → (if contains i deleted then none else (if x == i then none else before))
      ≡ (if contains i (x ∷ deleted) then none else before)
cleared x i deleted before = ground arith

module _ {M : Type 0} (port : ℕ) (unset : SmsInfo) (modem : Modem M) (left_first : Bool)
    (what : Error → Bytes) where
  delete_indices-IsDeletion :
      (i : ℕ) (indices : Bytes) (s : Service) (m : M)
      → let ((deleted, failed), s', m') =
          delete_indices port unset modem left_first what indices s m in
        IsDeletion modem s.message_cache m deleted failed indices m'
        × (s' ≡ with_cache s'.message_cache s)
        × (message_at s'.message_cache i
            ≡ (if contains i deleted then none else message_at s.message_cache i))
  unfolding delete_indices
  delete_indices-IsDeletion i [] s m = (IsDeletion.finished, refl, refl)
  delete_indices-IsDeletion i (index ∷ indices) s m =
      let m' = (delete_message modem left_first what index s m).1 in
      let answers = delete_message-until modem left_first what index s m in
      elim (Bytes-cases (delete_message modem left_first what index s m).0) [
        | inl e ↦
            let s' = with_cache (remove_from_cache index s.message_cache) s in
            let (done, same, table) = delete_indices-IsDeletion i indices s' m' in
            rw (e, delete_indices)
              (
                IsDeletion.removed (answers ∙ ap (λ text. (is_silent text, m')) e) done,
                same,
                table
                    ∙ ap
                        (λ o.
                          if contains i
                            (delete_indices port unset modem left_first what indices s' m').0.0
                          then none
                          else o)
                        (message_at-remove index s.message_cache i)
                    ∙ cleared index i _ (message_at s.message_cache i),
              )
        | inr (b, bs, e) ↦
            let (done, same, table) = delete_indices-IsDeletion i indices s m' in
            rw (e, delete_indices)
              (IsDeletion.kept (answers ∙ ap (λ text. (is_silent text, m')) e) done, same, table)
      ]

  -- A request to delete some indices is answered by two lists that share them out, each in the order
  -- of the request. The first has the indices whose deletion the modem answered with successes only,
  -- to the commands sent for it in turn, one for each part that the cache has under the index; the
  -- second has the others, and the commands of an index end at an exception. Afterwards the cache of
  -- the service has no message with an index of the first list, the message at any other index is
  -- the one it was, the rest of the service has not changed, and the modem is as those commands
  -- left it. The number of the request and the number of indices fit in 32 bits.
  pub process_command-deleted :
      (i now seq index : ℕ) (indices : Bytes) (s : Service) (m : M)
      → seq < 2 ^ 32
      → length (index ∷ indices) < 2 ^ 32
      → let (response, s', m') =
          process_command port unset modem left_first what now
            (serialize_request CommandType.delete_sms seq (serialize_vec (index ∷ indices)))
            s
            m in
        (deleted : Bytes) × (failed : Bytes) × (response
          ≡ success (serialize_vec deleted ++ serialize_vec failed))
        × IsDeletion modem s.message_cache m deleted failed (index ∷ indices) m'
        × (s' ≡ with_cache s'.message_cache s)
        × (message_at s'.message_cache i
            ≡ (if contains i deleted then none else message_at s.message_cache i))
  process_command-deleted i now seq index indices s m b k =
      let done = delete_indices port unset modem left_first what (index ∷ indices) s m in
      let (shared, same, table) = delete_indices-IsDeletion i (index ∷ indices) s m in
      let answered =
        process_command-delete port unset modem left_first what now seq index indices s m b k in
      (
        done.0.0,
        done.0.1,
        ap (λ z. z.0) answered,
        subst (λ z. IsDeletion modem s.message_cache m done.0.0 done.0.1 (index ∷ indices) z)
            (ap (λ z. z.2) (sym answered)) shared,
        ap (λ z. z.1) answered ∙ same ∙ ap (λ z. with_cache z.1.message_cache s) (sym answered),
        ap (λ z. message_at z.1.message_cache i) answered ∙ table,
      )
