-- ===== src/Sms/Service/Deletion.antt =====
-- `delete_message` of `SmsService`.
use sms_relay.Base.{
  ℕ, ◌≡◌, ◌≢◌, ◌↔◌, refl, sym, ap, ap₂, ◌∙◌, Bool, true, false, ◌&&◌, List, [], ◌∷◌, Bytes, All,
  arith, Bool-cases, inl, inr,
}
use sms_relay.Base.Result.{Result, Error, ok, err, Result-cases}
use sms_relay.At.Commands
use mathlib.Core.Path.{subst}
use sms_relay.At.ResponseBuilder.{AtResponse}
use sms_relay.Sms.Service.{
  Modem, Service, indices_to_delete, failure_text, delete_all, delete_message,
}

abbrev pub IsAnswer : Result AtResponse → Type 0
IsAnswer (err e) = ⊥
IsAnswer (ok response) = Unit

abbrev pub IsSuccess : Result AtResponse → Type 0
IsSuccess (err e) = ⊥
IsSuccess (ok response) = response.success ≡ true

-- The text of `delete_message` is empty for a success.
abbrev pub is_silent : Bytes → Bool
is_silent [] = true
is_silent (c ∷ text) = false

not_silent : (index : ℕ) (response : AtResponse) → is_silent (failure_text index response) ≡ false
unfolding failure_text
not_silent index response = refl

failure_not_empty : (index : ℕ) (response : AtResponse) → failure_text index response ≢ []
unfolding failure_text
failure_not_empty index response e = ground (arith, e)

module _ {M : Type 0} (modem : Modem M) where
  -- One command for each index, up to the first that raises an exception: whether every answer was
  -- a success, with no exception.
  abbrev pub delete_until : List ℕ → M → Bool × M
  delete_until [] m = (true, m)
  delete_until (idx ∷ indices) m =
      let (answer, m') = modem.send_command (Commands.delete_message idx) m in
      elim answer [
        | err e ↦ (false, m')
        | ok response ↦ let (good, m'') = delete_until indices m' in (response.success && good, m'')
      ]

module _ {M : Type 0} (modem : Modem M) (left_first : Bool) (what : Error → Bytes) where
  -- One command for each index, and the answers.
  abbrev pub delete_each : List ℕ → M → List (Result AtResponse) × M
  delete_each [] m = ([], m)
  delete_each (idx ∷ indices) m =
      let (answer, m') = modem.send_command (Commands.delete_message idx) m in
      let (answers, m'') = delete_each indices m' in (answer ∷ answers, m'')

  delete_all-each :
      (last_error : Bytes) (indices : List ℕ) (m : M)
      → All IsAnswer (delete_each indices m).0
      → ((delete_all modem left_first what last_error indices m).1 ≡ (delete_each indices m).1)
        × (((delete_all modem left_first what last_error indices m).0 ≡ [])
            ↔ ((last_error ≡ []) × All IsSuccess (delete_each indices m).0))
  unfolding delete_all
  delete_all-each last_error [] m h = (refl, ((λ e. (e, tt)), λ h'. h'.0))
  delete_all-each last_error (idx ∷ indices) m (h, hs) =
      let m' = (modem.send_command (Commands.delete_message idx) m).1 in
      elim (Result-cases (modem.send_command (Commands.delete_message idx) m).0) [
        | inl (x, e) ↦ absurd (subst IsAnswer e h)
        | inr (response, e) ↦ elim (Bool-cases response.success) [
          | inl good ↦
              let (same, results) = delete_all-each last_error indices m' hs in
              (
                rw (e, good, delete_all) same,
                rw (e, good, delete_all)
                    (
                      (λ r. ((results.0 r).0, (refl, (results.0 r).1))),
                      λ r. results.1 (r.0, r.1.1),
                    ),
              )
          | inr bad ↦
              let (same, results) = delete_all-each (failure_text idx response) indices m' hs in
              (
                rw (e, bad, delete_all) same,
                rw (e, bad, delete_all)
                    (
                      (λ r. absurd (failure_not_empty idx response ((results.0 r).0))),
                      λ r. absurd (ground (arith, r.1.0)),
                    ),
              )
        ]
      ]

  -- If the session answers every command, `delete_message` sends the deletion of each index that it
  -- has to delete, in their order and whether or not earlier ones failed, and its text is empty if
  -- and only if every answer is a success.
  pub delete_message-each :
      (index : ℕ) (s : Service) (m : M)
      → All IsAnswer (delete_each (indices_to_delete index s.message_cache) m).0
      → ((delete_message modem left_first what index s m).1
          ≡ (delete_each (indices_to_delete index s.message_cache) m).1)
        × (((delete_message modem left_first what index s m).0 ≡ [])
            ↔ All IsSuccess (delete_each (indices_to_delete index s.message_cache) m).0)
  unfolding delete_message
  delete_message-each index s m h =
      let (same, results) = delete_all-each [] (indices_to_delete index s.message_cache) m h in
      (same, ((λ r. (results.0 r).1), λ r. results.1 (refl, r)))

  delete_all-until :
      (last_error : Bytes) (indices : List ℕ) (m : M)
      → let (text, m') = delete_all modem left_first what last_error indices m in
        let (good, m'') = delete_until modem indices m in
        (m' ≡ m'') × (is_silent text ≡ (is_silent last_error && good))
  unfolding delete_all
  delete_all-until last_error [] m = (refl, ground arith)
  delete_all-until last_error (idx ∷ indices) m =
      let m' = (modem.send_command (Commands.delete_message idx) m).1 in
      elim (Result-cases (modem.send_command (Commands.delete_message idx) m).0) [
        | inl (x, e) ↦ rw (e, delete_all, delete_until) (refl, ground arith)
        | inr (response, e) ↦ elim (Bool-cases response.success) [
          | inl good ↦
              rw (e, good, delete_all, delete_until) (delete_all-until last_error indices m')
          | inr bad ↦
              let (same, said) = delete_all-until (failure_text idx response) indices m' in
              rw (e, bad, delete_all, delete_until)
                (
                  same,
                  said
                      ∙ ap (λ b. b && (delete_until modem indices m').0) (not_silent idx response)
                      ∙ ground arith,
                )
        ]
      ]

  -- Whether `delete_message` succeeds, and what it does to the modem.
  pub delete_message-until :
      (index : ℕ) (s : Service) (m : M)
      → let (text, m') = delete_message modem left_first what index s m in
        delete_until modem (indices_to_delete index s.message_cache) m ≡ (is_silent text, m')
  unfolding delete_message
  delete_message-until index s m =
      let (same, said) = delete_all-until [] (indices_to_delete index s.message_cache) m in
      ap₂ (λ b z. (b, z)) (sym said) (sym same)
