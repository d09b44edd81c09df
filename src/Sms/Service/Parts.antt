-- ===== src/Sms/Service/Parts.antt =====
-- The tasks of `handle_cmti` for the parts of messages, as deliveries to the multipart cache.
use sms_relay.Base.{
  ℕ, ◌≡◌, refl, sym, ap, ◌∙◌, Bool, true, Option, none, some, List, [], ◌∷◌, ◌++◌, append_assoc,
  append-nil, Bytes,
}
use sms_relay.Base.Result.{ok, Error}
use sms_relay.Sms.Message.{IncomingSms, is_multipart}
use sms_relay.Sms.Multipart.{MultipartCache, handle_multipart, cleanup_cache}
use sms_relay.Sms.Multipart.Arrivals.{Arrival, deliver}
use sms_relay.Sms.Parse.{parse_cmti_args}
use sms_relay.Sms.Service.{Modem, Service, notify, received, read_sms, run_task}
use sms_relay.Sms.Service.Worker.{run_tasks}

-- The parts of messages that tasks read from the modem.
pub data IsRead {M : Type 0} (modem : Modem M) (left_first : Bool) (what : Error → Bytes)
    : List (ℕ × ℕ × Bytes) → M → List Arrival → M → Type 0 where
  nothing : {m : M} → IsRead modem left_first what [] m [] m
  next :
      {now later index : ℕ} {args storage : Bytes} {tasks : List (ℕ × ℕ × Bytes)}
      {arrivals : List Arrival} {sms : IncomingSms} {m m' m'' : M}
      → parse_cmti_args args ≡ ok (storage, index)
      → read_sms modem left_first what storage index m ≡ (sms, m')
      → sms.success ≡ true
      → is_multipart sms ≡ true
      → IsRead modem left_first what tasks m' arrivals m''
      → IsRead modem left_first what
          ((now, later, args) ∷ tasks)
          m
          ((now, later, sms) ∷ arrivals)
          m''

-- A service with another multipart cache that has notified more messages.
abbrev with_delivered : Service → MultipartCache × List IncomingSms → Service
with_delivered s (cache, more) = record s { multipart_cache = cache; notified = s.notified ++ more }

-- What one message does to the multipart cache, and what the callback gets of it.
abbrev outcome_of : MultipartCache × Option IncomingSms → MultipartCache × List IncomingSms
outcome_of (cache, none) = (cache, [])
outcome_of (cache, some combined) = (cache, combined ∷ [])

notified_outcome :
    (s : Service) (result : MultipartCache × Option IncomingSms)
    → s.callback ≡ true
    → elim result.1 [
      | none ↦ record s { multipart_cache = result.0 }
      | some combined ↦ notify combined (record s { multipart_cache = result.0 })
    ]
      ≡ with_delivered s (outcome_of result)
unfolding notify
notified_outcome s (cache, none) h =
    ap (λ l. record s { multipart_cache = cache; notified = l }) (sym (append-nil s.notified))
notified_outcome s (cache, some combined) h = rw (h, notify) refl

received_part :
    (later : ℕ) (sms : IncomingSms) (s : Service)
    → sms.success ≡ true
    → is_multipart sms ≡ true
    → s.callback ≡ true
    → received later sms s
      ≡ with_delivered s (outcome_of (handle_multipart later sms s.multipart_cache))
unfolding received
received_part later sms s good many h =
    rw (good, many, received) (notified_outcome s (handle_multipart later sms s.multipart_cache) h)

-- The deliveries after one message, as those of the service.
with_delivered-next :
    (s : Service) (result : MultipartCache × Option IncomingSms) (arrivals : List Arrival)
    → with_delivered (with_delivered s (outcome_of result)) (deliver arrivals result.0)
      ≡ with_delivered s (
        (deliver arrivals result.0).0,
        elim result.1 [
          | none ↦ (deliver arrivals result.0).1
          | some combined ↦ combined ∷ (deliver arrivals result.0).1
        ],
      )
with_delivered-next s (cache, none) arrivals =
    ap
      (λ l. record s {
        multipart_cache = (deliver arrivals cache).0;
        notified = l ++ (deliver arrivals cache).1;
      })
      (append-nil s.notified)
with_delivered-next s (cache, some combined) arrivals =
    ap (λ l. record s { multipart_cache = (deliver arrivals cache).0; notified = l })
      (append_assoc s.notified (combined ∷ []) (deliver arrivals cache).1)

outcome_of-cache : (result : MultipartCache × Option IncomingSms) → (outcome_of result).0 ≡ result.0
outcome_of-cache (cache, none) = refl
outcome_of-cache (cache, some combined) = refl

module _ {M : Type 0} (modem : Modem M) (left_first : Bool) (what : Error → Bytes) where
  run_task-part :
      (now later index : ℕ) (args storage : Bytes) (sms : IncomingSms) (s : Service) (m m' : M)
      → parse_cmti_args args ≡ ok (storage, index)
      → read_sms modem left_first what storage index m ≡ (sms, m')
      → sms.success ≡ true
      → is_multipart sms ≡ true
      → s.callback ≡ true
      → run_task modem left_first what now later args s m ≡ (
        with_delivered s
            (outcome_of (handle_multipart later sms (cleanup_cache now s.multipart_cache))),
        m',
      )
  unfolding run_task
  run_task-part now later index args storage sms s m m' parsed read good many h =
      let s' : Service = record s { multipart_cache = cleanup_cache now s.multipart_cache } in
      rw (parsed, run_task)
        (ap (λ z. (received later z.0 s', z.1)) read
          ∙ ap (λ z. (z, m')) (received_part later sms s' good many h))

  -- Tasks that read parts of messages, one after the other, do to the service what the deliveries
  -- of these parts do to its multipart cache and its callback.
  pub run_tasks-deliver :
      {tasks : List (ℕ × ℕ × Bytes)} {arrivals : List Arrival} (s : Service) {m m' : M}
      → IsRead modem left_first what tasks m arrivals m'
      → s.callback ≡ true
      → run_tasks modem left_first what tasks s m
        ≡ (with_delivered s (deliver arrivals s.multipart_cache), m')
  run_tasks-deliver s {m} IsRead.nothing h =
      ap (λ l. (record s { notified = l }, m)) (sym (append-nil s.notified))
  run_tasks-deliver s {m} {m'}
        (IsRead.next {now} {later} {index} {args} {storage} {tasks} {arrivals} {sms} {m' = m₁}
          parsed read good many others)
        h =
      let result = handle_multipart later sms (cleanup_cache now s.multipart_cache) in
      let s' = with_delivered s (outcome_of result) in
      ap (λ z. run_tasks modem left_first what tasks z.0 z.1)
        (run_task-part now later index args storage sms s m m₁ parsed read good many h)
      ∙ run_tasks-deliver s' others h
      ∙ ap (λ c. (with_delivered s' (deliver arrivals c), m')) (outcome_of-cache result)
      ∙ ap (λ z. (z, m')) (with_delivered-next s result arrivals)
