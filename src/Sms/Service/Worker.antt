-- ===== src/Sms/Service/Worker.antt =====
-- The tasks of the background thread of `SmsService`.
use sms_relay.Base.{
  ℕ, ◌≡◌, refl, sym, ap, ◌∙◌, Bool, true, false, List, [], ◌∷◌, ◌++◌, append_assoc, append-nil,
  Bytes, arith, inl, inr, ◌⊎◌,
}
use sms_relay.Base.Result.{Error, Result-cases}
use sms_relay.Sms.Message.{IncomingSms}
use sms_relay.Sms.Multipart.{cleanup_cache}
use sms_relay.Sms.Parse.{parse_cmti_args}
use sms_relay.Sms.Service.{
  Modem, Service, handle_cmti, notify, received, read_sms, run_task, next_task, background_worker,
}

abbrev pub with_queue : List Bytes → Service → Service
with_queue queue s = record s { task_queue = queue }

List-cases : {A : Type 0} (xs : List A) → (xs ≡ []) ⊎ ((x : A) × (rest : List A) × (xs ≡ x ∷ rest))
List-cases [] = inl refl
List-cases (x ∷ rest) = inr (x, rest, refl)

notify-queue :
    (sms : IncomingSms) (queue : List Bytes) (s : Service)
    → notify sms (with_queue queue s) ≡ with_queue queue (notify sms s)
unfolding notify
notify-queue sms queue s = ground arith

received-queue :
    (now : ℕ) (sms : IncomingSms) (queue : List Bytes) (s : Service)
    → received now sms (with_queue queue s) ≡ with_queue queue (received now sms s)
unfolding received
received-queue now sms queue s = ground (arith)

received-running :
    (now : ℕ) (sms : IncomingSms) (s : Service)
    → (received now sms s).background_running ≡ s.background_running
unfolding received notify
received-running now sms s = ground (arith)

pub data Event : Type 0 where
  notification : Bytes → Event
  round : ℕ → ℕ → Event

abbrev pub arguments : List Event → List Bytes
arguments [] = []
arguments (notification args ∷ events) = args ∷ arguments events
arguments (round now later ∷ events) = arguments events

module _ {M : Type 0} (modem : Modem M) (left_first : Bool) (what : Error → Bytes) where
  -- Notifications of the IO thread and rounds of the background thread, in any order.
  abbrev pub run : List Event → Service → M → Service × M
  run [] s m = (s, m)
  run (notification args ∷ events) s m = run events (handle_cmti args s) m
  run (round now later ∷ events) s m =
      let (s', m') = background_worker modem left_first what now later s m in run events s' m'

  -- Tasks with their times, one after the other.
  abbrev pub run_tasks : List (ℕ × ℕ × Bytes) → Service → M → Service × M
  run_tasks [] s m = (s, m)
  run_tasks ((now, later, args) ∷ tasks) s m =
      let (s', m') = run_task modem left_first what now later args s m in run_tasks tasks s' m'

  abbrev pub queue_arguments : List (ℕ × ℕ × Bytes) → List Bytes
  queue_arguments [] = []
  queue_arguments ((now, later, args) ∷ tasks) = args ∷ queue_arguments tasks

  run_task-queue :
      (now later : ℕ) (args : Bytes) (queue : List Bytes) (s : Service) (m : M)
      → run_task modem left_first what now later args (with_queue queue s) m ≡ (
          let (s', m') = run_task modem left_first what now later args s m in
          (with_queue queue s', m'))
  unfolding run_task
  run_task-queue now later args queue s m = elim (Result-cases (parse_cmti_args args)) [
    | inl (x, e) ↦ rw (e, run_task) refl
    | inr ((storage, index), e) ↦
        rw (e, run_task)
          (ap (λ z. (z, (read_sms modem left_first what storage index m).1))
            (received-queue later (read_sms modem left_first what storage index m).0 queue
              (record s { multipart_cache = cleanup_cache now s.multipart_cache })))
  ]

  run_task-running :
      (now later : ℕ) (args : Bytes) (s : Service) (m : M)
      → (run_task modem left_first what now later args s m).0.background_running
        ≡ s.background_running
  unfolding run_task
  run_task-running now later args s m = elim (Result-cases (parse_cmti_args args)) [
    | inl (x, e) ↦ rw (e, run_task) refl
    | inr ((storage, index), e) ↦
        rw (e, run_task)
          (received-running later (read_sms modem left_first what storage index m).0
            (record s { multipart_cache = cleanup_cache now s.multipart_cache }))
  ]

  next_round :
      (now later : ℕ) (queue : List Bytes) (s : Service) (m : M)
      → s.background_running ≡ true
      → s.task_queue ≡ queue
      → background_worker modem left_first what now later s m
        ≡ next_task modem left_first what now later queue s m
  unfolding background_worker
  next_round now later queue s m b e =
      ap
        (λ running. elim running [
          | false ↦ (s, m)
          | true ↦ next_task modem left_first what now later s.task_queue s m
        ])
        b
      ∙ ap (λ q. next_task modem left_first what now later q s m) e

  round-idle :
      (now later : ℕ) (s : Service) (m : M)
      → s.background_running ≡ true
      → s.task_queue ≡ []
      → background_worker modem left_first what now later s m ≡ (s, m)
  unfolding next_task
  round-idle now later s m b e = next_round now later [] s m b e

  round-busy :
      (now later : ℕ) (args : Bytes) (rest : List Bytes) (s : Service) (m : M)
      → s.background_running ≡ true
      → s.task_queue ≡ args ∷ rest
      → background_worker modem left_first what now later s m ≡ (
          let (s', m') = run_task modem left_first what now later args s m in
          (with_queue rest s', m'))
  unfolding next_task
  round-busy now later args rest s m b e =
      next_round now later (args ∷ rest) s m b e ∙ run_task-queue now later args rest s m

  -- While the service runs, the background thread takes up the notifications in the order in which
  -- they came, each once and one after the other, however its rounds and the notifications of the IO
  -- thread alternate: the tasks done, in front of those still queued, are those queued at first and
  -- those that came, and what they do to the service and the modem is what they do in a row.
  pub run-tasks :
      (events : List Event) (s : Service) (m : M)
      → s.background_running ≡ true
      → (tasks : List (ℕ × ℕ × Bytes)) × (queue_arguments tasks ++ (run events s m).0.task_queue
          ≡ s.task_queue ++ arguments events)
        × ((with_queue [] (run events s m).0, (run events s m).1)
            ≡ run_tasks tasks (with_queue [] s) m)
  unfolding handle_cmti
  run-tasks [] s m h = ([], sym (append-nil s.task_queue), refl)
  run-tasks (notification args ∷ events) s m h =
      let (tasks, order, same) = run-tasks events (handle_cmti args s) m h in
      (tasks, order ∙ append_assoc s.task_queue (args ∷ []) (arguments events), same)
  run-tasks (round now later ∷ events) s m h = elim (List-cases s.task_queue) [
    | inl e ↦
        let (tasks, order, same) = run-tasks events s m h in
        let idle = round-idle now later s m h e in
        (
          tasks,
          ap (λ r. queue_arguments tasks ++ (run events r.0 r.1).0.task_queue) idle ∙ order,
          ap (λ r. (with_queue [] (run events r.0 r.1).0, (run events r.0 r.1).1)) idle ∙ same,
        )
    | inr (args, rest, e) ↦
        let busy = round-busy now later args rest s m h e in
        let done = run_task modem left_first what now later args s m in
        let (tasks, order, same) =
          run-tasks events (with_queue rest done.0) done.1
            (run_task-running now later args s m ∙ h) in
        (
          (now, later, args) ∷ tasks,
          ap (λ r. args ∷ (queue_arguments tasks ++ (run events r.0 r.1).0.task_queue)) busy
              ∙ ap (◌∷◌ args) order
              ∙ ap (λ queue. queue ++ arguments events) (sym e),
          ap (λ r. (with_queue [] (run events r.0 r.1).0, (run events r.0 r.1).1)) busy
              ∙ same
              ∙ ap (λ r. run_tasks tasks r.0 r.1) (sym (run_task-queue now later args [] s m)),
        )
  ]
