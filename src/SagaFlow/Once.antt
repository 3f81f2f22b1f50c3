-- ===== src/SagaFlow/Once.antt =====
-- `SagaCoordinator.handle_message` of workers/saga_coordinator.py on an event that is delivered
-- again: the saga's status is the guard.
use incident_platform.JobRepo.Cascade.{found-has_id}
use incident_platform.Store.{
  saga_compensating, Job, Db, Saga, SagaStatus, saga_running, compensating, is_terminal, log,
}
use incident_platform.SagaFlow.{
  saga_row, unsuccessful, is_compensation, get_saga, set_saga, saga_jobs, completed_steps,
  waiting_steps, cancel_steps, emit_compensations, settle_if_drained, handle_failure, StepEvent,
  step_dead, ignored, route, handle_route, handle_in_saga, handle_job, handle_step_event,
}
use incident_platform.SagaFlow.Rollback.{emit-sagas, failure-get, in_saga-cancellable}
use incident_platform.Prelude.{
  ℕ, ◌≡◌, refl, sym, subst, Bool, true, false, not, some, List, [], ◌∷◌, inl, inr, arith, ◌==◌,
  Bool-cases, is_nil, length, select, reverse, any,
}
use incident_platform.Store.Table.{find_where, update_where}
use incident_platform.Store.Events.{JsonSize}
use incident_platform.JobRepo.{get_by_id}
use incident_platform.SagaFlow.Steps.{cancel_steps-sagas, cancel_steps-failed}

-- Whether a saga still reacts to the events of its ordinary steps.
abbrev pub is_running : SagaStatus → Bool
is_running saga_running = true
is_running _ = false

route-ignored :
    (status : SagaStatus) (event : StepEvent)
    → is_running status ≡ false
    → route status false event ≡ ignored
unfolding route
route-ignored status event h = ground arith

abbrev pub Stopped : ℕ → Db → Type 0
Stopped id db = (s : Saga) × (get_saga id db ≡ some s) × (is_running s.status ≡ false)

set_saga-Stopped :
    (id : ℕ) (f : Saga → Saga) (sagas : List Saga) (saga : Saga)
    → ((s : Saga) → (f s).id ≡ s.id)
    → ((s : Saga) → is_running (f s).status ≡ false)
    → find_where (λ (s : Saga). s.id == id) sagas ≡ some saga
    → (s : Saga) × (find_where
          (λ (t : Saga). t.id == id)
          (update_where (λ (t : Saga). t.id == id) f sagas)
        ≡ some s)
      × (is_running s.status ≡ false)
set_saga-Stopped id f [] saga hid stop h = cc
set_saga-Stopped id f (s ∷ ss) saga hid stop h = elim (Bool-cases (s.id == id)) [
  | inl e ↦ (f s, rw e (rw (hid s) (rw e refl)), stop s)
  | inr n ↦
      let (t, there, done) = set_saga-Stopped id f ss saga hid stop (rw n at h) in
      (t, rw n (rw n there), done)
]

settle-Stopped :
    (now : ℕ) (saga : Saga) (db : Db)
    → Stopped saga.id db
    → Stopped saga.id (settle_if_drained now saga db)
unfolding settle_if_drained log get_saga
settle-Stopped now saga db (s, there, stop) =
    let comps = select is_compensation (saga_jobs saga.id db) in
    elim (Bool-cases (any (λ (j : Job). not (is_terminal j.status)) comps)) [
      | inl e ↦ rw e (s, there, stop)
      | inr e ↦ rw e (
          set_saga-Stopped saga.id _ db.sagas s (λ t. refl)
            (λ t. elim (Bool-cases (unsuccessful comps == 0)) [
              | inl z ↦ rw z refl
              | inr z ↦ rw z refl
            ])
            there)
    ]

-- The saga of a step whose failure was handled runs no more.
failure-Stopped :
    (now : ℕ) (size : JsonSize) (saga found : Saga) (failed_id user : ℕ) (db : Db)
    → get_saga saga.id db ≡ some found
    → Stopped saga.id (handle_failure now size saga failed_id user db)
unfolding handle_failure log get_saga
failure-Stopped now size saga found failed_id user db h =
    let marked = set_saga saga.id (λ s. record s { status = compensating }) db in
    let stopped = (cancel_steps now size failed_id (waiting_steps saga.id marked) 0 marked).1 in
    let steps = completed_steps saga.id stopped in
    let (s, there, stop) =
      set_saga-Stopped saga.id (λ s. record s { status = compensating }) db.sagas found (λ s. refl)
        (λ s. refl) h in
    let there' : find_where (λ (t : Saga). t.id == saga.id)
          (emit_compensations now saga user (reverse steps) stopped).sagas
        ≡ some s =
      rw (emit-sagas, cancel_steps-sagas) there in
    elim (Bool-cases (is_nil steps)) [
      | inl z ↦ rw z (
          settle-Stopped now saga
            (log
              (saga_row
                (saga_compensating failed_id (length steps)
                  (cancel_steps now size failed_id (waiting_steps saga.id marked) 0 marked).0)
                saga)
              (emit_compensations now saga user (reverse steps) stopped))
            (s, there', stop))
      | inr z ↦ rw z (s, there', stop)
    ]

-- An event of an ordinary step, in a saga that runs no more.
Stopped-ignored :
    (now : ℕ) (size : JsonSize) (event : StepEvent) (id sid : ℕ) (db : Db) (job : Job)
    → get_by_id id db ≡ some job
    → job.saga_id ≡ some sid
    → is_compensation job ≡ false
    → Stopped sid db
    → handle_step_event now size event id db ≡ db
unfolding handle_step_event handle_job handle_in_saga handle_route
Stopped-ignored now size event id sid db job h s c (saga, there, stop) =
    rw h (rw s (rw there (rw c (rw (route-ignored saga.status event stop) refl))))

dead-failure :
    (now : ℕ) (size : JsonSize) (id : ℕ) (db : Db) (job : Job) (saga : Saga)
    → get_by_id id db ≡ some job
    → job.saga_id ≡ some saga.id
    → is_compensation job ≡ false
    → get_saga saga.id db ≡ some saga
    → saga.status ≡ saga_running
    → handle_step_event now size step_dead id db
      ≡ handle_failure now size saga job.id job.user_id db
unfolding handle_step_event handle_job handle_in_saga handle_route route
dead-failure now size id db job saga h s c g r = rw h (rw s (rw g (rw (c, r) refl)))

-- Once the dead-lettering of an ordinary step of a running saga has been handled, no event of that
-- step, the same one delivered again or another, at whatever time, changes anything: a saga is
-- rolled back once.
pub rollback_once :
    (now later : ℕ) (size : JsonSize) (event : StepEvent) (id : ℕ) (db : Db) (job : Job)
    (saga : Saga)
    → get_by_id id db ≡ some job
    → job.saga_id ≡ some saga.id
    → is_compensation job ≡ false
    → get_saga saga.id db ≡ some saga
    → saga.status ≡ saga_running
    → let db' = handle_step_event now size step_dead id db in
      handle_step_event later size event id db' ≡ db'
rollback_once now later size event id db job saga h s c g r =
    let ident = found-has_id id db.jobs job h in
    let free = in_saga-cancellable job saga.id s in
    let marked = set_saga saga.id (λ t. record t { status = compensating }) db in
    let kept = failure-get job.id now size saga job.id job.user_id db job (
      cancel_steps-failed now size job.id (waiting_steps saga.id marked) 0 marked job
        (subst (λ i. get_by_id i db ≡ some job) (sym ident) h) free) in
    rw (dead-failure now size id db job saga h s c g r) (
      Stopped-ignored later size event id saga.id
        (handle_failure now size saga job.id job.user_id db) job
        (subst (λ i. get_by_id i (handle_failure now size saga job.id job.user_id db) ≡ some job)
          ident kept)
        s c (failure-Stopped now size saga saga job.id job.user_id db g))
