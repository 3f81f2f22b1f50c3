-- ===== src/SagaFlow/Rollback.antt =====
-- `_handle_failure` of workers/saga_coordinator.py: which compensations a rollback starts, which
-- steps it cancels, and that it happens once.

use Prim.Native.String.{◌++◌ as concat}
use incident_platform.Prelude.{
  none, ◌≤◌, some_eq, ==_sym, ℕ, ◌+◌, ◌≡◌, ◌≢◌, refl, sym, ◌∙◌, subst, Bool, true, false, not, ◌&&◌,
  ◌||◌, some, List, [], ◌∷◌, ◌++◌, inl, inr, arith, ◌==◌, Bool-cases, is_nil, map, member,
  append-nil, append_assoc, select, reverse, any, ends_with-append, ==_refl,
}
use incident_platform.Store.{
  OutboxEvent, job_submitted, submitted, waiting, pending, Job, Db, Saga, compensating, add_event,
  same_status, is_terminal, log,
}
use incident_platform.Store.Table.{find_where}
use incident_platform.Store.Events.{JsonSize}
use incident_platform.JobRepo.{has_id, get_by_id, cancellable}
use incident_platform.SagaFlow.Order.{AreCompleted, completed_steps-AreCompleted}
use incident_platform.SagaFlow.Steps.{cancel_steps-IsCancelled, IsCancelled}
use incident_platform.SagaFlow.{
  compensate_suffix, is_compensation, in_saga, set_saga, saga_jobs, completed_steps, waiting_steps,
  cancel_steps, comp_payload, compensation_row, emit_compensation, emit_compensations,
  settle_if_drained, handle_failure,
}

-- The rows and the events that compensate a list of completed steps, one of each for each step and in
-- their order: the row is PENDING, of the saga and its tenant, runs the step's compensation for its
-- job and has an id of its own, from `from` on; and the event announces that row.
pub Compensates : Saga → ℕ → ℕ → List Job → List Job → List OutboxEvent → Type 0
Compensates saga user from [] [] [] = Unit
Compensates saga user from (done ∷ ds) (row ∷ rows) (e ∷ es) =
    (row.status ≡ pending)
    × (row.tenant_id ≡ saga.tenant_id)
    × (row.user_id ≡ user)
    × (row.type ≡ concat done.type compensate_suffix)
    × (row.saga_id ≡ some saga.id)
    × (row.payload ≡ some (comp_payload done.id saga.id))
    × (is_compensation row ≡ true)
    × (from ≤ row.id)
    × (e.topic ≡ job_submitted)
    × (e.payload
        ≡ submitted saga.tenant_id row.id user row.type (comp_payload done.id saga.id) row.priority
            row.trace_id)
    × Compensates saga user (row.id + 1) ds rows es
Compensates saga user from _ _ _ = ⊥

row-is_compensation :
    (now : ℕ) (saga : Saga) (user : ℕ) (done : Job) (id : ℕ)
    → is_compensation (compensation_row now saga user done id) ≡ true
unfolding compensation_row
row-is_compensation now saga user done id = ends_with-append done.type compensate_suffix

from_earlier :
    (saga : Saga) (user a b : ℕ) (ds rows : List Job) (es : List OutboxEvent)
    → a ≤ b
    → Compensates saga user b ds rows es
    → Compensates saga user a ds rows es
unfolding Compensates
from_earlier saga user a b [] [] [] le c = c
from_earlier saga user a b (d ∷ ds) (r ∷ rows) (e ∷ es) le (s, t, u, y, i, p, k, n, o, m, c) =
    (s, t, u, y, i, p, k, omega (arith, le, n), o, m, c)
from_earlier saga user a b [] [] (e ∷ es) le c = c
from_earlier saga user a b [] (r ∷ rows) es le c = c
from_earlier saga user a b (d ∷ ds) [] es le c = c
from_earlier saga user a b (d ∷ ds) (r ∷ rows) [] le c = c

emit_compensations_exact :
    (now : ℕ) (saga : Saga) (user : ℕ) (steps : List Job) (db : Db)
    → (rows : List Job) × (events : List OutboxEvent) × ((emit_compensations now saga user steps
          db).jobs
        ≡ db.jobs ++ rows)
      × ((emit_compensations now saga user steps db).outbox ≡ db.outbox ++ events)
      × Compensates saga user db.next_id steps rows events
unfolding emit_compensations emit_compensation Compensates compensation_row add_event
emit_compensations_exact now saga user [] db =
    ([], [], sym (append-nil db.jobs), sym (append-nil db.outbox), tt)
emit_compensations_exact now saga user (done ∷ ds) db =
    let row = compensation_row now saga user done db.next_id in
    let event : OutboxEvent = record {
      id = db.next_id + 1;
      tenant_id = saga.tenant_id;
      topic = job_submitted;
      key = (saga.tenant_id, user);
      payload =
          submitted saga.tenant_id row.id user row.type (comp_payload done.id saga.id) row.priority
            row.trace_id;
      attempts = 0;
      created_at = now;
      published_at = none;
      failed_at = none;
      error_message = none;
    } in
    let (rows, events, e, o, c) =
      emit_compensations_exact now saga user ds (emit_compensation now saga user done db) in
    (
      row ∷ rows,
      event ∷ events,
      e ∙ append_assoc db.jobs (row ∷ []) rows,
      o ∙ append_assoc db.outbox (event ∷ []) events,
      (
        refl,
        refl,
        refl,
        refl,
        refl,
        refl,
        row-is_compensation now saga user done db.next_id,
        omega arith,
        refl,
        refl,
        from_earlier saga user (db.next_id + 1) (db.next_id + 1 + 1) ds rows events (omega arith) c,
      ),
    )

pub emit-sagas :
    (now : ℕ) (saga : Saga) (user : ℕ) (steps : List Job) (db : Db)
    → (emit_compensations now saga user steps db).sagas ≡ db.sagas
unfolding emit_compensations emit_compensation add_event
emit-sagas now saga user [] db = refl
emit-sagas now saga user (done ∷ ds) db =
    emit-sagas now saga user ds (emit_compensation now saga user done db)

find-before :
    (k : ℕ) (xs ys : List Job) (job : Job)
    → find_where (has_id k) xs ≡ some job
    → find_where (has_id k) (xs ++ ys) ≡ some job
find-before k [] ys job h = cc
find-before k (x ∷ xs) ys job h = ground (arith, find-before k xs ys job)

settle-jobs : (now : ℕ) (saga : Saga) (db : Db) → (settle_if_drained now saga db).jobs ≡ db.jobs
unfolding settle_if_drained log
settle-jobs now saga db =
    elim (Bool-cases (
      any (λ (j : Job). not (is_terminal j.status))
        (select is_compensation (saga_jobs saga.id db)))) [ inl e ↦ rw e refl | inr e ↦ rw e refl ]

settle-outbox :
    (now : ℕ) (saga : Saga) (db : Db) → (settle_if_drained now saga db).outbox ≡ db.outbox
unfolding settle_if_drained log
settle-outbox now saga db =
    elim (Bool-cases (
      any (λ (j : Job). not (is_terminal j.status))
        (select is_compensation (saga_jobs saga.id db)))) [ inl e ↦ rw e refl | inr e ↦ rw e refl ]

-- The database of a rollback that has cancelled the steps still to come.
abbrev pub stopped_steps : ℕ → JsonSize → Saga → ℕ → Db → Db
stopped_steps now size saga failed_id db =
    let marked = set_saga saga.id (λ s. record s { status = compensating }) db in
    (cancel_steps now size failed_id (waiting_steps saga.id marked) 0 marked).1

-- The rollback of a saga, once it has cancelled the steps still to come, appends one row and one event
-- for each row of the saga that is COMPLETED, from the last index to the first: the new row is
-- PENDING, of the saga, its tenant and the user, has the type of the step's compensation, the step's
-- id in its payload and an id that no earlier row was given; and the event is a `job.submitted` event
-- of that row's id, type and payload. It appends nothing else to the two tables.
pub handle_failure-Compensates :
    (now : ℕ) (size : JsonSize) (saga : Saga) (failed_id user : ℕ) (db : Db)
    → let stopped = stopped_steps now size saga failed_id db in
      let after = handle_failure now size saga failed_id user db in
      (steps : List Job) × (rows : List Job) × (events : List OutboxEvent) × AreCompleted saga.id
        stopped.jobs steps
      × (after.jobs ≡ stopped.jobs ++ rows)
      × (after.outbox ≡ stopped.outbox ++ events)
      × Compensates saga user stopped.next_id (reverse steps) rows events
unfolding handle_failure log
handle_failure-Compensates now size saga failed_id user db =
    let stopped = stopped_steps now size saga failed_id db in
    let steps = completed_steps saga.id stopped in
    let are = completed_steps-AreCompleted saga.id stopped in
    let (rows, events, e, o, c) = emit_compensations_exact now saga user (reverse steps) stopped in
    elim (Bool-cases (is_nil steps)) [
      | inl z ↦ (steps, rows, events, are, rw z (rw settle-jobs e), rw z (rw settle-outbox o), c)
      | inr z ↦ (steps, rows, events, are, rw z e, rw z o, c)
    ]

-- A row that the cancellations leave is there at the end.
pub failure-get :
    (k now : ℕ) (size : JsonSize) (saga : Saga) (failed_id user : ℕ) (db : Db) (job : Job)
    → let marked = set_saga saga.id (λ s. record s { status = compensating }) db in
      get_by_id k (cancel_steps now size failed_id (waiting_steps saga.id marked) 0 marked).1
        ≡ some job
      → get_by_id k (handle_failure now size saga failed_id user db) ≡ some job
unfolding handle_failure log
failure-get k now size saga failed_id user db job h =
    let marked = set_saga saga.id (λ s. record s { status = compensating }) db in
    let stopped = (cancel_steps now size failed_id (waiting_steps saga.id marked) 0 marked).1 in
    let steps = completed_steps saga.id stopped in
    let (rows, events, e, o, c) = emit_compensations_exact now saga user (reverse steps) stopped in
    let there : find_where (has_id k)
          (emit_compensations now saga user (reverse steps) stopped).jobs
        ≡ some job =
      rw e (find-before k stopped.jobs rows job h) in
    elim (Bool-cases (is_nil steps)) [ inl z ↦ rw z (rw settle-jobs there) | inr z ↦ rw z there ]

differ : (a b : ℕ) → a ≢ b → (a == b) ≡ false
differ a b n = ground (arith, n)

select-member :
    (k : ℕ) (q : Job → Bool) (xs : List Job) (job : Job)
    → find_where (has_id k) xs ≡ some job
    → q job ≡ true
    → member k (map (λ (j : Job). j.id) (select q xs)) ≡ true
select-member k q [] job h t = cc
select-member k q (x ∷ xs) job h t = elim (Bool-cases (has_id k x)) [
  | inl e ↦
      let same : x ≡ job = some_eq x job (rw e at h) in
      rw (subst (λ j. q j ≡ true) (sym same) t) (rw (==_sym true x.id k e) refl)
  | inr n ↦ elim (Bool-cases (q x)) [
    | inl y ↦ rw y (ground (arith, select-member k q xs job (rw n at h) t))
    | inr y ↦ rw y (select-member k q xs job (rw n at h) t)
  ]
]

pub in_saga-cancellable : (job : Job) (id : ℕ) → job.saga_id ≡ some id → cancellable job ≡ false
in_saga-cancellable job id h = rw h (go (same_status job.status waiting))
  where
    go : (b : Bool) → (b && false) ≡ false
    go true = refl
    go false = refl

-- Every WAITING or PENDING step of the saga but the one whose failure is handled ends CANCELLED.
pub handle_failure_cancels :
    (now : ℕ) (size : JsonSize) (saga : Saga) (failed_id user k : ℕ) (db : Db) (job : Job)
    → get_by_id k db ≡ some job
    → job.saga_id ≡ some saga.id
    → (same_status job.status waiting || same_status job.status pending) ≡ true
    → k ≢ failed_id
    → IsCancelled k (handle_failure now size saga failed_id user db)
unfolding waiting_steps
handle_failure_cancels now size saga failed_id user k db job h s w n =
    let marked = set_saga saga.id (λ s. record s { status = compensating }) db in
    let q = λ (j : Job).
      in_saga saga.id j.saga_id && (same_status j.status waiting || same_status j.status pending) in
    let listed = select-member k q db.jobs job h (rw (s, ==_refl saga.id) w) in
    let (gone, there, e) =
      cancel_steps-IsCancelled k now size failed_id (waiting_steps saga.id marked) 0 marked job h
        (in_saga-cancellable job saga.id s) (differ k failed_id n) listed in
    (gone, failure-get k now size saga failed_id user db gone there, e)
