-- ===== src/SagaFlow.antt =====
-- repositories/saga.py and workers/saga_coordinator.py: a saga's completion, its rollback and its
-- settlement.
pub mod Steps
pub mod Order
pub mod Rollback
pub mod Once
use Prim.Native.String.{◌++◌ as concat}
use incident_platform.Prelude.{
  ℕ, ◌+◌, Bool, true, false, not, ◌&&◌, ◌||◌, Option, none, some, List, [], ◌∷◌, ◌++◌, String, ◌==◌,
  ltb, leb, ends_with, if◌then◌else◌, select, any, all, is_nil, length, count_where, reverse,
}
use incident_platform.Store.{
  JobStatus, waiting, pending, completed, dead_letter, cancelled, same_status, is_terminal,
  SagaStatus, saga_running, saga_completed, saga_failed, compensating, compensated, Message, text,
  Json, json_id, Payload, Job, job_submitted, submitted, Saga, Db, AuditRow, AuditAction,
  saga_created, saga_completed_audit, saga_compensating, saga_settled, add_event, log,
}
use incident_platform.Store.Table.{find_where, update_where}
use incident_platform.Store.Events.{JsonSize}
use incident_platform.JobRepo.{get_by_id, update_status}

abbrev pub compensate_suffix : String
compensate_suffix = ".compensate"

abbrev pub is_compensation : Job → Bool
is_compensation job = ends_with job.type compensate_suffix

unfoldable pub get_saga : ℕ → Db → Option Saga
get_saga id db = find_where (λ (s : Saga). s.id == id) db.sagas

abbrev pub in_saga : ℕ → Option ℕ → Bool
in_saga id none = false
in_saga id (some s) = s == id

-- `_STEP_ORDER`: the step index with NULLs last, then the creation time, then the id.
abbrev pub index_before : Option ℕ → Option ℕ → Bool
index_before none b = false
index_before (some a) none = true
index_before (some a) (some b) = ltb a b

abbrev pub index_same : Option ℕ → Option ℕ → Bool
index_same none none = true
index_same (some a) (some b) = a == b
index_same a b = false

abbrev pub step_before : Job → Job → Bool
step_before a b =
    if index_before a.saga_step_index b.saga_step_index
    then true
    else if index_same a.saga_step_index b.saga_step_index
    then (if ltb a.created_at b.created_at
        then true
        else a.created_at == b.created_at && leb a.id b.id)
    else false

unfoldable pub insert_step : Job → List Job → List Job
insert_step a [] = a ∷ []
insert_step a (b ∷ bs) =
    let rest = insert_step a bs in if step_before a b then a ∷ b ∷ bs else b ∷ rest

unfoldable pub step_order : List Job → List Job
unfolding insert_step
step_order [] = []
step_order (j ∷ js) = insert_step j (step_order js)

-- `SagaRepository.jobs`, `completed_steps` and `waiting_steps`.
unfoldable pub saga_jobs : ℕ → Db → List Job
unfolding step_order
saga_jobs id db = step_order (select (λ (j : Job). in_saga id j.saga_id) db.jobs)

unfoldable pub completed_steps : ℕ → Db → List Job
unfolding step_order
completed_steps id db =
    step_order
      (select (λ (j : Job). in_saga id j.saga_id && same_status j.status completed) db.jobs)

unfoldable pub waiting_steps : ℕ → Db → List Job
waiting_steps id db =
    select
      (λ (j : Job).
        in_saga id j.saga_id && (same_status j.status waiting || same_status j.status pending))
      db.jobs

-- `saga.status = …; saga.completed_at = …; flush()`.
abbrev pub set_saga : ℕ → (Saga → Saga) → Db → Db
set_saga id f db = record db { sagas = update_where (λ (s : Saga). s.id == id) f db.sagas }

saga_row : AuditAction → Saga → AuditRow
saga_row action saga = record {
  action = action;
  tenant_id = saga.tenant_id;
  user_id = none;
  principal_id = none;
  job_id = none;
}

-- `_handle_completion`.
unfoldable pub handle_completion : ℕ → Saga → Db → Db
unfolding saga_jobs log saga_row
handle_completion now saga db =
    let steps = saga_jobs saga.id db in
    if not (is_nil steps) && all (λ (j : Job). same_status j.status completed) steps
    then log (saga_row (saga_completed_audit (length steps)) saga)
        (set_saga saga.id (λ s. record s { status = saga_completed; completed_at = some now }) db)
    else db

-- `_settle_if_drained`.
abbrev pub unsuccessful : List Job → ℕ
unsuccessful = count_where (λ (j : Job). not (same_status j.status completed))

unfoldable pub settle_if_drained : ℕ → Saga → Db → Db
unfolding saga_jobs log saga_row
settle_if_drained now saga db =
    let comp_jobs = select is_compensation (saga_jobs saga.id db) in
    let bad = unsuccessful comp_jobs in
    if any (λ (j : Job). not (is_terminal j.status)) comp_jobs
    then db
    else log (saga_row (saga_settled (bad == 0) (length comp_jobs) bad) saga) (
        set_saga saga.id
          (λ s. record s {
            status = if bad == 0 then compensated else saga_failed;
            completed_at = some now;
          })
          db)

-- What the rollback writes into a cancelled step.
abbrev pub cancel_note : Job → Job
cancel_note row = record row { error_message = some (text "saga rollback") }

-- The loop that cancels the steps still to come.
unfoldable pub cancel_steps : ℕ → JsonSize → ℕ → List Job → ℕ → Db → ℕ × Db
unfolding update_status
cancel_steps now size failed_id [] count db = (count, db)
cancel_steps now size failed_id (w ∷ ws) count db =
    if w.id == failed_id
    then cancel_steps now size failed_id ws count db
    else cancel_steps now size failed_id ws (count + 1)
        (update_status now size w.id cancelled cancel_note none db).1

-- The payload, the row and the event of one compensation.
abbrev pub comp_payload : ℕ → ℕ → Payload
comp_payload done_id saga_id =
    ("compensates_job_id", json_id done_id) ∷ ("saga_id", json_id saga_id) ∷ []

unfoldable pub compensation_row : ℕ → Saga → ℕ → Job → ℕ → Job
compensation_row now saga user done id = record {
  id = id;
  tenant_id = saga.tenant_id;
  user_id = user;
  type = concat done.type compensate_suffix;
  status = pending;
  idempotency_key = none;
  payload = some (comp_payload done.id saga.id);
  result = none;
  error_message = none;
  retry_count = 0;
  max_attempts = done.max_attempts;
  remediation_hint = none;
  dead_lettered_by = none;
  fenced_at = none;
  fenced_by = none;
  priority = done.priority;
  trace_id = done.trace_id;
  created_at = now;
  updated_at = now;
  started_at = none;
  completed_at = none;
  requeued_at = none;
  heartbeat_at = none;
  saga_id = some saga.id;
  saga_step_index = none;
}

unfoldable pub emit_compensation : ℕ → Saga → ℕ → Job → Db → Db
unfolding compensation_row add_event
emit_compensation now saga user done db =
    let job = compensation_row now saga user done db.next_id in
    add_event now saga.tenant_id job_submitted (saga.tenant_id, user)
      (submitted saga.tenant_id job.id user job.type (comp_payload done.id saga.id) done.priority
        done.trace_id)
      (record db { jobs = db.jobs ++ job ∷ []; next_id = db.next_id + 1 })

unfoldable pub emit_compensations : ℕ → Saga → ℕ → List Job → Db → Db
unfolding emit_compensation
emit_compensations now saga user [] db = db
emit_compensations now saga user (done ∷ rest) db =
    emit_compensations now saga user rest (emit_compensation now saga user done db)

-- `_handle_failure`.
unfoldable pub handle_failure : ℕ → JsonSize → Saga → ℕ → ℕ → Db → Db
unfolding waiting_steps cancel_steps completed_steps emit_compensations settle_if_drained log
    saga_row
handle_failure now size saga failed_id user db =
    let marked = set_saga saga.id (λ s. record s { status = compensating }) db in
    let (count, stopped) =
      cancel_steps now size failed_id (waiting_steps saga.id marked) 0 marked in
    let completed_jobs = completed_steps saga.id stopped in
    let rolled =
      log (saga_row (saga_compensating failed_id (length completed_jobs) count) saga)
        (emit_compensations now saga user (reverse completed_jobs) stopped) in
    if is_nil completed_jobs then settle_if_drained now saga rolled else rolled

-- A job's terminal event as the coordinator reads it.
pub data StepEvent : Type 0 where
  step_done step_dead step_other : StepEvent

-- Which handler an event reaches, by the saga's status and whether its job is a compensation.
pub data Route : Type 0 where
  to_completion to_failure to_settlement ignored : Route

pub route : SagaStatus → Bool → StepEvent → Route
route saga_running false step_done = to_completion
route saga_running false step_dead = to_failure
route compensating true step_done = to_settlement
route compensating true step_dead = to_settlement
route _ _ _ = ignored

handle_route : ℕ → JsonSize → Route → Saga → Job → Db → Db
unfolding handle_completion handle_failure settle_if_drained
handle_route now size to_completion saga job db = handle_completion now saga db
handle_route now size to_failure saga job db = handle_failure now size saga job.id job.user_id db
handle_route now size to_settlement saga job db = settle_if_drained now saga db
handle_route now size ignored saga job db = db

handle_in_saga : ℕ → JsonSize → StepEvent → Option Saga → Job → Db → Db
unfolding handle_route route
handle_in_saga now size event none job db = db
handle_in_saga now size event (some saga) job db =
    handle_route now size (route saga.status (is_compensation job) event) saga job db

abbrev saga_of : Option ℕ → Db → Option Saga
saga_of none db = none
saga_of (some id) db = get_saga id db

handle_job : ℕ → JsonSize → StepEvent → Option Job → Db → Db
unfolding handle_in_saga
handle_job now size event none db = db
handle_job now size event (some job) db =
    handle_in_saga now size event (saga_of job.saga_id db) job db

-- `SagaCoordinator.handle_message`.
unfoldable pub handle_step_event : ℕ → JsonSize → StepEvent → ℕ → Db → Db
unfolding handle_job get_saga
handle_step_event now size event id db = handle_job now size event (get_by_id id db) db
