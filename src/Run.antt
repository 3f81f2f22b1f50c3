-- ===== src/Run.antt =====
-- `_run_job` and its helpers in workers/dispatcher.py: the claim of a job, the run of its processor,
-- which is outside the model and enters as its outcome, and what the run does to the job. What
-- other transactions commit while the processor runs enters as a function on the database.
pub mod Settled
pub mod Retries
use incident_platform.Prelude.{
  ℕ, ◌+◌, ◌^◌, Bool, true, false, not, ◌&&◌, ◌||◌, Option, none, some, List, [], ◌∷◌, String,
  str_eq, ◌==◌, ltb, leb, if◌then◌else◌,
}
use incident_platform.Store.{
  JobStatus, pending, completed, dead_letter, same_status, Message, text, no_processor, timed_out,
  execution_timed_out, exhausted, llm_dead_lettered, retrying, Payload, Job, job_failed,
  retry_event, Db, AuditRow, job_dead_letter, job_completed_audit, add_event, log,
}
use incident_platform.Store.Events.{JsonSize}
use incident_platform.DagPause.{find_blocking_pause}
use incident_platform.JobRepo.{get_by_id, update_status, claim_for_running}
use incident_platform.Queue.{Delayed, push_delayed}

-- How `_execute_processor` ends: a result, the deadline (`JobExecutionTimeout`), or any other
-- `Exception`, by its text. A cancelled task (`CancelledError`) is no outcome: it settles nothing, and
-- its row stays RUNNING until the sweep finds it.
pub data Outcome : Type 0 where
  returned : Payload → Outcome
  deadline : Outcome
  raised : Message → Outcome

-- What `retry_policy.decide_retry` answers.
pub data Decision : Type 0 where
  retry_with_backoff : (backoff_seconds : ℕ) → Decision
  dead_letter_now : (reasoning : Message) → Decision

pub record Settings : Type 0 where
  pub job_retry_backoff_base : ℕ
  pub job_execution_timeout_seconds : ℕ
  pub llm_retry_policy_enabled : Bool
  pub llm_retry_policy_min_retry_count : ℕ

-- The members of `JobType`; each has a processor in `_PROCESSORS`.
unfoldable pub has_processor : String → Bool
has_processor type =
    str_eq type "csv_upload"
    || str_eq type "report_gen"
    || str_eq type "bulk_api_sync"
    || str_eq type "doc_analysis"

abbrev pub pause_recheck_seconds : ℕ
pause_recheck_seconds = 10

-- How the first transaction ends: nothing to do, held by a pause, or claimed, with the row as it
-- was read before the claim.
pub data Start : Type 0 where
  skipped : Start
  held : (paused_by : ℕ) → Start
  claimed : Job → Start

start_claimed : Job → Bool × Db → Start × Db
start_claimed job (true, db) = (claimed job, db)
start_claimed job (false, db) = (skipped, db)

start_pending : ℕ → Option ℕ → Job → Db → Start × Db
unfolding start_claimed
start_pending now (some paused_by) job db = (held paused_by, db)
start_pending now none job db = start_claimed job (claim_for_running now job.id db)

start_found : ℕ → Option (ℕ → Bool) → Option Job → Db → Start × Db
unfolding start_pending
start_found now paused none db = (skipped, db)
start_found now paused (some job) db =
    if same_status job.status pending
    then start_pending now (find_blocking_pause paused db.edges job.id) job db
    else (skipped, db)

unfoldable pub start_job : ℕ → Option (ℕ → Bool) → ℕ → Db → Start × Db
unfolding start_found
start_job now paused id db = start_found now paused (get_by_id id db) db

abbrev dead_letter_row : Job → Option String → Message → AuditRow
dead_letter_row job reason error = record {
  action = job_dead_letter reason error;
  tenant_id = job.tenant_id;
  user_id = none;
  principal_id = none;
  job_id = some job.id;
}

-- A type with no processor.
unfoldable pub settle_unregistered : ℕ → JsonSize → Job → Db → Db
unfolding log
settle_unregistered now size job db =
    let error = no_processor job.type in
    log (dead_letter_row job (some "unregistered_type") error)
      (update_status now size job.id dead_letter
        (λ row. record row { retry_count = job.retry_count; error_message = some error }) none db).1

-- `except JobExecutionTimeout`: terminal at once, the retry count left alone.
unfoldable pub settle_timeout : ℕ → JsonSize → Settings → Job → Db → Db
unfolding log
settle_timeout now size settings job db =
    let exc = timed_out settings.job_execution_timeout_seconds in
    let error = execution_timed_out exc in
    log (dead_letter_row job (some "execution_timeout") exc)
      (update_status now size job.id dead_letter
        (λ row. record row {
          error_message = some error;
          dead_lettered_by = some "execution_timeout";
        })
        (some error) db).1

-- Whether the policy is asked at all.
abbrev pub consults : Settings → Job → Bool
consults settings job =
    ltb (job.retry_count + 1) job.max_attempts
    && settings.llm_retry_policy_enabled
    && leb settings.llm_retry_policy_min_retry_count (job.retry_count + 1)

-- The decision that counts: what the policy answered, and a retry after the deterministic backoff
-- where it was not asked or failed (`none`).
unfoldable pub decide : Settings → Job → Option Decision → Decision
decide settings job none =
    retry_with_backoff (settings.job_retry_backoff_base ^ (job.retry_count + 1))
decide settings job (some decision) =
    if consults settings job
    then decision
    else retry_with_backoff (settings.job_retry_backoff_base ^ (job.retry_count + 1))

-- Retries left: the row goes back to PENDING, with its `job.failed` event.
unfoldable pub settle_retry : ℕ → JsonSize → Message → ℕ → Job → Db → Db
unfolding add_event
settle_retry now size exc delay job db =
    let n = job.retry_count + 1 in
    add_event now job.tenant_id job_failed (job.tenant_id, job.user_id)
      (retry_event job.tenant_id job.id job.user_id job.type exc (retrying delay n job.max_attempts)
        n)
      (update_status now size job.id pending
        (λ row. record row { retry_count = n; error_message = some exc }) none db).1

-- None left.
unfoldable pub settle_exhausted : ℕ → JsonSize → Message → Job → Db → Db
unfolding log
settle_exhausted now size exc job db =
    let n = job.retry_count + 1 in
    log (dead_letter_row job none exc)
      (update_status now size job.id dead_letter
        (λ row. record row { retry_count = n; error_message = some exc }) (some (exhausted n exc))
        db).1

-- The policy gave the job up.
unfoldable pub settle_given_up : ℕ → JsonSize → Message → Message → Job → Db → Db
unfolding log
settle_given_up now size exc reasoning job db =
    let n = job.retry_count + 1 in
    log (dead_letter_row job none exc)
      (update_status now size job.id dead_letter
        (λ row. record row {
          retry_count = n;
          error_message = some exc;
          dead_lettered_by = some "llm_retry_policy";
        })
        (some (llm_dead_lettered reasoning)) db).1

-- The database after a failed run, and the delay to push the job with.
settle_decided : ℕ → JsonSize → Message → Decision → Job → Db → Db × Option ℕ
unfolding settle_retry settle_exhausted settle_given_up
settle_decided now size exc (dead_letter_now reasoning) job db =
    (settle_given_up now size exc reasoning job db, none)
settle_decided now size exc (retry_with_backoff delay) job db =
    if ltb (job.retry_count + 1) job.max_attempts
    then (settle_retry now size exc delay job db, some delay)
    else (settle_exhausted now size exc job db, none)

-- The result is stored.
unfoldable pub settle_completed : ℕ → JsonSize → Payload → Job → Db → Db
unfolding log
settle_completed now size result job db =
    log
      (record {
        action = job_completed_audit job.retry_count;
        tenant_id = job.tenant_id;
        user_id = none;
        principal_id = none;
        job_id = some job.id;
      })
      (update_status now size job.id completed (λ row. record row { result = some result }) none
        db).1

unfoldable pub settle_outcome :
    ℕ → JsonSize → Settings → Option Decision → Outcome → Job → Db → Db × Option ℕ
unfolding settle_timeout settle_decided settle_completed decide
settle_outcome now size settings policy (returned result) job db =
    (settle_completed now size result job db, none)
settle_outcome now size settings policy deadline job db =
    (settle_timeout now size settings job db, none)
settle_outcome now size settings policy (raised exc) job db =
    settle_decided now size exc (decide settings job policy) job db

-- Everything after the claim.
unfoldable pub settle_run :
    ℕ → JsonSize → Settings → Option Decision → Outcome → Job → Db → Db × Option ℕ
unfolding settle_unregistered settle_outcome has_processor
settle_run now size settings policy outcome job db =
    if has_processor job.type
    then settle_outcome now size settings policy outcome job db
    else (settle_unregistered now size job db, none)

-- The push onto the delayed set; where Redis refuses it, the error is logged and nothing else.
unfoldable pub push_if_up : Bool → ℕ → ℕ → Option ℕ → List Delayed → List Delayed
unfolding push_delayed
push_if_up redis_up now id none set = set
push_if_up redis_up now id (some delay) set =
    if redis_up then push_delayed now id delay set else set

pub record World : Type 0 where
  pub db : Db
  pub delayed : List Delayed

-- What a delivery meets outside the two stores.
pub record Delivery : Type 0 where
  pub claimed_at : ℕ
  pub settled_at : ℕ
  pub paused : Option (ℕ → Bool)
  pub redis_up : Bool
  pub policy : Option Decision
  pub outcome : Outcome
  pub others : Db → Db

finish_run : JsonSize → Settings → Delivery → ℕ → Start × Db → List Delayed → World
unfolding settle_run push_if_up
finish_run size settings d id (skipped, db) set = record { db = db; delayed = set }
finish_run size settings d id (held paused_by, db) set = record {
  db = db;
  delayed = push_if_up d.redis_up d.claimed_at id (some pause_recheck_seconds) set;
}
finish_run size settings d id (claimed job, db) set =
    let (db', delay) = settle_run d.settled_at size settings d.policy d.outcome job (d.others db) in
    record { db = db'; delayed = push_if_up d.redis_up d.settled_at id delay set }

unfoldable pub run_job : JsonSize → Settings → Delivery → ℕ → World → World
unfolding start_job finish_run
run_job size settings d id w =
    finish_run size settings d id (start_job d.claimed_at d.paused id w.db) w.delayed
