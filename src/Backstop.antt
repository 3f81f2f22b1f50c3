-- ===== src/Backstop.antt =====
-- `_promote_delayed_once` and `_requeue_stale_pending_once` of workers/dispatcher.py: how a PENDING
-- job that waits for nothing gets back on its topic. The rows of a scan come in the table's order.
-- The pass over the stale rows is one transaction, so one that fails leaves nothing.
pub mod Requeued
pub mod Promoted
use incident_platform.Prelude.{
  ℕ, ◌+◌, ◌-◌, Bool, true, false, not, ◌&&◌, Option, none, some, List, [], ◌∷◌, ◌==◌, ltb,
  if◌then◌else◌, select, take, any,
}
use incident_platform.Store.{JobStatus, pending, same_status, Job, job_submitted, Db, add_event}
use incident_platform.Store.Events.{job_submitted_payload}
use incident_platform.Store.Table.{update_where}
use incident_platform.JobRepo.{has_id, get_by_id}
use incident_platform.DagPause.{find_blocking_pause}
use incident_platform.Queue.{Delayed, push_delayed, pop_ready_delayed}
use incident_platform.Run.{World, pause_recheck_seconds, push_if_up}

abbrev pub stale_pending_age_seconds : ℕ
stale_pending_age_seconds = 300

abbrev pub stale_pending_limit : ℕ
stale_pending_limit = 100

abbrev pub promote_retry_delay_seconds : ℕ
promote_retry_delay_seconds = 5

abbrev pub requeued_before : ℕ → Option ℕ → Bool
requeued_before cutoff none = true
requeued_before cutoff (some t) = ltb t cutoff

abbrev pub is_stale_pending : ℕ → Job → Bool
is_stale_pending now job =
    same_status job.status pending
    && ltb job.updated_at (now - stale_pending_age_seconds)
    && requeued_before (now - stale_pending_age_seconds) job.requeued_at

-- `zscore(…) is not None`.
abbrev pub is_delayed : List Delayed → ℕ → Bool
is_delayed set id = any (λ (d : Delayed). d.member == id) set

-- A `job.submitted` row for a job.
unfoldable pub resubmit : ℕ → Job → Db → Db
unfolding add_event job_submitted_payload
resubmit now job db =
    add_event now job.tenant_id job_submitted (job.tenant_id, job.user_id)
      (job_submitted_payload job) db

unfoldable pub stamp_requeued : ℕ → ℕ → Db → Db
stamp_requeued now id db = record db {
  jobs = update_where (has_id id) (λ job. record job { requeued_at = some now }) db.jobs;
}

unfoldable pub requeue_rows : ℕ → List Delayed → List Job → Db → Db
unfolding resubmit stamp_requeued
requeue_rows now set [] db = db
requeue_rows now set (job ∷ jobs) db =
    requeue_rows now set jobs
      (if is_delayed set job.id then db else stamp_requeued now job.id (resubmit now job db))

unfoldable pub scan_stale_pending : ℕ → Db → List Job
scan_stale_pending now db = take stale_pending_limit (select (is_stale_pending now) db.jobs)

-- `_requeue_stale_pending_once`.
unfoldable pub requeue_stale_pending_once : ℕ → List Delayed → Db → Db
unfolding requeue_rows scan_stale_pending
requeue_stale_pending_once now set db = requeue_rows now set (scan_stale_pending now db) db

-- What a pass of the promotion meets: the pause flags, where Redis answers, the ids whose transaction
-- fails, and whether Redis takes what is pushed back.
pub record Promotion : Type 0 where
  pub now : ℕ
  pub paused : Option (ℕ → Bool)
  pub fails : ℕ → Bool
  pub redis_up : Bool

promote_found : Promotion → Job → Option ℕ → World → World
unfolding resubmit push_if_up
promote_found p job none w = record w { db = resubmit p.now job w.db }
promote_found p job (some paused_by) w = record w {
  delayed = push_if_up p.redis_up p.now job.id (some pause_recheck_seconds) w.delayed;
}

promote_row : Promotion → Option Job → World → World
unfolding promote_found
promote_row p none w = w
promote_row p (some job) w = promote_found p job (find_blocking_pause p.paused w.db.edges job.id) w

-- One id that was popped; a member that is no id is dropped, and is none here.
unfoldable pub promote_popped : Promotion → ℕ → World → World
unfolding promote_row push_if_up
promote_popped p id w =
    if p.fails id
    then record w {
      delayed = push_if_up p.redis_up p.now id (some promote_retry_delay_seconds) w.delayed;
    }
    else promote_row p (get_by_id id w.db) w

unfoldable pub promote_all : Promotion → List Delayed → World → World
unfolding promote_popped
promote_all p [] w = w
promote_all p (d ∷ ds) w = promote_all p ds (promote_popped p d.member w)

-- `_promote_delayed_once`.
unfoldable pub promote_delayed_once : Promotion → World → World
unfolding promote_all
promote_delayed_once p w =
    let (due, left) = pop_ready_delayed p.now w.delayed in
    promote_all p due (record w { delayed = left })
