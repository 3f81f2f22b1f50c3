-- ===== src/Sweep.antt =====
-- `_sweep_stale_running_once` and `_force_dead_letter` of workers/dispatcher.py: the recoveries that
-- dead-letter a RUNNING job. The scan has no ORDER BY: the rows come in the table's order. What
-- other transactions commit between the scan and a row's own transaction, and whether that
-- transaction fails, are functions of the row's id.
pub mod Scanned
pub mod Recovered
pub mod Passes
use incident_platform.Prelude.{
  ℕ, ◌+◌, ◌-◌, Bool, true, false, not, ◌&&◌, Option, none, some, List, [], ◌∷◌, String, ◌==◌, ltb,
  if◌then◌else◌, select, take, member, is_none,
}
use incident_platform.Store.{
  JobStatus, running, dead_letter, same_status, is_terminal, Message, text, dispatcher_escape, Job,
  AuditAction, job_dead_letter, AuditRow, Db, log,
}
use incident_platform.Store.Events.{JsonSize}
use incident_platform.JobRepo.{get_by_id, update_status, update_status_guarded}

abbrev pub stale_running_sweep_limit : ℕ
stale_running_sweep_limit = 100

abbrev pub running_lease_ttl_seconds : ℕ
running_lease_ttl_seconds = 120

abbrev pub in_flight_exclusion_grace_seconds : ℕ
in_flight_exclusion_grace_seconds = 300

-- `IS NOT NULL AND … < cutoff`, and `IS NULL OR … < cutoff`.
abbrev pub passed_by : ℕ → Option ℕ → Bool
passed_by cutoff none = false
passed_by cutoff (some t) = ltb t cutoff

abbrev pub lapsed_by : ℕ → Option ℕ → Bool
lapsed_by cutoff none = true
lapsed_by cutoff (some t) = ltb t cutoff

abbrev pub is_stale_running : ℕ → ℕ → Job → Bool
is_stale_running now threshold job =
    same_status job.status running
    && passed_by (now - threshold) job.started_at
    && lapsed_by (now - running_lease_ttl_seconds) job.heartbeat_at

unfoldable pub scan_stale_running : ℕ → ℕ → Db → List Job
scan_stale_running now threshold db =
    take stale_running_sweep_limit (select (is_stale_running now threshold) db.jobs)

abbrev pub stale_seconds : ℕ → Option ℕ → ℕ
stale_seconds now none = 0
stale_seconds now (some started_at) = now - started_at

-- A job of this worker's own, not yet past the grace.
abbrev pub is_excluded : ℕ → ℕ → List ℕ → Job → Bool
is_excluded now threshold in_flight row =
    member row.id in_flight
    && ltb (stale_seconds now row.started_at) (threshold + in_flight_exclusion_grace_seconds)

abbrev pub same_stamp : Option ℕ → Option ℕ → Bool
same_stamp none none = true
same_stamp none (some t) = false
same_stamp (some s) none = false
same_stamp (some s) (some t) = s == t

-- The `guard`: the row as the scan saw it. The scan's `started_at` is never NULL.
abbrev pub unchanged_since : Job → Job → Bool
unchanged_since seen job =
    same_status job.status running
    && same_stamp job.started_at seen.started_at
    && same_stamp job.heartbeat_at seen.heartbeat_at

abbrev pub recovery_error : Bool → Message
recovery_error false = text "worker crash recovery: job exceeded stale-RUNNING threshold"
recovery_error true =
    text
      "stuck job recovery: still RUNNING long past its execution deadline while held by this worker"

abbrev pub recovery_reason : Bool → String
recovery_reason false = "worker_crash_recovery"
recovery_reason true = "stuck_local_job"

abbrev pub recovery_row : Bool → Job → AuditRow
recovery_row held row = record {
  action = job_dead_letter (some (recovery_reason held)) (recovery_error held);
  tenant_id = row.tenant_id;
  user_id = none;
  principal_id = none;
  job_id = some row.id;
}

-- The audit row, where the compare-and-set wrote.
pub log_settled : Bool → Job → Option Job × Db → Bool × Db
unfolding log
log_settled held row (none, db) = (false, db)
log_settled held row (some settled, db) = (true, log (recovery_row held row) db)

-- What a pass meets outside the database: the worker's own jobs, the two readings of the clock, and
-- what happens around each row's transaction. The writes
-- of the pass carry its second reading.
pub record Pass : Type 0 where
  pub scanned_at : ℕ
  pub now : ℕ
  pub threshold_seconds : ℕ
  pub in_flight : List ℕ
  pub others : ℕ → Db → Db
  pub fails : ℕ → Bool

-- One row of the scan, in a transaction of its own: whether it was recovered.
unfoldable pub recover_row : JsonSize → Pass → Job → Db → Bool × Db
unfolding log_settled update_status_guarded
recover_row size pass row db =
    let held = member row.id pass.in_flight in
    let seen = pass.others row.id db in
    if is_excluded pass.now pass.threshold_seconds pass.in_flight row
    then (false, db)
    else if pass.fails row.id
    then (false, seen)
    else log_settled held row (
        update_status_guarded pass.now size row.id dead_letter
          (λ job. record job { error_message = some (recovery_error held) }) none
          (unchanged_since row) seen)

unfoldable pub recover_rows : JsonSize → Pass → List Job → Db → ℕ × Db
unfolding recover_row
recover_rows size pass [] db = (0, db)
recover_rows size pass (row ∷ rows) db =
    let (recovered, db') = recover_row size pass row db in
    let (count, db'') = recover_rows size pass rows db' in
    ((if recovered then 1 else 0) + count, db'')

-- `_sweep_stale_running_once`: the number of jobs dead-lettered.
unfoldable pub sweep_stale_running_once : JsonSize → Pass → Db → ℕ × Db
unfolding recover_rows scan_stale_running
sweep_stale_running_once size pass db =
    recover_rows size pass (scan_stale_running pass.scanned_at pass.threshold_seconds db) db

escape_row : Message → Job → AuditRow
escape_row error job = record {
  action = job_dead_letter (some "dispatcher_escape") error;
  tenant_id = job.tenant_id;
  user_id = none;
  principal_id = none;
  job_id = some job.id;
}

force_found : ℕ → JsonSize → Message → Option Job → Db → Db
unfolding update_status log escape_row
force_found now size error none db = db
force_found now size error (some job) db =
    if is_terminal job.status
    then db
    else log (escape_row error job)
        (update_status now size job.id dead_letter
          (λ row. record row { error_message = some (dispatcher_escape error) }) none db).1

-- `_force_dead_letter` of an id that parses.
unfoldable pub force_dead_letter : ℕ → JsonSize → ℕ → Message → Db → Db
unfolding force_found
force_dead_letter now size id error db = force_found now size error (get_by_id id db) db
