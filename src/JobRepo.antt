-- ===== src/JobRepo.antt =====
-- repositories/job.py: reads and writes of the `jobs` table. A write that announces itself appends
-- its outbox row to the same database value, so the two are one transaction. `now` is the moment
-- that `datetime.now(UTC)` gives; an UPDATE that does not name `updated_at` sets it.
pub mod Targets
pub mod Cascade
pub mod Announce
pub mod Rows
pub mod Claim
pub mod Guarded
use incident_platform.Prelude.{
  ℕ, zero, suc, ◌+◌, ◌-◌, Bool, true, false, not, ◌&&◌, Option, none, some, List, [], ◌∷◌, ◌++◌,
  String, str_eq, ◌==◌, leb, if◌then◌else◌, select, member, is_nil, count_where, is_none,
}
use incident_platform.Store.{
  JobStatus, waiting, pending, running, completed, failed, dead_letter, cancelled, same_status,
  Message, parent_ended, Job, Topic, job_completed, job_dlq, job_cancelled, Event, Edge, Db,
  add_event, RemediationHint,
}
use incident_platform.Store.Table.{find_where, update_where}
use incident_platform.Store.Events.{
  JsonSize, dlq_event_payload, cancelled_event_payload, completed_event_payload,
}

abbrev pub has_id : ℕ → Job → Bool
has_id id job = job.id == id

-- `BaseRepository.get_by_id`.
abbrev pub get_by_id : ℕ → Db → Option Job
get_by_id id db = find_where (has_id id) db.jobs

abbrev pub same_key : String → Option String → Bool
same_key key none = false
same_key key (some k) = str_eq k key

unfoldable pub get_by_idempotency_key : String → ℕ → Db → Option Job
get_by_idempotency_key key tenant db =
    find_where (λ job. same_key key job.idempotency_key && job.tenant_id == tenant) db.jobs

unfoldable pub get_for_tenant : ℕ → ℕ → Db → Option Job
get_for_tenant id tenant db = find_where (λ job. job.id == id && job.tenant_id == tenant) db.jobs

-- `_TERMINAL_EVENT_STATUSES`, `_COMPLETED_AT_STATUSES` and `_CASCADE_SOURCE_STATUSES`.
abbrev pub announces : JobStatus → Bool
announces dead_letter = true
announces completed = true
announces cancelled = true
announces _ = false

abbrev pub stamps_completed_at : JobStatus → Bool
stamps_completed_at completed = true
stamps_completed_at failed = true
stamps_completed_at dead_letter = true
stamps_completed_at cancelled = true
stamps_completed_at _ = false

abbrev pub cascades : JobStatus → Bool
cascades dead_letter = true
cascades cancelled = true
cascades _ = false

abbrev pub cascade_max_depth : ℕ
cascade_max_depth = 50

-- The `values` of `update_status`. No caller's `extra` names `started_at` or `completed_at`, so
-- the two `not in values` tests pass.
unfoldable pub written : ℕ → JobStatus → (Job → Job) → Job → Job
written now status extra job =
    let values = extra job in
    record values {
      status = status;
      started_at = if same_status status running then some now else values.started_at;
      completed_at = if stamps_completed_at status then some now else values.completed_at;
      updated_at = now;
    }

-- The topic and the payload that `_emit_terminal_event` chooses.
abbrev pub terminal_topic : JobStatus → Topic
terminal_topic dead_letter = job_dlq
terminal_topic cancelled = job_cancelled
terminal_topic _ = job_completed

abbrev pub terminal_payload : JsonSize → JobStatus → Job → Option Message → Event
terminal_payload size dead_letter job message = dlq_event_payload size job message
terminal_payload size cancelled job message = cancelled_event_payload job
terminal_payload size _ job message = completed_event_payload job

unfoldable pub emit_terminal_event : ℕ → JsonSize → Job → JobStatus → Option Message → Db → Db
unfolding add_event
emit_terminal_event now size job status message db =
    add_event now job.tenant_id (terminal_topic status) (job.tenant_id, job.user_id)
      (terminal_payload size status job message) db

-- The WHERE of the cascade's UPDATE: a WAITING row outside every saga.
abbrev pub cancellable : Job → Bool
cancellable job = same_status job.status waiting && is_none job.saga_id

abbrev pub cancellable_row : Option Job → Bool
cancellable_row none = false
cancellable_row (some job) = cancellable job

-- The SELECT of one round: the jobs with an edge into the frontier, joined to their rows.
pub cascade_targets : List Edge → List Job → List ℕ → List ℕ → List ℕ
cascade_targets [] jobs frontier seen = []
cascade_targets (e ∷ es) jobs frontier seen =
    let rest = cascade_targets es jobs frontier seen in
    if member e.depends_on frontier
      && cancellable_row (find_where (has_id e.job_id) jobs)
      && not (member e.job_id seen)
    then e.job_id ∷ rest
    else rest

abbrev pub is_target : List ℕ → Job → Bool
is_target targets job = member job.id targets && cancellable job

-- The row that the cascade's UPDATE writes.
unfoldable pub cascade_cancelled : ℕ → ℕ → JobStatus → Job → Job
cascade_cancelled now parent parent_status job = record job {
  status = cancelled;
  error_message = some (parent_ended parent parent_status);
  completed_at = some now;
  updated_at = now;
}

abbrev pub stamped_at : ℕ → Option ℕ → Bool
stamped_at now none = false
stamped_at now (some t) = t == now

-- The re-read of what changed.
abbrev pub newly_cancelled : ℕ → List ℕ → Job → Bool
newly_cancelled now targets job = member job.id targets && stamped_at now job.completed_at

unfoldable pub announce_cancelled : ℕ → List Job → Db → Db
unfolding add_event cancelled_event_payload
announce_cancelled now [] db = db
announce_cancelled now (child ∷ children) db = announce_cancelled now children (
    add_event now child.tenant_id job_cancelled (child.tenant_id, child.user_id)
      (cancelled_event_payload child) db)

-- One round of the cascade with a target to cancel: the UPDATE and its events.
unfoldable pub cascade_round : ℕ → ℕ → JobStatus → List ℕ → Db → Db
unfolding announce_cancelled cascade_cancelled
cascade_round now parent parent_status targets db =
    let jobs =
      update_where (is_target targets) (cascade_cancelled now parent parent_status) db.jobs in
    announce_cancelled now (select (newly_cancelled now targets) jobs) (record db { jobs = jobs })

-- The `for _ in range(_CASCADE_MAX_DEPTH)`, with the running count of `cancelled`.
unfoldable pub cascade_loop : ℕ → ℕ → ℕ → JobStatus → List ℕ → List ℕ → ℕ → Db → ℕ × Db
unfolding cascade_round
cascade_loop zero now parent parent_status frontier seen count db = (count, db)
cascade_loop (suc depth) now parent parent_status frontier seen count db =
    let targets = cascade_targets db.edges db.jobs frontier seen in
    let rest =
      cascade_loop depth now parent parent_status targets (seen ++ targets)
        (count + count_where (is_target targets) db.jobs)
        (cascade_round now parent parent_status targets db) in
    if is_nil targets then (count, db) else rest

unfoldable pub cascade_cancel_blocked_children : ℕ → ℕ → JobStatus → Db → ℕ × Db
unfolding cascade_loop
cascade_cancel_blocked_children now parent parent_status db =
    cascade_loop cascade_max_depth now parent parent_status (parent ∷ []) (parent ∷ []) 0 db

-- What `update_status` does once the row is written: it is announced, and its children cascade.
unfoldable pub settle_status : ℕ → JsonSize → JobStatus → Option Message → Job → Db → Db
unfolding emit_terminal_event cascade_cancel_blocked_children
settle_status now size status message job db =
    let announced =
      if announces status then emit_terminal_event now size job status message db else db in
    if cascades status
    then (cascade_cancel_blocked_children now job.id status announced).1
    else announced

pub settle_found : ℕ → JsonSize → JobStatus → Option Message → Option Job → Db → Option Job × Db
unfolding settle_status
settle_found now size status message none db = (none, db)
settle_found now size status message (some job) db =
    (some job, settle_status now size status message job db)

-- `update_status` with no `guard`.
unfoldable pub update_status :
    ℕ → JsonSize → ℕ → JobStatus → (Job → Job) → Option Message → Db → Option Job × Db
unfolding settle_found written
update_status now size id status extra message db =
    let db' = record db { jobs = update_where (has_id id) (written now status extra) db.jobs } in
    settle_found now size status message (get_by_id id db') db'

-- `update_status` with a `guard`: a compare-and-set, `none` when it did not write one row.
unfoldable pub update_status_guarded :
    ℕ
    → JsonSize
    → ℕ
    → JobStatus
    → (Job → Job)
    → Option Message
    → (Job → Bool)
    → Db
    → Option Job × Db
unfolding settle_found written
update_status_guarded now size id status extra message guard db =
    let hit = λ (job : Job). has_id id job && guard job in
    let db' = record db { jobs = update_where hit (written now status extra) db.jobs } in
    if count_where hit db.jobs == 1
    then settle_found now size status message (get_by_id id db') db'
    else (none, db')

-- `claim_for_running`.
abbrev pub claimable : ℕ → Job → Bool
claimable id job = has_id id job && same_status job.status pending

unfoldable pub claim_for_running : ℕ → ℕ → Db → Bool × Db
claim_for_running now id db = (
  count_where (claimable id) db.jobs == 1,
  record db {
    jobs =
        update_where (claimable id)
          (λ job. record job { status = running; started_at = some now; updated_at = now }) db.jobs;
  },
)

-- `promote_waiting_to_pending`.
abbrev pub promotable : ℕ → Job → Bool
promotable id job = has_id id job && same_status job.status waiting

unfoldable pub promote_waiting_to_pending : ℕ → ℕ → Db → Bool × Db
promote_waiting_to_pending now id db = (
  count_where (promotable id) db.jobs == 1,
  record db {
    jobs =
        update_where (promotable id)
          (λ job. record job { status = pending; error_message = none; updated_at = now }) db.jobs;
  },
)

-- `set_remediation_hint_if_unset`.
unfoldable pub set_remediation_hint_if_unset : ℕ → ℕ → ℕ → RemediationHint → Db → Bool × Db
set_remediation_hint_if_unset now id tenant hint db =
    let hit =
      λ (job : Job). has_id id job && job.tenant_id == tenant && is_none job.remediation_hint in
    (
      count_where hit db.jobs == 1,
      record db {
        jobs =
            update_where hit (λ job. record job { remediation_hint = some hint; updated_at = now })
              db.jobs;
      },
    )

abbrev started_since : ℕ → Option ℕ → Bool
started_since t none = false
started_since t (some s) = leb t s

-- `renew_running_leases`; `updated_at` is pinned to its own value.
unfoldable pub renew_running_leases : ℕ → List ℕ → ℕ → Db → ℕ × Db
renew_running_leases now ids max_age_seconds db =
    let hit = λ (job : Job).
      member job.id ids
      && same_status job.status running
      && started_since (now - max_age_seconds) job.started_at in
    (
      count_where hit db.jobs,
      record db { jobs = update_where hit (λ job. record job { heartbeat_at = some now }) db.jobs },
    )

-- `JobDependencyRepository.unmet_count`: the parents of a job, joined to their rows, that are not
-- COMPLETED.
abbrev pub unmet_row : Option Job → Bool
unmet_row none = false
unmet_row (some job) = not (same_status job.status completed)

unfoldable pub unmet_count : ℕ → Db → ℕ
unmet_count id db =
    count_where
      (λ (e : Edge). e.job_id == id && unmet_row (find_where (has_id e.depends_on) db.jobs))
      db.edges
