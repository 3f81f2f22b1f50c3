-- ===== src/JobService.antt =====
-- services/job.py: `JobService`. An exception is an `err`; the transaction it ends is rolled back by
-- the session's owner, so it carries no database. Redis enters as the result of the pause lookup's
-- `MGET`, and what other transactions commit between the look-up of an idempotency key and the
-- insert as a function on the database.
pub mod Results
pub mod Create
pub mod Start
pub mod Inserted
pub mod Replay
use incident_platform.Prelude.{
  ℕ, ◌+◌, Bool, true, false, not, ◌&&◌, ◌||◌, Option, none, some, List, [], ◌∷◌, ◌++◌, map, String,
  str_eq, ◌==◌, if◌then◌else◌, any, is_nil, is_none, is_some, member, reverse,
}
use incident_platform.Store.{
  JobStatus, waiting, pending, completed, failed, dead_letter, same_status, UserRole, user, support,
  admin, Json, Payload, Job, Topic, job_submitted, Event, Edge, Db, AuditRow, job_created,
  job_replayed, incident_resolved, add_event, log,
}
use incident_platform.Store.Table.{find_where}
use incident_platform.Store.Events.{JsonSize, or_empty, trace_carrier_key, job_submitted_payload}
use incident_platform.DagPause.{find_blocking_pause}
use incident_platform.JobRepo.{get_by_id, get_by_idempotency_key, get_for_tenant, update_status}

pub data ServiceError : Type 0 where
  not_found not_allowed job_error integrity_error runtime_error request_validation_error :
      ServiceError

pub data Result (A : Type 0) : Type 0 where
  ok : A → Result A
  err : ServiceError → Result A

infixl 5 ◌>>=◌
abbrev pub ◌>>=◌ : {A B : Type 0} → Result A → (A → Result B) → Result B
ok a >>= f = f a
err e >>= f = err e

-- What the process around a call provides: its clock, its settings, its tracing context, Redis, and
-- the commits of others.
pub record Env : Type 0 where
  pub now : ℕ
  pub default_max_attempts : ℕ
  pub otel_context : Option Json
  pub trace_id : Option String
  pub paused : Option (ℕ → Bool)
  pub has_dep_repo : Bool
  pub json_size : JsonSize

-- The arguments of `create_job`.
pub record NewJob : Type 0 where
  pub user_id : ℕ
  pub tenant_id : ℕ
  pub type : String
  pub payload : Option Payload
  pub idempotency_key : Option String
  pub priority : ℕ
  pub max_attempts : Option ℕ
  pub dependencies : List ℕ
  pub saga_id : Option ℕ
  pub saga_step_index : Option ℕ

-- The truth of an optional key: not `None` and not empty.
abbrev pub usable_key : Option String → Option String
usable_key none = none
usable_key (some String.[]) = none
usable_key (some k) = some k

abbrev lookup_key : Option String → ℕ → Db → Option Job
lookup_key none tenant db = none
lookup_key (some k) tenant db = get_by_idempotency_key k tenant db

unfoldable pub or_not_found : Option Job → Result Job
or_not_found none = err not_found
or_not_found (some job) = ok job

unfoldable pub load_parents : List ℕ → Db → Result (List Job)
unfolding or_not_found
load_parents [] db = ok []
load_parents (id ∷ ids) db = do
  parent ← or_not_found (get_by_id id db)
  parents ← load_parents ids db
  ok (parent ∷ parents)

abbrev pub is_unmet : Job → Bool
is_unmet job = not (same_status job.status completed)

-- The status that a new job starts in: its parents first, then the pause flags.
unfoldable pub initial_status : Env → List Job → Db → JobStatus
initial_status env parents db =
    if any is_unmet parents
    then waiting
    else if env.has_dep_repo
        && any (λ (p : Job). is_some (find_blocking_pause env.paused db.edges p.id)) parents
    then waiting
    else pending

-- `d[k] = v` on a dict.
pub set_key : String → Json → Payload → Payload
set_key k v [] = (k, v) ∷ []
set_key k v ((j, w) ∷ p) = if str_eq j k then (k, v) ∷ p else (j, w) ∷ set_key k v p

abbrev pub with_context : Option Json → Payload → Payload
with_context none p = p
with_context (some ctx) p = set_key trace_carrier_key ctx p

-- UNIQUE (tenant_id, idempotency_key), in which NULLs differ.
abbrev taken_key : Option String → ℕ → Db → Option Job
taken_key none tenant db = none
taken_key (some k) tenant db = get_by_idempotency_key k tenant db

abbrev or_default : Option ℕ → ℕ → ℕ
or_default none d = d
or_default (some n) d = n

-- The row that `job_repo.create` inserts.
unfoldable pub new_row : Env → NewJob → JobStatus → ℕ → Job
unfolding set_key
new_row env new status id = record {
  id = id;
  tenant_id = new.tenant_id;
  user_id = new.user_id;
  type = new.type;
  status = status;
  idempotency_key = new.idempotency_key;
  payload = some (with_context env.otel_context (or_empty new.payload));
  result = none;
  error_message = none;
  retry_count = 0;
  max_attempts = or_default new.max_attempts env.default_max_attempts;
  remediation_hint = none;
  dead_lettered_by = none;
  fenced_at = none;
  fenced_by = none;
  priority = new.priority;
  trace_id = env.trace_id;
  created_at = env.now;
  updated_at = env.now;
  started_at = none;
  completed_at = none;
  requeued_at = none;
  heartbeat_at = none;
  saga_id = new.saga_id;
  saga_step_index = new.saga_step_index;
}

unfoldable pub insert_job : Job → Db → Db
insert_job job db = record db { jobs = db.jobs ++ job ∷ []; next_id = db.next_id + 1 }

-- `job_dependencies` has the pair of ids for its primary key.
pub has_repeat : List ℕ → Bool
has_repeat [] = false
has_repeat (x ∷ xs) = member x xs || has_repeat xs

unfoldable pub add_dependencies : Env → ℕ → List ℕ → Db → Result Db
unfolding has_repeat
add_dependencies env id deps db =
    if is_nil deps
    then ok db
    else if not env.has_dep_repo
    then err runtime_error
    else if has_repeat deps
    then err integrity_error
    else ok
        (record db { edges = db.edges ++ map (λ d. record { job_id = id; depends_on = d }) deps })

-- The audit row, and the event if the job is ready to run.
unfoldable pub announce_created : Env → Job → Db → Db
unfolding add_event log job_submitted_payload
announce_created env job db =
    let logged =
      log
        (record {
          action = job_created job.status;
          tenant_id = job.tenant_id;
          user_id = some job.user_id;
          principal_id = some job.user_id;
          job_id = some job.id;
        })
        db in
    if same_status job.status pending
    then add_event env.now job.tenant_id job_submitted (job.tenant_id, job.user_id)
        (job_submitted_payload job) logged
    else logged

-- The insert, in the database as the others have left it: the loser of a race for the key gets the
-- winner's row.
unfoldable pub insert_or_winner : Env → NewJob → JobStatus → Option Job → Db → Result (Job × Db)
unfolding new_row insert_job add_dependencies announce_created
insert_or_winner env new status (some winner) db = ok (winner, db)
insert_or_winner env new status none db =
    let job = new_row env new status db.next_id in
    do
      linked ← add_dependencies env job.id new.dependencies (insert_job job db)
      ok (job, announce_created env job linked)

unfoldable pub create_new : Env → (Db → Db) → NewJob → Db → Result (Job × Db)
unfolding load_parents initial_status insert_or_winner
create_new env others new db = do
  parents ← load_parents new.dependencies db
  insert_or_winner env new (initial_status env parents db)
      (taken_key new.idempotency_key new.tenant_id (others db)) (others db)

unfoldable pub create_or_existing : Env → (Db → Db) → NewJob → Option Job → Db → Result (Job × Db)
unfolding create_new
create_or_existing env others new (some existing) db = ok (existing, db)
create_or_existing env others new none db = create_new env others new db

unfoldable pub create_job : Env → (Db → Db) → NewJob → Db → Result (Job × Db)
unfolding create_or_existing
create_job env others new db =
    create_or_existing env others new (lookup_key (usable_key new.idempotency_key) new.tenant_id db)
      db

abbrev pub privileged : UserRole → Bool
privileged user = false
privileged support = true
privileged admin = true

-- `get_job`.
unfoldable pub get_job : ℕ → ℕ → UserRole → ℕ → Db → Result Job
unfolding or_not_found get_for_tenant
get_job id requester role tenant db = do
  job ← or_not_found (get_for_tenant id tenant db)
  if not (privileged role) && not (job.user_id == requester) then err not_allowed else ok job

-- What a call does to the cache, once its transaction has committed or at once.
pub data CacheOp : Type 0 where
  invalidate_later delete_now : (job_id tenant_id : ℕ) → CacheOp

pub data PrincipalType : Type 0 where
  user_principal service_account : PrincipalType

pub record Caller : Type 0 where
  pub requesting_user_id : Option ℕ
  pub principal_type : PrincipalType
  pub principal_id : Option ℕ

abbrev or_else : Option ℕ → Option ℕ → Option ℕ
or_else none b = b
or_else (some a) b = some a

abbrev audit_user : Caller → Option ℕ
audit_user c = elim c.principal_type [
  | user_principal ↦ c.requesting_user_id
  | service_account ↦ none
]

-- The columns that a replay clears.
unfoldable pub replay_reset : Job → Job
replay_reset job = record job {
  retry_count = 0;
  error_message = none;
  result = none;
  dead_lettered_by = none;
  remediation_hint = none;
  fenced_at = none;
  fenced_by = none;
}

abbrev pub replayable : JobStatus → Bool
replayable failed = true
replayable dead_letter = true
replayable _ = false

-- The writes of a replay that is not refused.
unfoldable pub replay_writes : Env → ℕ → Caller → Job → Db → Db
unfolding update_status replay_reset add_event log job_submitted_payload
replay_writes env id caller job db =
    let (updated, written) = update_status env.now env.json_size id pending replay_reset none db in
    add_event env.now job.tenant_id job_submitted (job.tenant_id, job.user_id)
      (job_submitted_payload job)
      (log
        (record {
          action = job_replayed job.status job.retry_count;
          tenant_id = job.tenant_id;
          user_id = audit_user caller;
          principal_id = or_else caller.principal_id caller.requesting_user_id;
          job_id = some id;
        })
        written)

unfoldable pub replay_job : Env → ℕ → ℕ → Caller → Db → Result (Db × List CacheOp)
unfolding or_not_found get_for_tenant replay_writes
replay_job env id tenant caller db = do
  job ← or_not_found (get_for_tenant id tenant db)
  if not (replayable job.status)
      then err job_error
      else if env.has_dep_repo && is_some (find_blocking_pause env.paused db.edges id)
      then err job_error
      else ok (replay_writes env id caller job db, invalidate_later id tenant ∷ [])

unfoldable pub resolve_incident : Env → ℕ → ℕ → ℕ → Db → Result (Db × List CacheOp)
unfolding or_not_found get_for_tenant update_status log
resolve_incident env id requester tenant db = do
  job ← or_not_found (get_for_tenant id tenant db)
  ok (
    log
        (record {
          action = incident_resolved;
          tenant_id = job.tenant_id;
          user_id = some requester;
          principal_id = some requester;
          job_id = some id;
        })
        (update_status env.now env.json_size id completed (λ j. j) none db).1,
    delete_now id tenant ∷ [],
  )
