-- ===== src/JobService/Replay.antt =====
-- `get_job`, `replay_job` and `resolve_incident` of services/job.py: who gets a row, which rows are
-- replayed, and what the replay writes.
use incident_platform.JobService.{
  not_allowed, Env, ok, err, or_not_found, get_job, privileged, Caller, invalidate_later,
  replayable, replay_job, replay_writes, replay_reset,
}
use incident_platform.Prelude.{
  ℕ, ◌≡◌, refl, subst, Bool, true, false, not, ◌&&◌, ◌||◌, none, some, List, [], ◌∷◌, inl, inr,
  some_eq, ==_refl, arith, ◌==◌, if◌then◌else◌, Bool-cases, is_some,
}
use incident_platform.Store.Events.{job_submitted_payload}
use incident_platform.Store.{pending, Job, Db, UserRole, add_event, log}
use incident_platform.Store.Table.{find_where}
use incident_platform.DagPause.{find_blocking_pause}
use incident_platform.JobRepo.{has_id, get_by_id, get_for_tenant, written}
use incident_platform.JobRepo.Rows.{update_status_row, update_status_quiet}
use incident_platform.JobService.Inserted.{Announced}
use incident_platform.JobService.Results.{found_ok, bind_ok, ok_eq}

-- A row that a tenant's query finds passes the query's test.
tenant_row :
    (id tenant : ℕ) (jobs : List Job) (job : Job)
    → find_where (λ j. j.id == id && j.tenant_id == tenant) jobs ≡ some job
    → (job.id ≡ id) × (job.tenant_id ≡ tenant)
tenant_row id tenant [] job h = cc
tenant_row id tenant (j ∷ js) job h = ground (arith, tenant_row id tenant js job)

-- A job of the tenant that the id finds is what the tenant's query finds.
get-tenant_row :
    (id tenant : ℕ) (jobs : List Job) (job : Job)
    → find_where (has_id id) jobs ≡ some job
    → job.tenant_id ≡ tenant
    → find_where (λ j. j.id == id && j.tenant_id == tenant) jobs ≡ some job
get-tenant_row id tenant [] job h e = cc
get-tenant_row id tenant (j ∷ js) job h e = elim (Bool-cases (has_id id j)) [
  | inl t ↦
      let same : j ≡ job = some_eq j job (rw t at h) in
      rw t (rw same (rw e (rw (==_refl tenant) refl)))
  | inr n ↦ rw n (get-tenant_row id tenant js job (rw n at h) e)
]

owner_ok :
    (high owner : Bool) (j job : Job)
    → (if not high && not owner then err not_allowed else ok j) ≡ ok job
    → (j ≡ job) × ((high || owner) ≡ true)
owner_ok true owner j job h = (ok_eq j job h, refl)
owner_ok false true j job h = (ok_eq j job h, refl)
owner_ok false false j job h = cc

-- A row that `get_job` returns has the id and the tenant that were asked for, and belongs to the
-- requester unless the role is privileged.
pub get_job_isolated :
    (id requester : ℕ) (role : UserRole) (tenant : ℕ) (db : Db) (job : Job)
    → get_job id requester role tenant db ≡ ok job
    → (job.id ≡ id)
      × (job.tenant_id ≡ tenant)
      × ((privileged role || job.user_id == requester) ≡ true)
unfolding get_job get_for_tenant
get_job_isolated id requester role tenant db job h =
    let (j, e, r) = bind_ok (or_not_found (get_for_tenant id tenant db)) _ job h in
    let (ident, owned) =
      tenant_row id tenant db.jobs j (found_ok (get_for_tenant id tenant db) j e) in
    let (same, mine) = owner_ok (privileged role) (j.user_id == requester) j job r in
    subst
      (λ (x : Job).
        (x.id ≡ id) × (x.tenant_id ≡ tenant) × ((privileged role || x.user_id == requester) ≡ true))
      same (ident, owned, mine)

-- What a replay leaves of a job's row: it is PENDING with no retries used; its error, result,
-- attribution, hint and fence are cleared; and whose it is and what it runs stay.
pub record IsReplayed (job row : Job) : Type 0 where
  pub status : row.status ≡ pending
  pub retries : row.retry_count ≡ 0
  pub error : row.error_message ≡ none
  pub result : row.result ≡ none
  pub attribution : row.dead_lettered_by ≡ none
  pub hint : row.remediation_hint ≡ none
  pub fence : (row.fenced_at ≡ none) × (row.fenced_by ≡ none)
  pub owner : (row.id ≡ job.id) × (row.tenant_id ≡ job.tenant_id) × (row.user_id ≡ job.user_id)
  pub work :
      (row.type ≡ job.type)
      × (row.payload ≡ job.payload)
      × (row.max_attempts ≡ job.max_attempts)
      × (row.saga_id ≡ job.saga_id)

reset-IsReplayed : (now : ℕ) (job : Job) → IsReplayed job (written now pending replay_reset job)
unfolding written replay_reset
reset-IsReplayed now job = record {
  status = refl;
  retries = refl;
  error = refl;
  result = refl;
  attribution = refl;
  hint = refl;
  fence = (refl, refl);
  owner = (refl, refl, refl);
  work = (refl, refl, refl, refl);
}

replay_row :
    (env : Env) (id : ℕ) (caller : Caller) (db : Db) (job : Job)
    → get_by_id id db ≡ some job
    → get_by_id id (replay_writes env id caller job db)
      ≡ some (written env.now pending replay_reset job)
unfolding replay_writes add_event log replay_reset written
replay_row env id caller db job h =
    (update_status_row env.now env.json_size id pending replay_reset none db job (λ j. refl) h
      refl).1

replay-Announced :
    (env : Env) (id : ℕ) (caller : Caller) (db : Db) (job : Job)
    → Announced job db.outbox (replay_writes env id caller job db).outbox
unfolding replay_writes add_event log job_submitted_payload
replay-Announced env id caller db job =
    rw (update_status_quiet env.now env.json_size id pending replay_reset none db refl refl)
      (_, refl, refl, refl, refl)

-- A FAILED or DEAD_LETTER job of the caller's tenant that no pause holds, where the service can read
-- the dependencies, is replayed: its row is PENDING with no retries used and its error, result, hint,
-- attribution and fence cleared, and has its owner and its work as before; one `job.submitted` event
-- with the job's id, tenant, user, type and payload is appended; and the cached row is to be dropped
-- after the commit.
pub replay_job_resets :
    (env : Env) (id tenant : ℕ) (caller : Caller) (db : Db) (job : Job)
    → get_by_id id db ≡ some job
    → job.tenant_id ≡ tenant
    → replayable job.status ≡ true
    → (env.has_dep_repo && is_some (find_blocking_pause env.paused db.edges id)) ≡ false
    → (db' : Db) × (row : Job) × (replay_job env id tenant caller db
        ≡ ok (db', invalidate_later id tenant ∷ []))
      × (get_by_id id db' ≡ some row)
      × IsReplayed job row
      × Announced job db.outbox db'.outbox
unfolding replay_job get_for_tenant or_not_found
replay_job_resets env id tenant caller db job there owned able free = (
  replay_writes env id caller job db,
  written env.now pending replay_reset job,
  rw (get-tenant_row id tenant db.jobs job there owned) (rw (able, free) refl),
  replay_row env id caller db job there,
  reset-IsReplayed env.now job,
  replay-Announced env id caller db job,
)
