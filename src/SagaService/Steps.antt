-- ===== src/SagaService/Steps.antt =====
-- What one call of `create_job` for a step of a new saga leaves.
use incident_platform.Prelude.{
  some_eq, ℕ, ◌+◌, ◌≡◌, ◌<◌, refl, sym, ◌∙◌, subst, false, none, some, List, [], ◌∷◌, ◌++◌, inl,
  inr, arith, ==_refl, All,
}
use incident_platform.Store.{
  JobStatus, waiting, pending, completed, Job, Db, OutboxEvent, same_status,
}
use incident_platform.Store.Table.{find_where}
use incident_platform.JobRepo.{has_id, get_by_id}
use incident_platform.JobService.{Env, ok, create_job, NewJob}
use incident_platform.JobService.Create.{find-append}
use incident_platform.JobService.Start.{Starts, create_job_announces}
use incident_platform.JobService.Inserted.{IsInserted, create_job-IsInserted}

-- The ids that `uuid4` has still to draw are on no row.
abbrev pub Fresh : Db → Type 0
Fresh db = All (λ (j : Job). j.id < db.next_id) db.jobs

fresh-none :
    (n : ℕ) (jobs : List Job) → All (λ (j : Job). j.id < n) jobs → find_where (has_id n) jobs ≡ none
fresh-none n [] h = refl
fresh-none n (j ∷ js) h = ground (arith, h.0, fresh-none n js h.1)

fresh-append :
    (a b : ℕ) (jobs : List Job) (job : Job)
    → a < b
    → All (λ (j : Job). j.id < a) jobs
    → job.id ≡ a
    → All (λ (j : Job). j.id < b) (jobs ++ job ∷ [])
fresh-append a b [] job l h e = (omega (arith, l, e), tt)
fresh-append a b (j ∷ js) job l h e = (omega (arith, l, h.0), fresh-append a b js job l h.1 e)

-- A step after the first: its parent is the step before it, which is not done.
pub follower-waits :
    (st : JobStatus) (db : Db) (p : ℕ) (prev : Job) (a b : List OutboxEvent)
    → get_by_id p db ≡ some prev
    → same_status prev.status completed ≡ false
    → Starts st db (p ∷ []) a b
    → (st ≡ waiting) × (b ≡ a)
follower-waits st db p prev a b h n (inl (s, ((q, there, done), rest), e)) =
    let same = some_eq prev q (sym h ∙ there) in
    absurd (clash (subst (λ (x : Job). same_status x.status completed ≡ false) same n) done)
  where
    clash : same_status q.status completed ≡ false → q.status ≡ completed → ⊥
    clash u v = cc (rw v at u)
follower-waits st db p prev a b h n (inr w) = w

-- What one call of `create_job` for a step leaves.
pub record IsStep (env : Env) (new : NewJob) (db db' : Db) (job : Job) : Type 0 where
  pub rows : db'.jobs ≡ db.jobs ++ job ∷ []
  pub inserted : IsInserted env new db db' job
  pub found : get_by_id job.id db' ≡ some job
  pub fresh : Fresh db'

pub create_job-IsStep :
    (env : Env) (new : NewJob) (db db' : Db) (job : Job)
    → new.idempotency_key ≡ none
    → Fresh db
    → create_job env (λ d. d) new db ≡ ok (job, db')
    → IsStep env new db db' job
create_job-IsStep env new db db' job k f h =
    let at_end = (create_job_announces env (λ d. d) new db db' job k h).0 in
    let is = create_job-IsInserted env new db db' job k h in
    let gone : find_where (has_id job.id) db.jobs ≡ none =
      rw is.id (fresh-none db.next_id db.jobs f) in
    record {
      rows = at_end;
      inserted = is;
      found = rw at_end (find-append (has_id job.id) db.jobs job gone (==_refl job.id));
      fresh =
          subst (λ js. All (λ (j : Job). j.id < db'.next_id) js) (sym at_end)
            (fresh-append db.next_id db'.next_id db.jobs job is.later f is.id);
    }

pub waiting-open : (job : Job) → job.status ≡ waiting → same_status job.status completed ≡ false
waiting-open job h = rw h refl

pub pending-open : (job : Job) → job.status ≡ pending → same_status job.status completed ≡ false
pending-open job h = rw h refl

pub fresh-later :
    (n : ℕ) (jobs : List Job)
    → All (λ (j : Job). j.id < n) jobs
    → All (λ (j : Job). j.id < n + 1) jobs
fresh-later n [] h = tt
fresh-later n (j ∷ js) h = (omega (arith, h.0), fresh-later n js h.1)
