-- ===== src/JobRepo/Claim.antt =====
-- The compare-and-set writes of repositories/job.py: of two callers, one wins.
use incident_platform.Prelude.{
  ℕ, ◌≡◌, ◌↔◌, refl, subst, Bool, true, false, ◌&&◌, Option, none, some, List, [], ◌∷◌, inl, inr,
  arith, ◌==◌, count_where, Bool-cases, ==_iff,
}
use incident_platform.Store.{JobStatus, pending, running, same_status, Job, Db}
use incident_platform.Store.Table.{find_where, update_where, count-update_where}
use incident_platform.JobRepo.{
  has_id, get_by_id, claimable, claim_for_running, promotable, promote_waiting_to_pending,
}

-- The primary key of `jobs`.
abbrev pub UniqueIds : List Job → Type 0
UniqueIds [] = Unit
UniqueIds (j ∷ js) = (find_where (has_id j.id) js ≡ none) × UniqueIds js

-- A second claim of the same job, with nothing between, loses.
pub claim_once :
    (now later id : ℕ) (db : Db)
    → (claim_for_running later id (claim_for_running now id db).1).0 ≡ false
unfolding claim_for_running
claim_once now later id db = rw (
    count-update_where (claimable id)
      (λ (job : Job). record job { status = running; started_at = some now; updated_at = now })
      (λ job. ground arith) db.jobs)

-- A second promotion of the same WAITING job, with nothing between, loses.
pub promote_once :
    (now later id : ℕ) (db : Db)
    → (promote_waiting_to_pending later id (promote_waiting_to_pending now id db).1).0 ≡ false
unfolding promote_waiting_to_pending
promote_once now later id db = rw (
    count-update_where (promotable id)
      (λ (job : Job). record job { status = pending; error_message = none; updated_at = now })
      (λ job. ground arith) db.jobs)

abbrev has_status : JobStatus → Option Job → Bool
has_status st none = false
has_status st (some job) = same_status job.status st

pub no_row :
    (id : ℕ) (q : Job → Bool) (jobs : List Job)
    → find_where (has_id id) jobs ≡ none
    → count_where (λ j. has_id id j && q j) jobs ≡ 0
no_row id q [] h = refl
no_row id q (j ∷ js) h = ground (arith, no_row id q js)

abbrev pub test_row : (Job → Bool) → Option Job → Bool
test_row q none = false
test_row q (some job) = q job

-- On a table with a primary key, the row count of an UPDATE by id and test is 1 or 0 as the row
-- passes the test.
pub count_by_id :
    (id : ℕ) (q : Job → Bool) (jobs : List Job)
    → UniqueIds jobs
    → (count_where (λ j. has_id id j && q j) jobs == 1) ≡ test_row q (find_where (has_id id) jobs)
count_by_id id q [] u = refl
count_by_id id q (j ∷ js) u = elim (Bool-cases (has_id id j)) [
  | inl e ↦
      let rest : count_where (λ j'. has_id id j' && q j') js ≡ 0 =
        no_row id q js (subst (λ k. find_where (has_id k) js ≡ none) ((==_iff j.id id).0 e) u.0) in
      rw e (elim (Bool-cases (q j)) [ inl t ↦ rw (t, rest) | inr f ↦ rw (f, rest) ])
  | inr e ↦ rw e (count_by_id id q js u.1)
]

same_status-eq : (a b : JobStatus) → same_status a b ≡ true → a ≡ b
same_status-eq a b h = ground arith

pub same_status_refl : (a : JobStatus) → same_status a a ≡ true
same_status_refl a = ground arith

status_row :
    (st : JobStatus) (o : Option Job)
    → (test_row (λ j. same_status j.status st) o ≡ true)
      ↔ ((job : Job) × (o ≡ some job) × (job.status ≡ st))
status_row st none = (λ h. cc, λ (job, e, s). cc)
status_row st (some job) = (
  λ h. (job, refl, same_status-eq job.status st h),
  λ (job', e, s). ground (arith, same_status_refl st),
)

-- On a table with a primary key, `claim_for_running` succeeds exactly when the row that the id finds
-- is PENDING.
pub claim_exact :
    (now id : ℕ) (db : Db)
    → UniqueIds db.jobs
    → ((claim_for_running now id db).0 ≡ true)
      ↔ ((job : Job) × (get_by_id id db ≡ some job) × (job.status ≡ pending))
unfolding claim_for_running
claim_exact now id db u =
    rw (count_by_id id (λ j. same_status j.status pending) db.jobs u)
      (status_row pending (get_by_id id db))

-- The row that a winning claim leaves.
unfoldable pub claimed_row : ℕ → Job → Job
claimed_row now job = record job { status = running; started_at = some now; updated_at = now }

pub claim_row :
    (now id : ℕ) (db : Db) (job : Job)
    → get_by_id id db ≡ some job
    → job.status ≡ pending
    → get_by_id id (claim_for_running now id db).1 ≡ some (claimed_row now job)
unfolding claim_for_running claimed_row
claim_row now id db job h s = go db.jobs h
  where
    go :
        (jobs : List Job)
        → find_where (has_id id) jobs ≡ some job
        → find_where (has_id id) (
            update_where
              (claimable id)
              (λ j. record j { status = running; started_at = some now; updated_at = now })
              jobs)
          ≡ some (record job { status = running; started_at = some now; updated_at = now })
    go [] e = cc
    go (j ∷ js) e = ground (arith, go js)
