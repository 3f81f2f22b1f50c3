-- ===== src/Sweep/Recovered.antt =====
-- What a pass of the sweep leaves of each RUNNING row.
use incident_platform.Prelude.{
  ℕ, ◌≡◌, refl, ap, ◌∙◌, subst, Bool, true, false, Option, none, some, List, [], ◌∷◌, inl, inr,
  arith, ◌==◌, if◌then◌else◌, member, Bool-cases, ==_refl, ==_sym, ==_iff, some_eq,
}
use incident_platform.Store.{running, dead_letter, same_status, Job, Db, log}
use incident_platform.Store.Events.{JsonSize}
use incident_platform.Store.Table.{find_where}
use incident_platform.JobRepo.{has_id, get_by_id, cancellable, written, update_status_guarded}
use incident_platform.JobRepo.Claim.{UniqueIds}
use incident_platform.JobRepo.Guarded.{guarded-UniqueIds, guarded_row, guarded_other}
use incident_platform.Sweep.{
  is_excluded, unchanged_since, same_stamp, recovery_error, log_settled, Pass, recover_row,
  recover_rows,
}
use incident_platform.Sweep.Scanned.{Current}

-- The `values` of a recovery, and the row that it leaves.
abbrev recovery_extra : Pass → Job → Job → Job
recovery_extra pass row job = record job {
  error_message = some (recovery_error (member row.id pass.in_flight));
}

abbrev pub recovered_row : Pass → Job → Job
recovered_row pass row = written pass.now dead_letter (recovery_extra pass row) row

-- Nothing else commits during the pass, and no transaction of it fails.
abbrev pub Undisturbed : Pass → Type 0
Undisturbed pass =
    ((id : ℕ) (db : Db) → pass.others id db ≡ db) × ((id : ℕ) → pass.fails id ≡ false)

same_stamp_refl : (t : Option ℕ) → same_stamp t t ≡ true
same_stamp_refl none = refl
same_stamp_refl (some t) = ==_refl t

log_settled-jobs :
    (held : Bool) (row : Job) (r : Option Job × Db) → (log_settled held row r).1.jobs ≡ r.1.jobs
unfolding log_settled log
log_settled-jobs held row (none, db) = refl
log_settled-jobs held row (some job, db) = refl

abbrev pub IsRunning : Job → Type 0
IsRunning job = same_status job.status running ≡ true

pub running-kept : (job : Job) → IsRunning job → cancellable job ≡ false
running-kept job h = ground arith

unchanged_refl : (row : Job) → IsRunning row → unchanged_since row row ≡ true
unchanged_refl row h = rw h (rw (same_stamp_refl row.started_at) (same_stamp_refl row.heartbeat_at))

module _ (size : JsonSize) (pass : Pass) (free : Undisturbed pass) where
  abbrev skips : Job → Bool
  skips row = is_excluded pass.now pass.threshold_seconds pass.in_flight row

  abbrev write : Job → Db → Option Job × Db
  write row db =
      update_status_guarded pass.now size row.id dead_letter (recovery_extra pass row) none
        (unchanged_since row) db

  recover-excluded :
      (row : Job) (db : Db) → skips row ≡ true → recover_row size pass row db ≡ (false, db)
  unfolding recover_row
  recover-excluded row db x = rw x refl

  recover-write :
      (row : Job) (db : Db)
      → skips row ≡ false
      → recover_row size pass row db ≡ log_settled (member row.id pass.in_flight) row (write row db)
  unfolding recover_row
  recover-write row db x = rw (x, free.1 row.id, free.0 row.id db) refl

  recover-UniqueIds :
      (row : Job) (db : Db) → UniqueIds db.jobs → UniqueIds (recover_row size pass row db).1.jobs
  recover-UniqueIds row db u = elim (Bool-cases (skips row)) [
    | inl x ↦ rw (recover-excluded row db x) u
    | inr x ↦
        rw (recover-write row db x, log_settled-jobs)
          (guarded-UniqueIds pass.now size row.id dead_letter (recovery_extra pass row) none
            (unchanged_since row) (λ j. refl) db u)
  ]

  recover-other :
      (row : Job) (other : ℕ) (db : Db) (job : Job)
      → (other == row.id) ≡ false
      → get_by_id other db ≡ some job
      → cancellable job ≡ false
      → get_by_id other (recover_row size pass row db).1 ≡ some job
  recover-other row other db job d h c = elim (Bool-cases (skips row)) [
    | inl x ↦ rw (recover-excluded row db x) h
    | inr x ↦
        rw (recover-write row db x, log_settled-jobs)
          (guarded_other pass.now size row.id dead_letter (recovery_extra pass row) none
            (unchanged_since row) (λ j. refl) other db job d h c)
  ]

  recover-own :
      (row : Job) (db : Db)
      → UniqueIds db.jobs
      → get_by_id row.id db ≡ some row
      → IsRunning row
      → get_by_id row.id (recover_row size pass row db).1
        ≡ some (if skips row then row else recovered_row pass row)
  unfolding written
  recover-own row db u h r = elim (Bool-cases (skips row)) [
    | inl x ↦ rw (recover-excluded row db x, x) h
    | inr x ↦
        rw (recover-write row db x, log_settled-jobs, x)
          (guarded_row pass.now size row.id dead_letter (recovery_extra pass row) none
            (unchanged_since row) (λ j. refl) db row u h (unchanged_refl row r) refl).1
  ]

  -- A row that none of the recoveries names.
  pub rows-other :
      (rows : List Job) (id : ℕ) (db : Db) (job : Job)
      → find_where (has_id id) rows ≡ none
      → get_by_id id db ≡ some job
      → cancellable job ≡ false
      → get_by_id id (recover_rows size pass rows db).1 ≡ some job
  unfolding recover_rows
  rows-other [] id db job n h c = h
  rows-other (row ∷ rows) id db job n h c = elim (Bool-cases (has_id id row)) [
    | inl e ↦ cc
    | inr e ↦
        rows-other rows id (recover_row size pass row db).1 job (rw e at n)
          (recover-other row id db job (==_sym false row.id id e) h c) c
  ]

  Current-after :
      (q : Job → Bool) (row : Job) (rows : List Job) (db : Db)
      → ((j : Job) → q j ≡ true → IsRunning j)
      → find_where (has_id row.id) rows ≡ none
      → Current q db.jobs rows
      → Current q (recover_row size pass row db).1.jobs rows
  Current-after q row [] db runs n c = tt
  Current-after q row (r ∷ rows) db runs n c = elim (Bool-cases (has_id row.id r)) [
    | inl e ↦ cc
    | inr e ↦ (
      (recover-other row r.id db r e c.0.0 (running-kept r (runs r c.0.1)), c.0.1),
      Current-after q row rows db runs (rw e at n) c.1,
    )
  ]

  -- A row that one of them names.
  pub rows-own :
      (q : Job → Bool) (rows : List Job) (id : ℕ) (db : Db) (job : Job)
      → ((j : Job) → q j ≡ true → IsRunning j)
      → UniqueIds db.jobs
      → UniqueIds rows
      → Current q db.jobs rows
      → find_where (has_id id) rows ≡ some job
      → get_by_id id (recover_rows size pass rows db).1
        ≡ some (if skips job then job else recovered_row pass job)
  unfolding recover_rows written
  rows-own q [] id db job runs u v c h = cc
  rows-own q (row ∷ rows) id db job runs u v c h = elim (Bool-cases (has_id id row)) [
    | inl e ↦
        let same : row ≡ job = some_eq row job (rw e at h) in
        let after = if skips row then row else recovered_row pass row in
        let own = recover-own row db u c.0.0 (runs row c.0.1) in
        let kept =
          rows-other rows row.id (recover_row size pass row db).1 after v.0 own
            (elim (Bool-cases (skips row)) [
              | inl x ↦ rw x (running-kept row (runs row c.0.1))
              | inr x ↦ rw x refl
            ]) in
        subst
          (λ k.
            get_by_id k (recover_rows size pass (row ∷ rows) db).1
            ≡ some (if skips job then job else recovered_row pass job))
          ((==_iff row.id id).0 e)
          (kept ∙ ap (λ x. some (if skips x then x else recovered_row pass x)) same)
    | inr e ↦
        rows-own q rows id (recover_row size pass row db).1 job runs (recover-UniqueIds row db u)
          v.1 (Current-after q row rows db runs v.0 c.1) (rw e at h)
  ]
