-- ===== src/Sweep/Passes.antt =====
-- A whole pass of the sweep over the RUNNING jobs.
use incident_platform.Prelude.{
  ℕ, ◌≡◌, ◌≤◌, refl, true, false, none, some, arith, if◌then◌else◌, select, take, member,
  count_where, inl, inr, Bool-cases,
}
use incident_platform.Store.{running, dead_letter, Job, Db}
use incident_platform.Store.Events.{JsonSize}
use incident_platform.JobRepo.{get_by_id}
use incident_platform.JobRepo.Claim.{UniqueIds}
use incident_platform.JobRepo.Guarded.{guarded_refused}
use incident_platform.Sweep.{
  stale_running_sweep_limit, is_stale_running, scan_stale_running, is_excluded, unchanged_since,
  recovery_error, log_settled, Pass, recover_row, sweep_stale_running_once,
}
use incident_platform.Sweep.Scanned.{scan-UniqueIds, scan-Current, scan-misses, scan-finds}
use incident_platform.Sweep.Recovered.{
  Undisturbed, recovered_row, IsRunning, running-kept, rows-other, rows-own,
}

stale-IsRunning :
    (now threshold : ℕ) (job : Job) → is_stale_running now threshold job ≡ true → IsRunning job
stale-IsRunning now threshold job h = ground arith

-- With at most a hundred stale jobs, nothing else committing during the pass and no transaction
-- failing, a pass dead-letters every RUNNING job that outlived its threshold and whose lease is more
-- than two minutes old or was never taken, with the reason in its row; only a job in this worker's
-- own hands is left alone, until it is five minutes past the threshold.
pub sweep_recovers :
    (size : JsonSize) (pass : Pass) (db : Db) (id : ℕ) (job : Job)
    → Undisturbed pass
    → UniqueIds db.jobs
    → count_where (is_stale_running pass.scanned_at pass.threshold_seconds) db.jobs ≤ 100
    → get_by_id id db ≡ some job
    → is_stale_running pass.scanned_at pass.threshold_seconds job ≡ true
    → get_by_id id (sweep_stale_running_once size pass db).1
      ≡ some (
          if is_excluded pass.now pass.threshold_seconds pass.in_flight job
          then job
          else recovered_row pass job)
unfolding sweep_stale_running_once scan_stale_running
sweep_recovers size pass db id job free u few h stale =
    let q = is_stale_running pass.scanned_at pass.threshold_seconds in
    rows-own size pass free q (take stale_running_sweep_limit (select q db.jobs)) id db job
      (stale-IsRunning pass.scanned_at pass.threshold_seconds) u
      (scan-UniqueIds q stale_running_sweep_limit db.jobs u)
      (scan-Current q stale_running_sweep_limit db.jobs u)
      (scan-finds q stale_running_sweep_limit db.jobs u id job h stale few)

-- A pass that nothing disturbs leaves the row of every RUNNING job that is not stale exactly as it
-- was: one that started within the threshold, or whose worker, any worker, renewed its lease within
-- the last two minutes.
pub sweep_keeps_live :
    (size : JsonSize) (pass : Pass) (db : Db) (id : ℕ) (job : Job)
    → Undisturbed pass
    → UniqueIds db.jobs
    → get_by_id id db ≡ some job
    → job.status ≡ running
    → is_stale_running pass.scanned_at pass.threshold_seconds job ≡ false
    → get_by_id id (sweep_stale_running_once size pass db).1 ≡ some job
unfolding sweep_stale_running_once scan_stale_running
sweep_keeps_live size pass db id job free u h runs live =
    let q = is_stale_running pass.scanned_at pass.threshold_seconds in
    rows-other size pass free (take stale_running_sweep_limit (select q db.jobs)) id db job
      (scan-misses q stale_running_sweep_limit db.jobs u id job h live) h
      (running-kept job (rw runs refl))

-- Whatever other transactions commit between the scan and a row's own transaction, a row that is no
-- longer as the scan saw it - settled, replayed, claimed again, or its lease renewed - is left, and
-- with it the whole database: no write, no event, no audit row, and no count.
pub recovery_refused :
    (size : JsonSize) (pass : Pass) (row now_row : Job) (db : Db)
    → is_excluded pass.now pass.threshold_seconds pass.in_flight row ≡ false
    → UniqueIds (pass.others row.id db).jobs
    → get_by_id row.id (pass.others row.id db) ≡ some now_row
    → unchanged_since row now_row ≡ false
    → recover_row size pass row db ≡ (false, pass.others row.id db)
unfolding recover_row log_settled
recovery_refused size pass row now_row db x u h changed =
    let refused =
      guarded_refused pass.now size row.id dead_letter
        (λ job. record job { error_message = some (recovery_error (member row.id pass.in_flight)) })
        none (unchanged_since row) (λ j. refl) (pass.others row.id db) now_row u h changed in
    elim (Bool-cases (pass.fails row.id)) [
      | inl f ↦ rw (x, f) refl
      | inr f ↦ rw (x, f, refused) refl
    ]
