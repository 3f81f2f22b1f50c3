-- ===== src/Examples/Sweeps.antt =====
-- The theorems on the recoveries of the dispatcher, at three RUNNING rows: one whose worker died, one
-- whose lease is fresh, and one in this worker's hands.
use incident_platform.Examples.{row, db, json_size}
use incident_platform.Prelude.{
  ℕ, ◌≡◌, refl, false, none, some, [], ◌∷◌, ◌++◌, arith, map, if◌then◌else◌,
}
use incident_platform.Store.{running, Job, Db}
use incident_platform.Store.Events.{job_submitted_payload}
use incident_platform.JobRepo.{get_by_id}
use incident_platform.JobRepo.Claim.{UniqueIds}
use incident_platform.Sweep.{Pass, sweep_stale_running_once, is_excluded}
use incident_platform.Sweep.Recovered.{recovered_row}
use incident_platform.Sweep.Passes.{sweep_recovers, sweep_keeps_live}
use incident_platform.Backstop.{requeue_stale_pending_once, scan_stale_pending}
use incident_platform.Backstop.Requeued.{
  events, job_ids, chosen, stamped, requeue_stale_pending_exact,
}

abbrev running_row : ℕ → ℕ → Job
running_row id heartbeat = record (row id running none) {
  started_at = some 100;
  heartbeat_at = some heartbeat;
}

abbrev crashed : Db
crashed = record db {
  jobs = running_row 1 150 ∷ running_row 2 3990 ∷ running_row 3 150 ∷ [];
  edges = [];
}

crashed-UniqueIds : UniqueIds crashed.jobs
crashed-UniqueIds = (refl, (refl, (refl, tt)))

abbrev pass : Pass
pass = record {
  scanned_at = 4000;
  now = 4001;
  threshold_seconds = 3600;
  in_flight = 3 ∷ [];
  others = λ id d. d;
  fails = λ id. false;
}

sweep_recovers_example :
    get_by_id 1 (sweep_stale_running_once json_size pass crashed).1
    ≡ some (
        if is_excluded 4001 3600 (3 ∷ []) (running_row 1 150)
        then running_row 1 150
        else recovered_row pass (running_row 1 150))
sweep_recovers_example =
    sweep_recovers json_size pass crashed 1 (running_row 1 150) (λ id d. refl, λ id. refl)
      crashed-UniqueIds (omega arith) refl refl

sweep_keeps_live_example :
    get_by_id 2 (sweep_stale_running_once json_size pass crashed).1 ≡ some (running_row 2 3990)
sweep_keeps_live_example =
    sweep_keeps_live json_size pass crashed 2 (running_row 2 3990) (λ id d. refl, λ id. refl)
      crashed-UniqueIds refl refl refl

requeue_stale_pending_exact_example :
    (events (requeue_stale_pending_once 400 [] db).outbox
      ≡ events db.outbox ++ map job_submitted_payload (chosen [] (scan_stale_pending 400 db)))
    × ((requeue_stale_pending_once 400 [] db).jobs
        ≡ map (stamped 400 (job_ids (chosen [] (scan_stale_pending 400 db)))) db.jobs)
requeue_stale_pending_exact_example = requeue_stale_pending_exact 400 [] db
