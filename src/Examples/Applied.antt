-- ===== src/Examples/Applied.antt =====
-- The theorems at concrete inputs.
use incident_platform.JobRepo.{
  get_by_idempotency_key, get_by_id, cascade_cancel_blocked_children, claim_for_running,
}
use incident_platform.Prelude.{
  ends_with, ℕ, ◌≡◌, refl, ◌&&◌, none, some, List, [], ◌∷◌, ◌++◌, arith, member, if◌then◌else◌,
  reverse,
}
use incident_platform.JobRepo.Claim.{UniqueIds, claimed_row}
use incident_platform.Examples.{
  row, db, saga, json_size, env, new_job, caller, db_of, job_of, settings, delivery, failing, world,
}
use incident_platform.Store.{pending, dead_letter, Job, Db, text, OutboxEvent}
use incident_platform.DagPause.{find_blocking_pause, children_of}
use incident_platform.JobRepo.Cascade.{Finished, cascade_exact}
use incident_platform.Run.{run_job, returned, has_processor}
use incident_platform.Run.Settled.{Settles, final_status, final_retries, run_job-Settles}
use incident_platform.Run.Retries.{Fails, HasRow, run_all, retries_bounded}
use incident_platform.JobService.{
  ok, create_job, create_or_existing, create_new, load_parents, insert_or_winner, initial_status,
  or_not_found, add_dependencies, replay_job, invalidate_later,
}
use incident_platform.JobService.Create.{create_job_idempotent}
use incident_platform.JobService.Replay.{replay_job_resets, IsReplayed}
use incident_platform.JobService.Inserted.{Announced}
use incident_platform.Resolver.{handle_completed, is_ready}
use incident_platform.Resolver.Child.{promoted}
use incident_platform.Resolver.Promotions.{handle_completed_exact}
use incident_platform.JobRepo.Rows.{map_row}
use incident_platform.SagaFlow.{handle_step_event, step_dead, handle_failure, get_saga}
use incident_platform.SagaFlow.Order.{AreCompleted}
use incident_platform.SagaFlow.Rollback.{Compensates, stopped_steps, handle_failure-Compensates}
use incident_platform.SagaFlow.Once.{rollback_once}

db-UniqueIds : UniqueIds db.jobs
db-UniqueIds = (refl, (refl, (refl, (refl, (refl, (refl, (refl, (refl, tt))))))))

failing-Fails : Fails 1 failing
unfolding find_blocking_pause
failing-Fails = record {
  raises = (text "boom", refl);
  no_policy = refl;
  unpaused = λ edges. refl;
  alone = λ d. refl;
}

cascade_exact_example :
    (done : List ℕ) × Finished 20 1 dead_letter db.edges db.jobs done
      (cascade_cancel_blocked_children 20 1 dead_letter db).1
cascade_exact_example = cascade_exact 20 1 dead_letter db (omega arith)

run_job-Settles_example :
    Settles
      (final_status settings none (returned []) (row 1 pending none))
      (final_retries (returned []) (row 1 pending none))
      (claimed_row 30 (row 1 pending none))
      (run_job json_size settings (delivery (returned [])) 1 world).db
unfolding find_blocking_pause claim_for_running claimed_row
run_job-Settles_example =
    run_job-Settles json_size settings (delivery (returned [])) 1 world (row 1 pending none)
      db-UniqueIds refl refl refl refl

retries_bounded_example :
    HasRow 1 dead_letter 3 (run_all json_size settings 1 (failing ∷ failing ∷ failing ∷ []) world)
unfolding find_blocking_pause has_processor
retries_bounded_example =
    retries_bounded json_size settings 1 3 (failing ∷ failing ∷ failing ∷ []) 0 world
      (failing-Fails, (failing-Fails, (failing-Fails, tt)))
      (record {
        unique = db-UniqueIds;
        job = row 1 pending none;
        found = refl;
        status = refl;
        retry_count = refl;
        max_attempts = refl;
        runs = refl;
      })
      (omega arith) (omega arith)

create_job_idempotent_example :
    create_job env
      (λ d. d)
      (new_job (some "k"))
      (db_of (create_job env (λ d. d) (new_job (some "k")) db))
    ≡ ok (
      job_of (create_job env (λ d. d) (new_job (some "k")) db),
      db_of (create_job env (λ d. d) (new_job (some "k")) db),
    )
unfolding create_job create_or_existing create_new load_parents insert_or_winner or_not_found
    add_dependencies initial_status get_by_idempotency_key
create_job_idempotent_example =
    create_job_idempotent env env (λ d. d) (λ d. d) (new_job (some "k")) (new_job (some "k")) "k" db
      (db_of (create_job env (λ d. d) (new_job (some "k")) db))
      (job_of (create_job env (λ d. d) (new_job (some "k")) db)) refl refl refl refl

replay_job_resets_example :
    (db' : Db) × (after : Job) × (replay_job env 4 100 caller db
      ≡ ok (db', invalidate_later 4 100 ∷ []))
    × (get_by_id 4 db' ≡ some after)
    × IsReplayed (row 4 dead_letter none) after
    × Announced (row 4 dead_letter none) db.outbox db'.outbox
unfolding find_blocking_pause
replay_job_resets_example =
    replay_job_resets env 4 100 caller db (row 4 dead_letter none) refl refl refl refl

handle_completed_exact_example :
    get_by_id 9 (handle_completed 20 none 5 db)
    ≡ map_row
        (λ j. if member 9 (children_of db.edges 5) && is_ready none db 9 then promoted 20 j else j)
        (get_by_id 9 db)
handle_completed_exact_example = handle_completed_exact 20 none 5 9 db

handle_failure-Compensates_example :
    let stopped = stopped_steps 20 json_size saga 6 db in
    let after = handle_failure 20 json_size saga 6 7 db in
    (steps : List Job) × (rows : List Job) × (events : List OutboxEvent) × AreCompleted 50
      stopped.jobs steps
    × (after.jobs ≡ stopped.jobs ++ rows)
    × (after.outbox ≡ stopped.outbox ++ events)
    × Compensates saga 7 stopped.next_id (reverse steps) rows events
handle_failure-Compensates_example = handle_failure-Compensates 20 json_size saga 6 7 db

rollback_once_example :
    handle_step_event 30 json_size step_dead 6 (handle_step_event 20 json_size step_dead 6 db)
    ≡ handle_step_event 20 json_size step_dead 6 db
unfolding get_saga ends_with
rollback_once_example =
    rollback_once 20 30 json_size step_dead 6 db (row 6 dead_letter (some 50)) saga refl refl refl
      refl refl
