-- ===== src/Run/Settled.antt =====
-- Where a run leaves its job.
use incident_platform.Prelude.{
  ℕ, ◌+◌, ◌≡◌, refl, sym, subst, Bool, true, false, Option, none, some, inl, inr, ltb,
  if◌then◌else◌, Bool-cases, Option-cases,
}
use incident_platform.Store.{
  JobStatus, pending, completed, dead_letter, same_status, Message, Job, Db,
}
use incident_platform.Store.Events.{JsonSize}
use incident_platform.DagPause.{find_blocking_pause}
use incident_platform.JobRepo.{get_by_id, claim_for_running, written, update_status}
use incident_platform.JobRepo.Cascade.{found-has_id}
use incident_platform.JobRepo.Rows.{update_status_row}
use incident_platform.JobRepo.Claim.{UniqueIds, claim_exact, claimed_row}
use incident_platform.Run.{
  Outcome, returned, deadline, raised, Decision, retry_with_backoff, dead_letter_now, Settings,
  has_processor, claimed, decide, settle_run, settle_outcome, settle_decided, World, Delivery,
  start_job, start_found, start_pending, start_claimed, finish_run, run_job, start_found,
}

-- The status and the retry count that a run ends in.
abbrev decided_status : Decision → Job → JobStatus
decided_status (dead_letter_now reasoning) job = dead_letter
decided_status (retry_with_backoff delay) job =
    if ltb (job.retry_count + 1) job.max_attempts then pending else dead_letter

abbrev outcome_status : Settings → Option Decision → Outcome → Job → JobStatus
outcome_status settings policy (returned result) job = completed
outcome_status settings policy deadline job = dead_letter
outcome_status settings policy (raised exc) job = decided_status (decide settings job policy) job

abbrev pub final_status : Settings → Option Decision → Outcome → Job → JobStatus
final_status settings policy outcome job =
    if has_processor job.type then outcome_status settings policy outcome job else dead_letter

abbrev outcome_retries : Outcome → Job → ℕ
outcome_retries (returned result) job = job.retry_count
outcome_retries deadline job = job.retry_count
outcome_retries (raised exc) job = job.retry_count + 1

abbrev pub final_retries : Outcome → Job → ℕ
final_retries outcome job =
    if has_processor job.type then outcome_retries outcome job else job.retry_count

-- What a settled row is.
pub record IsSettled (st : JobStatus) (retries : ℕ) (before after : Job) : Type 0 where
  pub status : after.status ≡ st
  pub retry_count : after.retry_count ≡ retries
  pub max_attempts : after.max_attempts ≡ before.max_attempts
  pub type : after.type ≡ before.type

abbrev pub Settles : JobStatus → ℕ → Job → Db → Type 0
Settles st retries row db =
    (after : Job) × (get_by_id row.id db ≡ some after) × IsSettled st retries row after

module _ (now : ℕ) (size : JsonSize) (settings : Settings) (job row : Job) (db : Db)
    (same_id : job.id ≡ row.id) (same_retries : row.retry_count ≡ job.retry_count)
    (found : get_by_id row.id db ≡ some row) where
  -- One unguarded status write to a status that is not WAITING.
  write_Settles :
      (st : JobStatus) (extra : Job → Job) (message : Option Message)
      → ((j : Job) → (extra j).id ≡ j.id)
      → same_status st JobStatus.waiting ≡ false
      → (extra row).max_attempts ≡ row.max_attempts
      → (extra row).type ≡ row.type
      → Settles st (extra row).retry_count row (update_status now size job.id st extra message db).1
  unfolding written
  write_Settles st extra message hid w hm ht =
      let found' : get_by_id job.id db ≡ some row =
        subst (λ k. get_by_id k db ≡ some row) (sym same_id) found in
      let (_, after) =
        update_status_row now size job.id st extra message db row hid found' (rw w) in
      (
        written now st extra row,
        subst
            (λ k.
              get_by_id k (update_status now size job.id st extra message db).1
              ≡ some (written now st extra row))
            same_id after,
        record { status = refl; retry_count = refl; max_attempts = hm; type = ht },
      )

  decided_Settles :
      (exc : Message) (d : Decision)
      → Settles
          (decided_status d job)
          (job.retry_count + 1)
          row
          (settle_decided now size exc d job db).0
  unfolding settle_decided
  decided_Settles exc (dead_letter_now reasoning) =
      write_Settles dead_letter _ _ (λ j. refl) refl refl refl
  decided_Settles exc (retry_with_backoff delay) =
      elim (Bool-cases (ltb (job.retry_count + 1) job.max_attempts)) [
        | inl more ↦ rw more (write_Settles pending _ _ (λ j. refl) refl refl refl)
        | inr over ↦ rw over (write_Settles dead_letter _ _ (λ j. refl) refl refl refl)
      ]

  outcome_Settles :
      (policy : Option Decision) (outcome : Outcome)
      → Settles
          (outcome_status settings policy outcome job)
          (outcome_retries outcome job)
          row
          (settle_outcome now size settings policy outcome job db).0
  unfolding settle_outcome
  outcome_Settles policy (returned result) =
      subst
        (λ n.
          Settles completed n row
            (settle_outcome now size settings policy (returned result) job db).0)
        same_retries (write_Settles completed _ _ (λ j. refl) refl refl refl)
  outcome_Settles policy deadline =
      subst
        (λ n. Settles dead_letter n row (settle_outcome now size settings policy deadline job db).0)
        same_retries (write_Settles dead_letter _ _ (λ j. refl) refl refl refl)
  outcome_Settles policy (raised exc) = decided_Settles exc (decide settings job policy)

  pub run_Settles :
      (policy : Option Decision) (outcome : Outcome)
      → Settles
          (final_status settings policy outcome job)
          (final_retries outcome job)
          row
          (settle_run now size settings policy outcome job db).0
  unfolding settle_run
  run_Settles policy outcome = elim (Bool-cases (has_processor job.type)) [
    | inl e ↦ rw e (outcome_Settles policy outcome)
    | inr e ↦ rw e (write_Settles dead_letter _ _ (λ j. refl) refl refl refl)
  ]

-- A delivery of a job that is not PENDING, or that does not exist, changes nothing.
pub run_job_redelivered :
    (size : JsonSize) (settings : Settings) (d : Delivery) (id : ℕ) (w : World)
    → ((job : Job) → get_by_id id w.db ≡ some job → same_status job.status pending ≡ false)
    → run_job size settings d id w ≡ w
unfolding run_job
run_job_redelivered size settings d id w h = elim (Option-cases (get_by_id id w.db)) [
  | inl gone ↦ rw (gone, start_found)
  | inr (job, there) ↦ rw (there, start_found) (rw (h job there))
]

-- The claim of a PENDING job that no pause holds.
pub start_wins :
    (now id : ℕ) (paused : Option (ℕ → Bool)) (db : Db) (job : Job)
    → UniqueIds db.jobs
    → get_by_id id db ≡ some job
    → job.status ≡ pending
    → find_blocking_pause paused db.edges job.id ≡ none
    → start_job now paused id db ≡ (claimed job, (claim_for_running now job.id db).1)
unfolding start_job
start_wins now id paused db job u h s p =
    let e : job.id ≡ id = found-has_id id db.jobs job h in
    let t : same_status job.status pending ≡ true = rw s in
    let won : (claim_for_running now job.id db).0 ≡ true =
      (claim_exact now job.id db u).1 (job, subst (λ k. get_by_id k db ≡ some job) (sym e) h, s) in
    rw (h, start_found) (rw t (rw (p, start_pending) (rw (won, start_claimed))))

-- On a table with a primary key, a delivery of a PENDING job that no pause holds leaves its row in
-- the status and with the retry count that the outcome of its run calls for (COMPLETED, PENDING or
-- DEAD_LETTER, never RUNNING), if the others leave the claimed row alone meanwhile and the task is not
-- cancelled.
pub run_job-Settles :
    (size : JsonSize) (settings : Settings) (d : Delivery) (id : ℕ) (w : World) (job : Job)
    → UniqueIds w.db.jobs
    → get_by_id id w.db ≡ some job
    → job.status ≡ pending
    → find_blocking_pause d.paused w.db.edges job.id ≡ none
    → get_by_id id (d.others (claim_for_running d.claimed_at job.id w.db).1)
      ≡ some (claimed_row d.claimed_at job)
    → Settles
        (final_status settings d.policy d.outcome job)
        (final_retries d.outcome job)
        (claimed_row d.claimed_at job)
        (run_job size settings d id w).db
unfolding run_job claimed_row
run_job-Settles size settings d id w job u h s p o =
    rw (start_wins d.claimed_at id d.paused w.db job u h s p, finish_run)
      (run_Settles d.settled_at size settings job (claimed_row d.claimed_at job)
        (d.others (claim_for_running d.claimed_at job.id w.db).1) refl refl
        (subst
          (λ k.
            get_by_id k (d.others (claim_for_running d.claimed_at job.id w.db).1)
            ≡ some (claimed_row d.claimed_at job))
          (sym (found-has_id id w.db.jobs job h)) o)
        d.policy d.outcome)
