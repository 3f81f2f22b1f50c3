-- ===== src/Run/Retries.antt =====
-- A job that keeps failing is run `max_attempts` times, and then dead-lettered.
use incident_platform.Prelude.{
  ap₂, ℕ, ◌+◌, ◌<◌, ◌≤◌, ◌≡◌, refl, sym, ap, ◌∙◌, subst, Bool, true, Option, none, some, List, [],
  ◌∷◌, inl, inr, arith, ltb, if◌then◌else◌, Bool-cases, length, All, lt→ltb,
}
use incident_platform.Run.Settled.{
  Settles, final_status, final_retries, run_job-Settles, start_wins,
}
use incident_platform.Store.{JobStatus, pending, dead_letter, Message, Job, Edge, Db}
use incident_platform.Store.Table.{find_where, update_where}
use incident_platform.Store.Events.{JsonSize}
use incident_platform.DagPause.{find_blocking_pause}
use incident_platform.JobRepo.{has_id, get_by_id, claim_for_running, claimable, written}
use incident_platform.JobRepo.Cascade.{found-has_id}
use incident_platform.JobRepo.Rows.{update_status_quiet}
use incident_platform.JobRepo.Claim.{UniqueIds, claimed_row, claim_row}
use incident_platform.Run.{
  Outcome, Decision, raised, Settings, has_processor, World, Delivery, decide, settle_run, run_job,
  finish_run,
}

-- A delivery in which the processor raises, the retry policy is silent, no pause holds the job and
-- nobody else writes meanwhile.
pub record Fails (id : ℕ) (d : Delivery) : Type 0 where
  pub raises : (exc : Message) × (d.outcome ≡ raised exc)
  pub no_policy : d.policy ≡ none
  pub unpaused : (edges : List Edge) → find_blocking_pause d.paused edges id ≡ none
  pub alone : (db : Db) → d.others db ≡ db

-- Writes that keep the ids keep the primary key.
update_none :
    (id : ℕ) (p : Job → Bool) (f : Job → Job) (jobs : List Job)
    → ((j : Job) → (f j).id ≡ j.id)
    → find_where (has_id id) jobs ≡ none
    → find_where (has_id id) (update_where p f jobs) ≡ none
update_none id p f [] hid h = refl
update_none id p f (j ∷ js) hid h =
    let rest = update_none id p f js hid in ground (arith, hid j, rest)

UniqueIds-update :
    (p : Job → Bool) (f : Job → Job) (jobs : List Job)
    → ((j : Job) → (f j).id ≡ j.id)
    → UniqueIds jobs
    → UniqueIds (update_where p f jobs)
UniqueIds-update p f [] hid u = tt
UniqueIds-update p f (j ∷ js) hid u = elim (Bool-cases (p j)) [
  | inl t ↦ rw t (rw (hid j) (update_none j.id p f js hid u.0), UniqueIds-update p f js hid u.1)
  | inr t ↦ rw t (update_none j.id p f js hid u.0, UniqueIds-update p f js hid u.1)
]

-- The deliveries in turn.
pub run_all : JsonSize → Settings → ℕ → List Delivery → World → World
run_all size settings id [] w = w
run_all size settings id (d ∷ ds) w = run_all size settings id ds (run_job size settings d id w)

-- A job that waits for its next run.
pub record Waits (id retries max : ℕ) (w : World) : Type 0 where
  pub unique : UniqueIds w.db.jobs
  pub job : Job
  pub found : get_by_id id w.db ≡ some job
  pub status : job.status ≡ pending
  pub retry_count : job.retry_count ≡ retries
  pub max_attempts : job.max_attempts ≡ max
  pub runs : has_processor job.type ≡ true

abbrev pub HasRow : ℕ → JobStatus → ℕ → World → Type 0
HasRow id st retries w =
    (job : Job) × (get_by_id id w.db ≡ some job) × (job.status ≡ st) × (job.retry_count ≡ retries)

fail_status :
    (settings : Settings) (job : Job) (policy : Option Decision) (outcome : Outcome) (exc : Message)
    → outcome ≡ raised exc
    → policy ≡ none
    → has_processor job.type ≡ true
    → final_status settings policy outcome job
      ≡ (if ltb (job.retry_count + 1) job.max_attempts then pending else dead_letter)
unfolding decide
fail_status settings job policy outcome exc o p h = ground arith

fail_retries :
    (job : Job) (outcome : Outcome) (exc : Message)
    → outcome ≡ raised exc
    → has_processor job.type ≡ true
    → final_retries outcome job ≡ job.retry_count + 1
fail_retries job outcome exc o h = ground arith

-- A failed run with runs left keeps the primary key.
settle-UniqueIds :
    (now : ℕ) (size : JsonSize) (settings : Settings) (policy : Option Decision) (outcome : Outcome)
    (job : Job) (db : Db) (exc : Message)
    → outcome ≡ raised exc
    → policy ≡ none
    → has_processor job.type ≡ true
    → ltb (job.retry_count + 1) job.max_attempts ≡ true
    → UniqueIds db.jobs
    → UniqueIds (settle_run now size settings policy outcome job db).0.jobs
unfolding settle_run written
settle-UniqueIds now size settings policy outcome job db exc o p h l u =
    let extra =
      λ (row : Job). record row { retry_count = job.retry_count + 1; error_message = some exc } in
    let quiet = update_status_quiet now size job.id pending extra none db refl refl in
    rw (o, p, h)
      (rw l (
        subst (λ (x : Db). UniqueIds x.jobs) (sym quiet)
          (UniqueIds-update (has_id job.id) (written now pending extra) db.jobs (λ j. refl) u)))

module _ (size : JsonSize) (settings : Settings) (id : ℕ) (d : Delivery) (f : Fails id d)
    (retries max : ℕ) (w : World) (waits : Waits id retries max w) where
  open waits use {job}

  same_id : job.id ≡ id
  same_id = found-has_id id w.db.jobs job waits.found

  claimed_db : Db
  claimed_db = (claim_for_running d.claimed_at job.id w.db).1

  unpaused_job : find_blocking_pause d.paused w.db.edges job.id ≡ none
  unpaused_job = rw same_id (f.unpaused w.db.edges)

  still_there : get_by_id id (d.others claimed_db) ≡ some (claimed_row d.claimed_at job)
  unfolding claimed_db
  still_there = rw (f.alone claimed_db) (
      subst (λ k. get_by_id k claimed_db ≡ some (claimed_row d.claimed_at job)) same_id
        (claim_row d.claimed_at job.id w.db job
          (subst (λ k. get_by_id k w.db ≡ some job) (sym same_id) waits.found) waits.status))

  settled :
      Settles
        (final_status settings d.policy d.outcome job)
        (final_retries d.outcome job)
        (claimed_row d.claimed_at job)
        (run_job size settings d id w).db
  unfolding claimed_db
  settled =
      run_job-Settles size settings d id w job waits.unique waits.found waits.status unpaused_job
        still_there

  ran :
      HasRow id
        (if ltb (retries + 1) max then pending else dead_letter)
        (retries + 1)
        (run_job size settings d id w)
  unfolding claimed_row
  ran =
      let (exc, o) = f.raises in
      let (after, there, is) = settled in
      (
        after,
        subst (λ k. get_by_id k (run_job size settings d id w).db ≡ some after) same_id there,
        is.status
            ∙ fail_status settings job d.policy d.outcome exc o f.no_policy waits.runs
            ∙ ap₂ (λ a b. if ltb (a + 1) b then pending else dead_letter) waits.retry_count
                waits.max_attempts,
        is.retry_count
            ∙ fail_retries job d.outcome exc o waits.runs
            ∙ ap (λ n. n + 1) waits.retry_count,
      )

  unique_after : ltb (retries + 1) max ≡ true → UniqueIds (run_job size settings d id w).db.jobs
  unfolding run_job claim_for_running
  unique_after l =
      let (exc, o) = f.raises in
      let l' : ltb (job.retry_count + 1) job.max_attempts ≡ true =
        rw (waits.retry_count, waits.max_attempts) l in
      rw
        (
          start_wins d.claimed_at id d.paused w.db job waits.unique waits.found waits.status
              unpaused_job,
          finish_run,
        )
        (settle-UniqueIds d.settled_at size settings d.policy d.outcome job
          (d.others (claim_for_running d.claimed_at job.id w.db).1) exc o f.no_policy waits.runs l'
          (rw (f.alone (claim_for_running d.claimed_at job.id w.db).1)
            (UniqueIds-update (claimable job.id) _ w.db.jobs (λ j. refl) waits.unique)))

  run_job-Waits :
      ltb (retries + 1) max ≡ true → Waits id (retries + 1) max (run_job size settings d id w)
  unfolding ran claimed_row
  run_job-Waits l =
      let (exc, o) = f.raises in
      let (after, there, is) = settled in
      record {
        unique = unique_after l;
        job = after;
        found =
            subst (λ k. get_by_id k (run_job size settings d id w).db ≡ some after) same_id there;
        status = ran.2 ∙ rw l;
        retry_count = ran.3;
        max_attempts = is.max_attempts ∙ waits.max_attempts;
        runs = rw is.type waits.runs;
      }

-- For a job of a registered type that no pause holds, no retry policy answers for and nobody else
-- writes, `max_attempts` counts the runs: after `n` failing deliveries of a job that has been retried
-- `retries` times, it waits for its next run, `n` retries further, while `retries + n` is below
-- `max_attempts`, and is dead-lettered at the delivery that reaches it.
pub retries_bounded :
    (size : JsonSize) (settings : Settings) (id max : ℕ) (ds : List Delivery) (retries : ℕ)
    (w : World)
    → All (Fails id) ds
    → Waits id retries max w
    → 0 < length ds
    → retries + length ds ≤ max
    → HasRow id
        (if ltb (retries + length ds) max then pending else dead_letter)
        (retries + length ds)
        (run_all size settings id ds w)
unfolding run_all
retries_bounded size settings id max [] retries w f h l b = absurd (omega arith)
retries_bounded size settings id max (d ∷ []) retries w f h l b =
    ran size settings id d f.0 retries max w h
retries_bounded size settings id max (d ∷ d' ∷ ds) retries w f h l b =
    let more : ltb (retries + 1) max ≡ true = lt→ltb (retries + 1) max (omega arith) in
    let rest =
      retries_bounded size settings id max (d' ∷ ds) (retries + 1) (run_job size settings d id w)
        f.1 (run_job-Waits size settings id d f.0 retries max w h more) (omega arith)
        (omega arith) in
    let e : retries + 1 + length (d' ∷ ds) ≡ retries + length (d ∷ d' ∷ ds) = omega arith in
    subst
      (λ n.
        HasRow id (if ltb n max then pending else dead_letter) n
          (run_all size settings id (d ∷ d' ∷ ds) w))
      e rest
