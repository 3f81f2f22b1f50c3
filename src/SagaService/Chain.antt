-- ===== src/SagaService/Chain.antt =====
-- The rows, the edges and the event that `create_saga` of services/saga.py leaves for a new saga.
use incident_platform.Prelude.{
  Option, ℕ, ◌+◌, ◌≡◌, refl, sym, ap, ◌∙◌, subst₂, false, none, some, List, [], ◌∷◌, ◌++◌, String,
  append-nil, append_assoc,
}
use incident_platform.Store.{
  JobStatus, waiting, pending, completed, Job, Db, Saga, Edge, saga_running, same_status, log,
}
use incident_platform.JobRepo.{get_by_id}
use incident_platform.JobService.{Env, ok, create_job, new_row, with_context}
use incident_platform.Store.Events.{or_empty}
use incident_platform.JobService.Results.{bind_ok, ok_pair, ok_eq}
use incident_platform.JobService.Start.{create_job_announces}
use incident_platform.JobService.Inserted.{Announced}
use incident_platform.SagaService.{SagaStep, step_job, create_steps, new_saga, create_saga}
use incident_platform.SagaService.Steps.{
  Fresh, follower-waits, create_job-IsStep, waiting-open, pending-open, fresh-later,
}

-- The row of a step: of the user, the tenant and the saga, with the step's place in the saga and what
-- it runs.
abbrev pub IsStepRow : Env → ℕ → ℕ → ℕ → ℕ → JobStatus → SagaStep → Job → Type 0
IsStepRow env user tenant saga_id index status step row =
    (row.status ≡ status)
    × (row.user_id ≡ user)
    × (row.tenant_id ≡ tenant)
    × (row.saga_id ≡ some saga_id)
    × (row.saga_step_index ≡ some index)
    × (row.type ≡ step.type)
    × (row.payload ≡ some (with_context env.otel_context (or_empty step.payload)))
    × (row.priority ≡ step.priority)

-- One row for each step, in their order; all but the first one are WAITING.
abbrev pub IsChain : Env → ℕ → ℕ → ℕ → ℕ → JobStatus → List SagaStep → List Job → Type 0
IsChain env user tenant saga_id index status [] [] = Unit
IsChain env user tenant saga_id index status (step ∷ steps) (row ∷ rows) =
    IsStepRow env user tenant saga_id index status step row
    × IsChain env user tenant saga_id (index + 1) waiting steps rows
IsChain env user tenant saga_id index status _ _ = ⊥

-- Each row depends on the one before it.
abbrev pub chain_edges : ℕ → List Job → List Edge
chain_edges p [] = []
chain_edges p (row ∷ rows) = record { job_id = row.id; depends_on = p } ∷ chain_edges row.id rows

module _ (env : Env) (user tenant saga_id : ℕ) where
  is_step_row :
      (index : ℕ) (prev : Option ℕ) (step : SagaStep) (st : JobStatus) (job : Job)
      → job ≡ new_row env (step_job user tenant saga_id index prev step) job.status job.id
      → job.status ≡ st
      → IsStepRow env user tenant saga_id index st step job
  unfolding new_row step_job
  is_step_row index prev step st job is s = (
    s,
    ap (λ (x : Job). x.user_id) is,
    ap (λ (x : Job). x.tenant_id) is,
    ap (λ (x : Job). x.saga_id) is,
    ap (λ (x : Job). x.saga_step_index) is,
    ap (λ (x : Job). x.type) is,
    ap (λ (x : Job). x.payload) is,
    ap (λ (x : Job). x.priority) is,
  )

  followers :
      (steps : List SagaStep) (index p : ℕ) (prev : Job) (db db' : Db)
      → Fresh db
      → get_by_id p db ≡ some prev
      → same_status prev.status completed ≡ false
      → create_steps env (λ i d. d) user tenant saga_id index (some p) steps db ≡ ok db'
      → (rows : List Job) × (db'.jobs ≡ db.jobs ++ rows)
        × IsChain env user tenant saga_id index waiting steps rows
        × (db'.edges ≡ db.edges ++ chain_edges p rows)
        × (db'.outbox ≡ db.outbox)
        × (db'.sagas ≡ db.sagas)
  unfolding create_steps step_job
  followers [] index p prev db db' f h n e =
      let same = ok_eq db db' e in
      (
        [],
        sym (ap (λ (x : Db). x.jobs) same) ∙ sym (append-nil db.jobs),
        tt,
        sym (ap (λ (x : Db). x.edges) same) ∙ sym (append-nil db.edges),
        sym (ap (λ (x : Db). x.outbox) same),
        sym (ap (λ (x : Db). x.sagas) same),
      )
  followers (s ∷ ss) index p prev db db' f h n e =
      let new = step_job user tenant saga_id index (some p) s in
      let ((job, mid), c, r) = bind_ok (create_job env (λ d. d) new db) _ db' e in
      let is = create_job-IsStep env new db mid job refl f c in
      let (waits, quiet) =
        follower-waits job.status db p prev db.outbox mid.outbox h n
          (create_job_announces env (λ d. d) new db mid job refl c).1 in
      let (rows, at_end, chain, edges, still, sagas) =
        followers ss (index + 1) job.id job mid db' is.fresh is.found (waiting-open job waits) r in
      (
        job ∷ rows,
        at_end ∙ ap (λ js. js ++ rows) is.rows ∙ append_assoc db.jobs (job ∷ []) rows,
        (is_step_row index (some p) s waiting job is.inserted.row waits, chain),
        edges
            ∙ ap (λ es. es ++ chain_edges job.id rows) is.inserted.edges
            ∙ append_assoc db.edges (record { job_id = job.id; depends_on = p } ∷ [])
                (chain_edges job.id rows),
        still ∙ quiet,
        sagas ∙ is.inserted.sagas,
      )

  -- What the loop over all steps leaves.
  all_steps :
      (step : SagaStep) (steps : List SagaStep) (db db' : Db)
      → Fresh db
      → create_steps env (λ i d. d) user tenant saga_id 0 none (step ∷ steps) db ≡ ok db'
      → (first : Job) × (rows : List Job) × (db'.jobs ≡ db.jobs ++ first ∷ rows)
        × IsChain env user tenant saga_id 0 pending (step ∷ steps) (first ∷ rows)
        × (db'.edges ≡ db.edges ++ chain_edges first.id rows)
        × Announced first db.outbox db'.outbox
        × (db'.sagas ≡ db.sagas)
  unfolding create_steps step_job
  all_steps step steps db db' f h =
      let new = step_job user tenant saga_id 0 none step in
      let ((job, mid), c, r) = bind_ok (create_job env (λ d. d) new db) _ db' h in
      let is = create_job-IsStep env new db mid job refl f c in
      let first = is.inserted.first refl in
      let (rows, at_end, chain, edges, still, sagas) =
        followers steps 1 job.id job mid db' is.fresh is.found (pending-open job first) r in
      let (event, appended, topic, owner, payload) = is.inserted.event first in
      (
        job,
        rows,
        at_end ∙ ap (λ js. js ++ rows) is.rows ∙ append_assoc db.jobs (job ∷ []) rows,
        (is_step_row 0 none step pending job is.inserted.row first, chain),
        edges ∙ ap (λ es. es ++ chain_edges job.id rows) (is.inserted.edges ∙ append-nil db.edges),
        (event, still ∙ appended, topic, owner, payload),
        sagas ∙ is.inserted.sagas,
      )

-- A saga that is created, with no commit by others meanwhile and ids that are on no row yet, is
-- appended to the sagas, RUNNING and of the tenant, and one row for each step is appended, in the order
-- of the steps: of the saga, the user and the tenant, with the step's index, type, payload and
-- priority. The first one is PENDING, depends on nothing, and is announced by the one event that is
-- appended, a `job.submitted` event of its id, type and payload; every other one is WAITING and
-- depends on the row before it.
pub create_saga-IsChain :
    (env : Env) (user tenant : ℕ) (name : String) (steps : List SagaStep) (db db' : Db)
    (saga : Saga)
    → Fresh db
    → create_saga env (λ i d. d) user tenant name steps db ≡ ok (saga, db')
    → (first : Job) × (rows : List Job) × (db'.jobs ≡ db.jobs ++ first ∷ rows)
      × IsChain env user tenant saga.id 0 pending steps (first ∷ rows)
      × (db'.edges ≡ db.edges ++ chain_edges first.id rows)
      × Announced first db.outbox db'.outbox
      × (db'.sagas ≡ db.sagas ++ saga ∷ [])
      × (saga.status ≡ saga_running)
      × (saga.tenant_id ≡ tenant)
unfolding create_saga create_steps step_job new_saga log
create_saga-IsChain env user tenant name [] db db' saga f h = cc
create_saga-IsChain env user tenant name (s ∷ ss) db db' saga f h =
    let made = new_saga env.now tenant name db.next_id in
    let begun = record db { sagas = db.sagas ++ made ∷ []; next_id = db.next_id + 1 } in
    let (done, c, r) =
      bind_ok (create_steps env (λ i d. d) user tenant made.id 0 none (s ∷ ss) begun) _ (saga, db')
        h in
    let (saga_same, same) = ok_pair made saga _ db' r in
    let (first, rows, jobs, chain, edges, event, sagas) =
      all_steps env user tenant made.id s ss begun done (fresh-later db.next_id db.jobs f) c in
    subst₂
      (λ (g : Saga) (x : Db).
        (first : Job) × (rows : List Job) × (x.jobs ≡ db.jobs ++ first ∷ rows)
        × IsChain env user tenant g.id 0 pending (s ∷ ss) (first ∷ rows)
        × (x.edges ≡ db.edges ++ chain_edges first.id rows)
        × Announced first db.outbox x.outbox
        × (x.sagas ≡ db.sagas ++ g ∷ [])
        × (g.status ≡ saga_running)
        × (g.tenant_id ≡ tenant))
      saga_same same (first, rows, jobs, chain, edges, event, sagas, refl, refl)
