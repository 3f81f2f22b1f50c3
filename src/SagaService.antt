-- ===== src/SagaService.antt =====
-- services/saga.py: `create_saga`, which writes a saga and one job for each of its steps.
pub mod Steps
pub mod Chain
use incident_platform.Prelude.{
  ℕ, ◌+◌, Option, none, some, List, [], ◌∷◌, ◌++◌, String, is_nil, if◌then◌else◌, length,
}
use incident_platform.Store.{Payload, Saga, saga_running, saga_created, Db, log}
use incident_platform.JobService.{
  Env, NewJob, Result, ok, err, request_validation_error, ◌>>=◌, create_job,
}

pub record SagaStep : Type 0 where
  pub type : String
  pub payload : Option Payload
  pub priority : ℕ

abbrev pub prev_list : Option ℕ → List ℕ
prev_list none = []
prev_list (some id) = id ∷ []

-- The arguments of the call of `create_job` for one step.
unfoldable pub step_job : ℕ → ℕ → ℕ → ℕ → Option ℕ → SagaStep → NewJob
step_job user tenant saga_id index prev step = record {
  user_id = user;
  tenant_id = tenant;
  type = step.type;
  payload = step.payload;
  idempotency_key = none;
  priority = step.priority;
  max_attempts = none;
  dependencies = prev_list prev;
  saga_id = some saga_id;
  saga_step_index = some index;
}

-- The loop over the steps; `others` is what other transactions commit during the call for a step.
unfoldable pub create_steps :
    Env → (ℕ → Db → Db) → ℕ → ℕ → ℕ → ℕ → Option ℕ → List SagaStep → Db → Result Db
unfolding step_job
create_steps env others user tenant saga_id index prev [] db = ok db
create_steps env others user tenant saga_id index prev (step ∷ steps) db = do
  created ← create_job env (others index) (step_job user tenant saga_id index prev step) db
  create_steps env others user tenant saga_id (index + 1) (some created.0.id) steps created.1

-- The row of the saga.
unfoldable pub new_saga : ℕ → ℕ → String → ℕ → Saga
new_saga now tenant name id = record {
  id = id;
  tenant_id = tenant;
  name = name;
  status = saga_running;
  created_at = now;
  completed_at = none;
}

unfoldable pub create_saga :
    Env → (ℕ → Db → Db) → ℕ → ℕ → String → List SagaStep → Db → Result (Saga × Db)
unfolding create_steps new_saga log
create_saga env others user tenant name steps db =
    let saga = new_saga env.now tenant name db.next_id in
    let begun = record db { sagas = db.sagas ++ saga ∷ []; next_id = db.next_id + 1 } in
    if is_nil steps then err request_validation_error else do
      done ← create_steps env others user tenant saga.id 0 none steps begun
      ok (
        saga,
        log
            (record {
              action = saga_created (length steps);
              tenant_id = tenant;
              user_id = some user;
              principal_id = some user;
              job_id = none;
            })
            done,
      )
