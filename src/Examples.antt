-- ===== src/Examples.antt =====
-- Test data: a small database with a chain of dependent jobs, a dead-lettered job and a saga that is
-- under way.
mod Applied
mod Pauses
mod Sagas
mod Relays
mod Sweeps
mod Breakers
mod Calls
mod Fires
mod Dispatches
mod Streams
mod Records
use incident_platform.Prelude.{
  true, ℕ, Bool, false, Option, none, some, List, [], ◌∷◌, String, ◌==◌,
}
use incident_platform.Store.{
  JobStatus, waiting, pending, completed, dead_letter, saga_running, Message, text, Job, Edge, Db,
  Saga, OutboxEvent,
}
use incident_platform.Store.Events.{JsonSize}
use incident_platform.JobService.{Env, NewJob, Caller, user_principal, Result, ok, err}
use incident_platform.Run.{Settings, World, Delivery, Outcome, raised, returned}
use incident_platform.Queue.{Delayed}

abbrev pub row : ℕ → JobStatus → Option ℕ → Job
row id status saga = record {
  id = id;
  tenant_id = 100;
  user_id = 7;
  type = "csv_upload";
  status = status;
  idempotency_key = none;
  payload = some [];
  result = none;
  error_message = none;
  retry_count = 0;
  max_attempts = 3;
  remediation_hint = none;
  dead_lettered_by = none;
  fenced_at = none;
  fenced_by = none;
  priority = 5;
  trace_id = none;
  created_at = 10;
  updated_at = 10;
  started_at = none;
  completed_at = none;
  requeued_at = none;
  heartbeat_at = none;
  saga_id = saga;
  saga_step_index = none;
}

-- Job 2 waits for 1, 3 for 2, and 9 for 5; 4 is dead-lettered; 5, 6 and 8 are steps of saga 50.
abbrev pub db : Db
db = record {
  jobs =
      row 1 pending none
      ∷ row 2 waiting none
      ∷ row 3 waiting none
      ∷ row 4 dead_letter none
      ∷ row 5 completed (some 50)
      ∷ row 6 dead_letter (some 50)
      ∷ row 8 waiting (some 50)
      ∷ row 9 waiting none
      ∷ [];
  edges =
      record { job_id = 2; depends_on = 1 }
      ∷ record { job_id = 3; depends_on = 2 }
      ∷ record { job_id = 9; depends_on = 5 }
      ∷ [];
  outbox = [];
  audit = [];
  sagas =
      record {
        id = 50;
        tenant_id = 100;
        name = "release";
        status = saga_running;
        created_at = 10;
        completed_at = none;
      }
      ∷ [];
  next_id = 51;
}

abbrev pub saga : Saga
saga = record {
  id = 50;
  tenant_id = 100;
  name = "release";
  status = saga_running;
  created_at = 10;
  completed_at = none;
}

abbrev pub json_size : JsonSize
json_size payload = some 2

abbrev pub env : Env
env = record {
  now = 20;
  default_max_attempts = 3;
  otel_context = none;
  trace_id = none;
  paused = none;
  has_dep_repo = true;
  json_size = json_size;
}

abbrev pub new_job : Option String → NewJob
new_job key = record {
  user_id = 7;
  tenant_id = 100;
  type = "csv_upload";
  payload = none;
  idempotency_key = key;
  priority = 5;
  max_attempts = none;
  dependencies = 5 ∷ [];
  saga_id = none;
  saga_step_index = none;
}

abbrev pub caller : Caller
caller = record {
  requesting_user_id = some 7;
  principal_type = user_principal;
  principal_id = none;
}

-- The database and the job of an accepted call.
abbrev pub db_of : Result (Job × Db) → Db
db_of (ok (job, d)) = d
db_of (err e) = db

abbrev pub job_of : Result (Job × Db) → Job
job_of (ok (job, d)) = job
job_of (err e) = row 0 pending none

abbrev pub settings : Settings
settings = record {
  job_retry_backoff_base = 2;
  job_execution_timeout_seconds = 60;
  llm_retry_policy_enabled = false;
  llm_retry_policy_min_retry_count = 2;
}

abbrev pub delivery : Outcome → Delivery
delivery outcome = record {
  claimed_at = 30;
  settled_at = 40;
  paused = none;
  redis_up = true;
  policy = none;
  outcome = outcome;
  others = λ d. d;
}

abbrev pub failing : Delivery
failing = delivery (raised (text "boom"))

abbrev pub world : World
world = record { db = db; delayed = [] }

abbrev pub queued : List Delayed
queued =
    record { member = 1; score = 5 }
    ∷ record { member = 2; score = 15 }
    ∷ record { member = 3; score = 40 }
    ∷ []

abbrev pub paused_at : ℕ → ℕ → Bool
paused_at root n = n == root
