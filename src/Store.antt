-- ===== src/Store.antt =====
-- The tables that the services share: models/enums.py, models/job.py, models/outbox.py,
-- models/saga.py, models/job_dependency.py and the audit row of repositories/audit.py, as one
-- database value. An id stands for a uuid; `next_id` numbers the draws of `uuid4`, so that a drawn
-- id is one that no row has. A time is a number of seconds.
pub mod Table
pub mod Events
use incident_platform.Prelude.{
  ℕ, ◌+◌, String, Bool, true, false, Option, none, some, List, [], ◌∷◌, ◌++◌,
}

pub data JobStatus : Type 0 where
  waiting pending running completed failed dead_letter cancelled : JobStatus

pub JobStatus-discrete : Discrete JobStatus
JobStatus-discrete = hlevel

-- `a == b` on two statuses.
abbrev pub same_status : JobStatus → JobStatus → Bool
same_status waiting waiting = true
same_status pending pending = true
same_status running running = true
same_status completed completed = true
same_status failed failed = true
same_status dead_letter dead_letter = true
same_status cancelled cancelled = true
same_status _ _ = false

pub data UserRole : Type 0 where
  user support admin : UserRole

-- The statuses that a job never leaves under its own power.
abbrev pub is_terminal : JobStatus → Bool
is_terminal completed = true
is_terminal dead_letter = true
is_terminal cancelled = true
is_terminal _ = false

pub data SagaStatus : Type 0 where
  saga_running saga_completed saga_failed compensating compensated : SagaStatus

pub data RemediationHint : Type 0 where
  replay_safe wait_and_replay human_required : RemediationHint

-- A text that the program composes: the template, with the values that it puts in.
pub data Message : Type 0 where
  text : String → Message
  no_processor : String → Message
  timed_out : ℕ → Message
  execution_timed_out : Message → Message
  exhausted : ℕ → Message → Message
  llm_dead_lettered : Message → Message
  retrying : ℕ → ℕ → ℕ → Message
  schema_failed : Message → Message
  abandoned : ℕ → Message → Message
  clipped : ℕ → Message → Message
  dispatcher_escape : Message → Message
  parent_ended : ℕ → JobStatus → Message

-- The truth of a text in `a or b`: it is not empty. Only a plain text can be empty.
abbrev pub is_blank : Message → Bool
is_blank (text String.[]) = true
is_blank _ = false

-- A JSON value: those that the program reads or writes itself, or the text of any other. `json_id` is
-- `str` of an id.
pub data Json : Type 0 where
  json : String → Json
  json_text : String → Json
  json_bool : Bool → Json
  json_number : ℕ → Json
  json_id : ℕ → Json

-- A JSON object: its keys with their values.
abbrev pub Payload : Type 0
Payload = List (String × Json)

-- A row of `jobs`.
pub record Job : Type 0 where
  pub id : ℕ
  pub tenant_id : ℕ
  pub user_id : ℕ
  pub type : String
  pub status : JobStatus
  pub idempotency_key : Option String
  pub payload : Option Payload
  pub result : Option Payload
  pub error_message : Option Message
  pub retry_count : ℕ
  pub max_attempts : ℕ
  pub remediation_hint : Option RemediationHint
  pub dead_lettered_by : Option String
  pub fenced_at : Option ℕ
  pub fenced_by : Option String
  pub priority : ℕ
  pub trace_id : Option String
  pub created_at : ℕ
  pub updated_at : ℕ
  pub started_at : Option ℕ
  pub completed_at : Option ℕ
  pub requeued_at : Option ℕ
  pub heartbeat_at : Option ℕ
  pub saga_id : Option ℕ
  pub saga_step_index : Option ℕ

-- The topics that `config.py` names.
pub data Topic : Type 0 where
  job_submitted job_completed job_failed job_dlq job_cancelled : Topic

-- The payload of an outbox row, one constructor for each shape that the program builds.
pub data Event : Type 0 where
  submitted :
      (tenant_id job_id user_id : ℕ) (job_type : String) (payload : Payload) (priority : ℕ)
      (trace_id : Option String)
      → Event
  completed_event :
      (tenant_id job_id user_id : ℕ) (job_type : String) (result : Option Payload) (retry_count : ℕ)
      → Event
  cancelled_event :
      (tenant_id job_id user_id : ℕ) (job_type : String) (reason : Message) (retry_count : ℕ)
      (trace_id : Option String)
      → Event
  retry_event :
      (tenant_id job_id user_id : ℕ) (job_type : String) (error message : Message) (retry_count : ℕ)
      → Event
  dlq_event :
      (tenant_id job_id user_id : ℕ) (job_type : String) (error message : Message)
      (retry_count max_attempts : ℕ) (payload : Option Payload) (trace_id : Option String)
      → Event

-- A row of `outbox_events`. The key is the f-string of its tenant and user.
pub record OutboxEvent : Type 0 where
  pub id : ℕ
  pub tenant_id : ℕ
  pub topic : Topic
  pub key : ℕ × ℕ
  pub payload : Event
  pub attempts : ℕ
  pub created_at : ℕ
  pub published_at : Option ℕ
  pub failed_at : Option ℕ
  pub error_message : Option Message

-- What an audit row says happened, with the values of its `extra_data` that the program reads off
-- the state.
pub data AuditAction : Type 0 where
  job_created : JobStatus → AuditAction
  job_replayed : (previous_status : JobStatus) (previous_retry_count : ℕ) → AuditAction
  incident_resolved : AuditAction
  job_dead_letter : (reason : Option String) (error : Message) → AuditAction
  job_completed_audit : (retry_count : ℕ) → AuditAction
  saga_created : (step_count : ℕ) → AuditAction
  saga_completed_audit : (step_count : ℕ) → AuditAction
  saga_compensating : (failed_job_id compensations_emitted cancelled_downstream : ℕ) → AuditAction
  saga_settled : (success : Bool) (compensation_steps dead_lettered : ℕ) → AuditAction

pub record AuditRow : Type 0 where
  pub action : AuditAction
  pub tenant_id : ℕ
  pub user_id : Option ℕ
  pub principal_id : Option ℕ
  pub job_id : Option ℕ

-- A row of `sagas`.
pub record Saga : Type 0 where
  pub id : ℕ
  pub tenant_id : ℕ
  pub name : String
  pub status : SagaStatus
  pub created_at : ℕ
  pub completed_at : Option ℕ

-- A row of `job_dependencies`: the job, and the job it depends on.
pub record Edge : Type 0 where
  pub job_id : ℕ
  pub depends_on : ℕ

pub record Db : Type 0 where
  pub jobs : List Job
  pub edges : List Edge
  pub outbox : List OutboxEvent
  pub audit : List AuditRow
  pub sagas : List Saga
  pub next_id : ℕ

-- `OutboxRepository.add`.
unfoldable pub add_event : ℕ → ℕ → Topic → ℕ × ℕ → Event → Db → Db
add_event now tenant topic key payload db = record db {
  next_id = db.next_id + 1;
  outbox =
      db.outbox
      ++ record {
        id = db.next_id;
        tenant_id = tenant;
        topic = topic;
        key = key;
        payload = payload;
        attempts = 0;
        created_at = now;
        published_at = none;
        failed_at = none;
        error_message = none;
      }
        ∷ [];
}

-- `AuditRepository.log`, for the arguments that its callers here give.
unfoldable pub log : AuditRow → Db → Db
log row db = record db { audit = db.audit ++ row ∷ [] }
