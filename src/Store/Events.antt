-- ===== src/Store/Events.antt =====
-- schemas/job_events.py: the payloads of the terminal events, read off the row.
use incident_platform.Prelude.{
  ℕ, true, Option, none, some, [], ◌∷◌, String, str_eq, if◌then◌else◌, leb,
}
use incident_platform.Store.{
  Job, Message, text, is_blank, Payload, json_bool, json_number, Event, submitted, completed_event,
  cancelled_event, dlq_event,
}

-- `len(json.dumps(payload).encode())`, with `none` where `dumps` raises: `json` is not part of the
-- repository, so the size of a payload is a parameter.
abbrev pub JsonSize : Type 0
JsonSize = Payload → Option ℕ

abbrev pub dlq_payload_max_bytes : ℕ
dlq_payload_max_bytes = 4096

abbrev pub trace_carrier_key : String
trace_carrier_key = "__traceparent"

-- `a or b` on an optional text.
abbrev pub or_message : Option Message → Message → Message
or_message none d = d
or_message (some m) d = if is_blank m then d else m

-- `payload or {}`.
abbrev pub or_empty : Option Payload → Payload
or_empty none = []
or_empty (some p) = p

-- The comprehension of `dlq_event_payload`, and `payload.pop("__traceparent", …)`.
pub without_carrier : Payload → Payload
without_carrier [] = []
without_carrier ((k, v) ∷ p) =
    let rest = without_carrier p in if str_eq k trace_carrier_key then rest else (k, v) ∷ rest

bounded : Payload → Option ℕ → Option Payload
bounded p none = none
bounded p (some size) =
    if leb size dlq_payload_max_bytes
    then some p
    else some (("_truncated", json_bool true) ∷ ("_original_bytes", json_number size) ∷ [])

unfoldable pub payload_for_event : JsonSize → Option Payload → Option Payload
unfolding bounded
payload_for_event size none = none
payload_for_event size (some p) = bounded p (size p)

abbrev unspecified_error : Message
unspecified_error = text "job dead-lettered without a recorded error"

abbrev unspecified_cancel_reason : Message
unspecified_cancel_reason = text "job cancelled without a recorded reason"

abbrev or_default : Option Message → Message → Message
or_default none d = d
or_default (some m) d = m

unfoldable pub dlq_event_payload : JsonSize → Job → Option Message → Event
unfolding payload_for_event without_carrier
dlq_event_payload size job message =
    let error = or_message job.error_message unspecified_error in
    dlq_event job.tenant_id job.id job.user_id job.type error (or_default message error)
      job.retry_count job.max_attempts
      (payload_for_event size (some (without_carrier (or_empty job.payload)))) job.trace_id

unfoldable pub cancelled_event_payload : Job → Event
cancelled_event_payload job =
    cancelled_event job.tenant_id job.id job.user_id job.type
      (or_message job.error_message unspecified_cancel_reason) job.retry_count job.trace_id

unfoldable pub completed_event_payload : Job → Event
completed_event_payload job =
    completed_event job.tenant_id job.id job.user_id job.type job.result job.retry_count

-- `_job_submitted_payload` of workers/dispatcher.py.
unfoldable pub job_submitted_payload : Job → Event
job_submitted_payload job =
    submitted job.tenant_id job.id job.user_id job.type (or_empty job.payload) job.priority
      job.trace_id
