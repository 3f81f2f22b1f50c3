-- ===== src/ToolCall.antt =====
-- `handle_tools_call` and `_run_tool_call` of mcp/handlers.py: the envelope around one call of an
-- operator's tool. A tool's input model and its handler are outside the model and enter as functions;
-- the tables that a handler writes are a type of its own. The handler's writes are in a savepoint, so
-- one that raises leaves nothing. A response is the output that it carries.
pub mod Keyed
pub mod Repeats
pub mod Audited
use incident_platform.Prelude.{
  ℕ, Bool, true, false, not, ◌&&◌, Option, none, some, List, [], ◌∷◌, ◌++◌, String, str_eq,
  if◌then◌else◌, any,
}
use incident_platform.Store.{Json, json, json_text, json_bool, json_number, json_id, Payload}
use incident_platform.Idempotency.{
  KeyTable, KeyedCall, Acquired, claim, replay, key_reused, key_in_flight, acquire, complete,
  release,
}

abbrev pub idempotency_ttl : ℕ
idempotency_ttl = 86400

-- The classes of exceptions that the envelope tells apart.
pub data ToolError : Type 0 where
  authentication_error authorization_error app_error crash : ToolError

pub data Handled (W : Type 0) : Type 0 where
  returned : Payload → W → Handled W
  raised : ToolError → Handled W

pub record Tool (W : Type 0) : Type 0 where
  pub name : String
  pub required_scope : Option String
  pub is_idempotent : Bool
  pub is_chaos : Bool
  pub is_commander : Bool
  pub accepts : Payload → Bool
  pub handler : Payload → W → Handled W

pub record Principal : Type 0 where
  pub tenant_id : ℕ
  pub id : ℕ
  pub scopes : List String

pub data AuditOutcome : Type 0 where
  success error unauthorized : AuditOutcome

-- The row that `record_tool_invocation` writes, but for its texts, its latency and its request id.
pub record ToolAudit : Type 0 where
  pub tool_name : String
  pub arguments : Payload
  pub scope_used : Option String
  pub outcome : AuditOutcome
  pub is_chaos : Bool
  pub is_commander : Bool
  pub lab_probe : Bool

-- The codes of a JSON-RPC error.
pub data ErrorCode : Type 0 where
  invalid_params tool_not_found mcp_unauthorized mcp_forbidden tool_error internal_error : ErrorCode

pub data Response : Type 0 where
  rpc_ok : Payload → Response
  rpc_error : ErrorCode → Response

-- How `resolve_lab_probe` settles a call's `_lab_probe`.
pub data LabProbe : Type 0 where
  unlabelled labelled probe_refused : LabProbe

pub record Server (W : Type 0) : Type 0 where
  pub keys : KeyTable
  pub audit : List ToolAudit
  pub tables : W

-- What a request brings, and what surrounds it. `can_complete` and `can_release` say whether the
-- savepoints around the two last writes of a claim hold.
pub record Request : Type 0 where
  pub now : ℕ
  pub finished_at : ℕ
  pub principal : Principal
  pub lab : LabProbe
  pub tool_name : String
  pub arguments : Payload
  pub others : KeyTable → KeyTable
  pub others' : KeyTable → KeyTable
  pub hash : Payload → String
  pub can_complete : Bool
  pub can_release : Bool

-- `_extract_idempotency_key`: a text that is not empty.
abbrev key_text : Json → Option String
key_text (json_text String.[]) = none
key_text (json_text s) = some s
key_text (json s) = none
key_text (json_bool b) = none
key_text (json_number n) = none
key_text (json_id n) = none

unfoldable pub extract_idempotency_key : Payload → Option String
extract_idempotency_key [] = none
extract_idempotency_key ((k, v) ∷ p) =
    let rest = extract_idempotency_key p in if str_eq k "idempotency_key" then key_text v else rest

abbrev pub keyed : {W : Type 0} → Request → Tool W → String → KeyedCall
keyed req tool key = record {
  tenant_id = req.principal.tenant_id;
  principal_id = req.principal.id;
  tool_name = tool.name;
  idempotency_key = key;
  arguments = req.arguments;
}

abbrev is_labelled : LabProbe → Bool
is_labelled labelled = true
is_labelled _ = false

-- An audit row of a call that did not reach its tool.
unfoldable pub audited_early : Request → ToolAudit
audited_early req = record {
  tool_name = req.tool_name;
  arguments = req.arguments;
  scope_used = none;
  outcome = error;
  is_chaos = false;
  is_commander = false;
  lab_probe = is_labelled req.lab;
}

abbrev pub has_scope : Request → Option String → Bool
has_scope req none = true
has_scope req (some scope) = any (λ s. str_eq s scope) req.principal.scopes

abbrev pub error_code : ToolError → ErrorCode
error_code authentication_error = mcp_unauthorized
error_code authorization_error = mcp_forbidden
error_code app_error = tool_error
error_code crash = internal_error

abbrev pub error_outcome : ToolError → AuditOutcome
error_outcome authentication_error = unauthorized
error_outcome authorization_error = unauthorized
error_outcome app_error = error
error_outcome crash = error

module _ {W : Type 0} where
  -- An audit row of a call that reached its tool.
  unfoldable pub audited : Request → Tool W → AuditOutcome → ToolAudit
  audited req tool outcome = record {
    tool_name = tool.name;
    arguments = req.arguments;
    scope_used = tool.required_scope;
    outcome = outcome;
    is_chaos = tool.is_chaos;
    is_commander = tool.is_commander;
    lab_probe = is_labelled req.lab;
  }

  unfoldable pub audit_row : ToolAudit → Server W → Server W
  audit_row row s = record s { audit = s.audit ++ row ∷ [] }

  -- `_release_claim` and `_complete_claim`.
  release_claim : Request → Option ℕ → Server W → Server W
  release_claim req none s = s
  release_claim req (some id) s =
      if req.can_release then record s { keys = release id s.keys } else s

  complete_held : Request → Option ℕ → Payload → Server W → Server W
  complete_held req none output s = s
  complete_held req (some id) output s =
      if req.can_complete
      then record s { keys = complete req.finished_at id output (some idempotency_ttl) s.keys }
      else s

  settle_handled : Request → Tool W → Option ℕ → Handled W → Server W → Response × Server W
  unfolding audited audit_row release_claim complete_held
  settle_handled req tool held (raised exc) s = (
    rpc_error (error_code exc),
    release_claim req held (audit_row (audited req tool (error_outcome exc)) s),
  )
  settle_handled req tool held (returned output tables) s = (
    rpc_ok output,
    complete_held req held output
        (audit_row (audited req tool success) (record s { tables = tables })),
  )

  -- The handler, and what follows it.
  execute : Request → Tool W → Option ℕ → Server W → Response × Server W
  unfolding settle_handled
  execute req tool held s = settle_handled req tool held (tool.handler req.arguments s.tables) s

  unfoldable pub on_acquired :
      Request → Tool W → Acquired × KeyTable → Server W → Response × Server W
  unfolding execute audited audit_row
  on_acquired req tool (claim id, keys) s = execute req tool (some id) (record s { keys = keys })
  on_acquired req tool (replay response stored_at, keys) s =
      (rpc_ok response, audit_row (audited req tool success) (record s { keys = keys }))
  on_acquired req tool (key_reused, keys) s =
      (rpc_error tool_error, audit_row (audited req tool error) (record s { keys = keys }))
  on_acquired req tool (key_in_flight, keys) s =
      (rpc_error tool_error, audit_row (audited req tool error) (record s { keys = keys }))

  with_key : Request → Tool W → Option String → Server W → Response × Server W
  unfolding on_acquired
  with_key req tool none s = (rpc_error invalid_params, audit_row (audited req tool error) s)
  with_key req tool (some key) s =
      on_acquired req tool
        (acquire req.now req.others req.others' req.hash (some idempotency_ttl) (keyed req tool key)
          s.keys)
        s

  -- A call whose tool is registered.
  unfoldable pub run_tool : Request → Tool W → Server W → Response × Server W
  unfolding with_key extract_idempotency_key
  run_tool req tool s =
      if not (has_scope req tool.required_scope)
      then (rpc_error mcp_forbidden, audit_row (audited req tool unauthorized) s)
      else if not (tool.accepts req.arguments)
      then (rpc_error invalid_params, audit_row (audited req tool error) s)
      else if tool.is_idempotent
      then with_key req tool (extract_idempotency_key req.arguments) s
      else execute req tool none s

  run_registered : Request → Option (Tool W) → Server W → Response × Server W
  unfolding run_tool audited_early
  run_registered req none s = (rpc_error tool_not_found, audit_row (audited_early req) s)
  run_registered req (some tool) s = run_tool req tool s

  run_probed : Request → (String → Option (Tool W)) → LabProbe → Server W → Response × Server W
  unfolding run_registered
  run_probed req tools probe_refused s = (rpc_error invalid_params, audit_row (audited_early req) s)
  run_probed req tools unlabelled s = run_registered req (tools req.tool_name) s
  run_probed req tools labelled s = run_registered req (tools req.tool_name) s

  -- `_run_tool_call` on parameters that parse.
  unfoldable pub run_tool_call :
      Request → (String → Option (Tool W)) → Server W → Response × Server W
  unfolding run_probed
  run_tool_call req tools s = run_probed req tools req.lab s

  -- `handle_tools_call`: where the audit row cannot be written the request fails, with no response,
  -- and its transaction is rolled back.
  unfoldable pub handle_tools_call :
      Bool → Option Request → (String → Option (Tool W)) → Server W → Option Response × Server W
  unfolding run_tool_call
  handle_tools_call audit_up none tools s = (some (rpc_error invalid_params), s)
  handle_tools_call false (some req) tools s = (none, s)
  handle_tools_call true (some req) tools s =
      let (response, s') = run_tool_call req tools s in (some response, s')
