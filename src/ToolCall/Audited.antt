-- ===== src/ToolCall/Audited.antt =====
-- What the audit table says of every call whose parameters parse.
use incident_platform.ToolCall.{
  unlabelled, labelled, probe_refused, Tool, authentication_error, authorization_error, app_error,
  crash, Request, Server, ToolAudit, AuditOutcome, success, Handled, returned, raised, Response,
  rpc_ok, rpc_error, has_scope, LabProbe, extract_idempotency_key, run_tool, run_tool_call,
  run_probed, run_registered, with_key, on_acquired, execute, settle_handled, complete_held,
  release_claim, audit_row, audited, audited_early,
}
use incident_platform.Prelude.{
  ◌≡◌, refl, Bool, true, false, Option, none, some, [], ◌∷◌, ◌++◌, String, inl, inr, arith,
  Bool-cases,
}
use incident_platform.Idempotency.{KeyTable, Acquired, claim, replay, key_reused, key_in_flight}

abbrev pub is_answer : Response → Bool
is_answer (rpc_ok output) = true
is_answer (rpc_error code) = false

abbrev pub is_success : AuditOutcome → Bool
is_success success = true
is_success _ = false

-- One row is added, it carries the call's arguments, and it says whether the call succeeded.
abbrev pub Audited : {W : Type 0} → Request → Server W → Response × Server W → Type 0
Audited req s (response, s') =
    (row : ToolAudit) × (s'.audit ≡ s.audit ++ row ∷ [])
    × (row.arguments ≡ req.arguments)
    × (is_success row.outcome ≡ is_answer response)

module _ {W : Type 0} where
  released_audit :
      (req : Request) (held : Option _) (s : Server W) → (release_claim req held s).audit ≡ s.audit
  unfolding release_claim
  released_audit req none s = refl
  released_audit req (some id) s = ground arith

  completed_audit :
      (req : Request) (held : Option _) (output : _) (s : Server W)
      → (complete_held req held output s).audit ≡ s.audit
  unfolding complete_held
  completed_audit req none output s = refl
  completed_audit req (some id) output s = ground arith

  settle_handled-Audited :
      (req : Request) (tool : Tool W) (held : Option _) (handled : Handled W) (s : Server W)
      → Audited req s (settle_handled req tool held handled s)
  unfolding settle_handled audit_row audited
  settle_handled-Audited req tool held (returned output tables) s =
      (_, completed_audit req held output _, refl, refl)
  settle_handled-Audited req tool held (raised authentication_error) s =
      (_, released_audit req held _, refl, refl)
  settle_handled-Audited req tool held (raised authorization_error) s =
      (_, released_audit req held _, refl, refl)
  settle_handled-Audited req tool held (raised app_error) s =
      (_, released_audit req held _, refl, refl)
  settle_handled-Audited req tool held (raised crash) s = (_, released_audit req held _, refl, refl)

  on_acquired-Audited :
      (req : Request) (tool : Tool W) (acquired : Acquired) (keys : KeyTable) (s : Server W)
      → Audited req s (on_acquired req tool (acquired, keys) s)
  unfolding on_acquired execute audit_row audited
  on_acquired-Audited req tool (claim id) keys s =
      settle_handled-Audited req tool (some id) (tool.handler req.arguments s.tables)
        (record s { keys = keys })
  on_acquired-Audited req tool (replay response stored_at) keys s = (_, refl, refl, refl)
  on_acquired-Audited req tool key_reused keys s = (_, refl, refl, refl)
  on_acquired-Audited req tool key_in_flight keys s = (_, refl, refl, refl)

  with_key-Audited :
      (req : Request) (tool : Tool W) (key : Option String) (s : Server W)
      → Audited req s (with_key req tool key s)
  unfolding with_key audit_row audited
  with_key-Audited req tool none s = (_, refl, refl, refl)
  with_key-Audited req tool (some key) s = on_acquired-Audited req tool _ _ s

  run_tool-Audited :
      (req : Request) (tool : Tool W) (s : Server W) → Audited req s (run_tool req tool s)
  unfolding run_tool execute audit_row audited
  run_tool-Audited req tool s = elim (Bool-cases (has_scope req tool.required_scope)) [
    | inr t ↦ rw t (_, refl, refl, refl)
    | inl t ↦ rw t (elim (Bool-cases (tool.accepts req.arguments)) [
      | inr a ↦ rw a (_, refl, refl, refl)
      | inl a ↦ rw a (elim (Bool-cases tool.is_idempotent) [
        | inl i ↦ rw i (with_key-Audited req tool (extract_idempotency_key req.arguments) s)
        | inr i ↦
            rw i (settle_handled-Audited req tool none (tool.handler req.arguments s.tables) s)
      ])
    ])
  ]

  run_registered-Audited :
      (req : Request) (tool : Option (Tool W)) (s : Server W)
      → Audited req s (run_registered req tool s)
  unfolding run_registered audit_row audited_early
  run_registered-Audited req none s = (_, refl, refl, refl)
  run_registered-Audited req (some tool) s = run_tool-Audited req tool s

  run_probed-Audited :
      (req : Request) (tools : String → Option (Tool W)) (lab : LabProbe) (s : Server W)
      → Audited req s (run_probed req tools lab s)
  unfolding run_probed audit_row audited_early
  run_probed-Audited req tools probe_refused s = (_, refl, refl, refl)
  run_probed-Audited req tools unlabelled s = run_registered-Audited req (tools req.tool_name) s
  run_probed-Audited req tools labelled s = run_registered-Audited req (tools req.tool_name) s

-- Every call whose parameters parse adds one row to the audit table, whichever way it ends, a refusal
-- and a replay included: the row carries the call's arguments, and its outcome is a success exactly
-- when the response is an answer.
pub run_tool_call-Audited :
    {W : Type 0} (req : Request) (tools : String → Option (Tool W)) (s : Server W)
    → Audited req s (run_tool_call req tools s)
unfolding run_tool_call
run_tool_call-Audited req tools s = run_probed-Audited req tools req.lab s
