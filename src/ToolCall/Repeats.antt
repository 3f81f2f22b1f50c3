-- ===== src/ToolCall/Repeats.antt =====
-- What the same request, sent again, meets: the answer of the first one, a free key, or a refusal.
use incident_platform.Prelude.{
  ℕ, ◌+◌, ◌≡◌, ◌≤◌, refl, ap, ◌∙◌, true, false, ◌&&◌, none, some, String, str_eq, arith,
}
use incident_platform.Store.{Payload}
use incident_platform.Idempotency.{
  IdempotencyRecord, KeyTable, get_by_key, key_row, is_expired, deadline,
}
use incident_platform.Idempotency.Keys.{
  FreshId, completed_row, acquire-free, release-claimed, holder_answer-settled, holder_answer-other,
  holder_answer-unsettled,
}
use incident_platform.ToolCall.{
  Tool, ToolError, Request, Server, returned, raised, rpc_ok, rpc_error, tool_error, error_code,
  extract_idempotency_key, idempotency_ttl, keyed, run_tool, on_acquired, execute, settle_handled,
  complete_held, release_claim, audit_row,
}
use incident_platform.ToolCall.Keyed.{
  Admitted, run_tool-keyed, first_call, uncompleted_call, held_call,
}

-- A call of an idempotent tool on a free key, whose handler returns, answers with the handler's
-- output and commits its writes. The same request again, within a day of the first one's end and with
-- its row of the key untouched, answers the same output out of whatever state the server is then in,
-- and writes to no table but the audit's.
pub tool_call_replays :
    {W : Type 0} (req : Request) (tool : Tool W) (key : String) (output : Payload) (tables : W)
    (s s' : Server W) (later : ℕ) (others : KeyTable → KeyTable)
    → Admitted req tool
    → extract_idempotency_key req.arguments ≡ some key
    → req.can_complete ≡ true
    → get_by_key (keyed req tool key) s.keys ≡ none
    → tool.handler req.arguments s.tables ≡ returned output tables
    → later ≤ req.finished_at + 86400
    → get_by_key (keyed req tool key) s'.keys
      ≡ get_by_key (keyed req tool key) (run_tool req tool s).1.keys
    → get_by_key (keyed req tool key) (others s'.keys) ≡ get_by_key (keyed req tool key) s'.keys
    → ((run_tool req tool s).0 ≡ rpc_ok output)
      × ((run_tool req tool s).1.tables ≡ tables)
      × ((run_tool (record req { now = later; others = others }) tool s').0 ≡ rpc_ok output)
      × ((run_tool (record req { now = later; others = others }) tool s').1.tables ≡ s'.tables)
      × ((run_tool (record req { now = later; others = others }) tool s').1.keys ≡ others s'.keys)
unfolding on_acquired audit_row
tool_call_replays req tool key output tables s s' later others ok k can free ran soon same quiet =
    let (answered, written, stored) = first_call req tool s key output tables ok k can free ran in
    let again : Request = record req { now = later; others = others } in
    let row = completed_row output (deadline req.finished_at (some idempotency_ttl)) (
      key_row req.now req.hash (deadline req.now (some idempotency_ttl)) (keyed req tool key)
        s.keys.next_id) in
    let settled =
      holder_answer-settled req.hash (keyed req tool key) req.now s.keys.next_id output
        (deadline req.now (some idempotency_ttl))
        (deadline req.finished_at (some idempotency_ttl)) in
    let held =
      held_call again tool s' key row ok k (same ∙ stored) (quiet ∙ same ∙ stored)
        (ground (arith, soon)) in
    let replayed = held ∙ ap (λ a. on_acquired again tool (a, others s'.keys) s') settled in
    (
      answered,
      written,
      ap (λ p. p.0) replayed,
      ap (λ p. p.1.tables) replayed,
      ap (λ p. p.1.keys) replayed,
    )

-- A call of an idempotent tool on a free key, whose handler raises, answers with the error's code and
-- leaves the tables and the rows of the keys as they were, so that the same key is free for another
-- call, provided that the claim's release holds and that its id was new.
pub failed_call_frees_key :
    {W : Type 0} (req : Request) (tool : Tool W) (key : String) (exc : ToolError) (s : Server W)
    → Admitted req tool
    → extract_idempotency_key req.arguments ≡ some key
    → req.can_release ≡ true
    → FreshId s.keys
    → get_by_key (keyed req tool key) s.keys ≡ none
    → tool.handler req.arguments s.tables ≡ raised exc
    → ((run_tool req tool s).0 ≡ rpc_error (error_code exc))
      × ((run_tool req tool s).1.tables ≡ s.tables)
      × ((run_tool req tool s).1.keys.rows ≡ s.keys.rows)
      × (get_by_key (keyed req tool key) (run_tool req tool s).1.keys ≡ none)
unfolding on_acquired execute settle_handled release_claim audit_row get_by_key
failed_call_frees_key req tool key exc s ok k can fresh free raises =
    rw (run_tool-keyed req tool s key ok k) (
      rw
        (acquire-free req.now req.others req.others' req.hash (some idempotency_ttl)
          (keyed req tool key) s.keys free)
        (rw raises (
          rw can (
            rw
              (release-claimed req.now req.hash (deadline req.now (some idempotency_ttl))
                (keyed req tool key) s.keys fresh)
              (refl, refl, refl, free)))))

-- A key that a live row holds for other arguments, or for another tool, refuses a call with a tool
-- error: the handler does not run, and no table changes but the audit's.
pub reused_key_refuses :
    {W : Type 0} (req : Request) (tool : Tool W) (key : String) (holder : IdempotencyRecord)
    (s : Server W)
    → Admitted req tool
    → extract_idempotency_key req.arguments ≡ some key
    → get_by_key (keyed req tool key) s.keys ≡ some holder
    → get_by_key (keyed req tool key) (req.others s.keys) ≡ some holder
    → is_expired req.now holder ≡ false
    → (str_eq holder.arguments_hash (req.hash req.arguments) && str_eq holder.tool_name tool.name)
      ≡ false
    → ((run_tool req tool s).0 ≡ rpc_error tool_error)
      × ((run_tool req tool s).1.tables ≡ s.tables)
      × ((run_tool req tool s).1.keys ≡ req.others s.keys)
unfolding on_acquired audit_row
reused_key_refuses req tool key holder s ok k h h' live other =
    rw (held_call req tool s key holder ok k h h' live)
      (rw (holder_answer-other req.hash (keyed req tool key) holder other) (refl, refl, refl))

-- A call whose handler returns but whose claim cannot be completed answers with the output and leaves
-- the key held: the same request again, within a day of the first one's start and with its row of the
-- key untouched, is refused with a tool error and runs nothing.
pub uncompleted_call_holds_key :
    {W : Type 0} (req : Request) (tool : Tool W) (key : String) (output : Payload) (tables : W)
    (s s' : Server W) (later : ℕ) (others : KeyTable → KeyTable)
    → Admitted req tool
    → extract_idempotency_key req.arguments ≡ some key
    → req.can_complete ≡ false
    → get_by_key (keyed req tool key) s.keys ≡ none
    → tool.handler req.arguments s.tables ≡ returned output tables
    → later ≤ req.now + 86400
    → get_by_key (keyed req tool key) s'.keys
      ≡ get_by_key (keyed req tool key) (run_tool req tool s).1.keys
    → get_by_key (keyed req tool key) (others s'.keys) ≡ get_by_key (keyed req tool key) s'.keys
    → ((run_tool req tool s).0 ≡ rpc_ok output)
      × ((run_tool (record req { now = later; others = others }) tool s').0 ≡ rpc_error tool_error)
      × ((run_tool (record req { now = later; others = others }) tool s').1.tables ≡ s'.tables)
unfolding on_acquired execute settle_handled complete_held audit_row key_row
uncompleted_call_holds_key req tool key output tables s s' later others ok k can free ran soon same
      quiet =
    let again : Request = record req { now = later; others = others } in
    let until = deadline req.now (some idempotency_ttl) in
    let row = key_row req.now req.hash until (keyed req tool key) s.keys.next_id in
    let first = uncompleted_call req tool s key output tables ok k can free ran in
    let held =
      held_call again tool s' key row ok k (same ∙ first.1) (quiet ∙ same ∙ first.1)
        (ground (arith, soon)) in
    let refused =
      held
      ∙ ap (λ a. on_acquired again tool (a, others s'.keys) s')
          (holder_answer-unsettled req.hash (keyed req tool key) req.now s.keys.next_id until) in
    (first.0, ap (λ p. p.0) refused, ap (λ p. p.1.tables) refused)
