-- ===== src/ToolCall/Keyed.antt =====
-- What a key protects: a call of a tool that declares itself idempotent.
use incident_platform.Prelude.{◌≡◌, refl, true, false, none, some, String}
use incident_platform.Store.{Payload}
use incident_platform.Idempotency.{
  IdempotencyRecord, get_by_key, key_row, is_expired, holder_answer, deadline, acquire,
}
use incident_platform.Idempotency.Keys.{
  completed_row, acquire-free, acquire-held, settled-found, claimed-found,
}
use incident_platform.ToolCall.{
  Tool, Request, Server, returned, rpc_ok, has_scope, extract_idempotency_key, idempotency_ttl,
  keyed, run_tool, with_key, on_acquired, execute, settle_handled, complete_held, audit_row,
}

-- The request passes the checks that stand before the handler, and its tool asks for a key.
abbrev pub Admitted : {W : Type 0} → Request → Tool W → Type 0
Admitted req tool =
    (has_scope req tool.required_scope ≡ true)
    × (tool.accepts req.arguments ≡ true)
    × (tool.is_idempotent ≡ true)

module _ {W : Type 0} where
  pub run_tool-keyed :
      (req : Request) (tool : Tool W) (s : Server W) (key : String)
      → Admitted req tool
      → extract_idempotency_key req.arguments ≡ some key
      → run_tool req tool s
        ≡ on_acquired req tool
            (acquire req.now req.others req.others' req.hash
              (some idempotency_ttl)
              (keyed req tool key)
              s.keys)
            s
  unfolding run_tool with_key
  run_tool-keyed req tool s key (scoped, accepted, keys) k =
      rw scoped (rw accepted (rw keys (rw k refl)))

  -- A call on a free key whose handler returns.
  pub first_call :
      (req : Request) (tool : Tool W) (s : Server W) (key : String) (output : Payload) (tables : W)
      → Admitted req tool
      → extract_idempotency_key req.arguments ≡ some key
      → req.can_complete ≡ true
      → get_by_key (keyed req tool key) s.keys ≡ none
      → tool.handler req.arguments s.tables ≡ returned output tables
      → ((run_tool req tool s).0 ≡ rpc_ok output)
        × ((run_tool req tool s).1.tables ≡ tables)
        × (get_by_key (keyed req tool key) (run_tool req tool s).1.keys
            ≡ some (
                completed_row output (deadline req.finished_at (some idempotency_ttl)) (
                  key_row req.now req.hash
                    (deadline req.now (some idempotency_ttl))
                    (keyed req tool key)
                    s.keys.next_id)))
  unfolding on_acquired execute settle_handled complete_held audit_row
  first_call req tool s key output tables ok k can free ran =
      rw (run_tool-keyed req tool s key ok k) (
        rw
          (acquire-free req.now req.others req.others' req.hash (some idempotency_ttl)
            (keyed req tool key) s.keys free)
          (rw ran (
            rw can (
              refl,
              refl,
              settled-found req.now req.finished_at req.hash (some idempotency_ttl)
                  (keyed req tool key) output s.keys free,
            ))))

  -- One whose claim cannot be completed.
  pub uncompleted_call :
      (req : Request) (tool : Tool W) (s : Server W) (key : String) (output : Payload) (tables : W)
      → Admitted req tool
      → extract_idempotency_key req.arguments ≡ some key
      → req.can_complete ≡ false
      → get_by_key (keyed req tool key) s.keys ≡ none
      → tool.handler req.arguments s.tables ≡ returned output tables
      → ((run_tool req tool s).0 ≡ rpc_ok output)
        × (get_by_key (keyed req tool key) (run_tool req tool s).1.keys
            ≡ some (
                key_row req.now req.hash
                  (deadline req.now (some idempotency_ttl))
                  (keyed req tool key)
                  s.keys.next_id))
  unfolding on_acquired execute settle_handled complete_held audit_row
  uncompleted_call req tool s key output tables ok k can free ran =
      rw (run_tool-keyed req tool s key ok k) (
        rw
          (acquire-free req.now req.others req.others' req.hash (some idempotency_ttl)
            (keyed req tool key) s.keys free)
          (rw ran (
            rw can (
              refl,
              claimed-found req.now req.hash (deadline req.now (some idempotency_ttl))
                  (keyed req tool key) s.keys free,
            ))))

  -- A call on a key that a live row holds.
  pub held_call :
      (req : Request) (tool : Tool W) (s : Server W) (key : String) (holder : IdempotencyRecord)
      → Admitted req tool
      → extract_idempotency_key req.arguments ≡ some key
      → get_by_key (keyed req tool key) s.keys ≡ some holder
      → get_by_key (keyed req tool key) (req.others s.keys) ≡ some holder
      → is_expired req.now holder ≡ false
      → run_tool req tool s
        ≡ on_acquired req tool
            (holder_answer req.hash (keyed req tool key) holder, req.others s.keys)
            s
  held_call req tool s key holder ok k h h' live = rw (run_tool-keyed req tool s key ok k) (
      rw
        (acquire-held req.now req.others req.others' req.hash (some idempotency_ttl)
          (keyed req tool key) s.keys holder h h' live)
        refl)
