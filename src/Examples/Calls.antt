-- ===== src/Examples/Calls.antt =====
-- The theorems on a tool call, at a tool that adds to a counter and a server with no keys.
use incident_platform.Prelude.{ℕ, ◌+◌, ◌≡◌, refl, true, false, none, some, [], ◌∷◌, String, arith}
use incident_platform.Store.{json_text, json_number, Payload}
use incident_platform.Idempotency.{IdempotencyRecord, get_by_key}
use incident_platform.ToolCall.{
  Tool, Request, Server, Handled, returned, raised, app_error, unlabelled, rpc_ok, rpc_error,
  tool_error, run_tool, run_tool_call, extract_idempotency_key, keyed,
}
use incident_platform.ToolCall.Repeats.{
  uncompleted_call_holds_key, tool_call_replays, failed_call_frees_key,
}
use incident_platform.ToolCall.Audited.{Audited, run_tool_call-Audited}

abbrev arguments : Payload
arguments = ("amount", json_number 3) ∷ ("idempotency_key", json_text "k-1") ∷ []

abbrev adds : Payload → ℕ → Handled ℕ
adds p n = returned (("total", json_number (n + 3)) ∷ []) (n + 3)

abbrev fails : Payload → ℕ → Handled ℕ
fails p n = raised app_error

abbrev tool : (Payload → ℕ → Handled ℕ) → Tool ℕ
tool handler = record {
  name = "add";
  required_scope = some "mcp:write";
  is_idempotent = true;
  is_chaos = false;
  is_commander = false;
  accepts = λ p. true;
  handler = handler;
}

abbrev request : (Payload → String) → Request
request hash = record {
  now = 100;
  finished_at = 101;
  principal = record { tenant_id = 100; id = 9; scopes = "mcp:write" ∷ [] };
  lab = unlabelled;
  tool_name = "add";
  arguments = arguments;
  others = λ keys. keys;
  others' = λ keys. keys;
  hash = hash;
  can_complete = true;
  can_release = true;
}

abbrev req : Request
req = request (λ p. "digest")

abbrev server : Server ℕ
server = record { keys = record { rows = []; next_id = 1 }; audit = []; tables = 40 }

abbrev after : Server ℕ
after = (run_tool req (tool adds) server).1

tool_call_replays_example :
    ((run_tool req (tool adds) server).0 ≡ rpc_ok (("total", json_number 43) ∷ []))
    × ((run_tool req (tool adds) server).1.tables ≡ 43)
    × ((run_tool (record req { now = 500; others = λ keys. keys }) (tool adds) after).0
        ≡ rpc_ok (("total", json_number 43) ∷ []))
    × ((run_tool (record req { now = 500; others = λ keys. keys }) (tool adds) after).1.tables
        ≡ after.tables)
    × ((run_tool (record req { now = 500; others = λ keys. keys }) (tool adds) after).1.keys
        ≡ after.keys)
unfolding extract_idempotency_key get_by_key
tool_call_replays_example =
    tool_call_replays req (tool adds) "k-1" (("total", json_number 43) ∷ []) 43 server after 500
      (λ keys. keys) (refl, refl, refl) refl refl refl refl (omega arith) refl refl

failed_call_frees_key_example :
    ((run_tool req (tool fails) server).0 ≡ rpc_error tool_error)
    × ((run_tool req (tool fails) server).1.tables ≡ 40)
    × ((run_tool req (tool fails) server).1.keys.rows ≡ [])
    × (get_by_key (keyed req (tool fails) "k-1") (run_tool req (tool fails) server).1.keys ≡ none)
unfolding extract_idempotency_key get_by_key
failed_call_frees_key_example =
    failed_call_frees_key req (tool fails) "k-1" app_error server (refl, refl, refl) refl refl tt
      refl refl

abbrev holder : IdempotencyRecord
holder = record {
  id = 4;
  tenant_id = 100;
  principal_id = 9;
  tool_name = "add";
  idempotency_key = "k-1";
  arguments_hash = "another digest";
  response_json = none;
  created_at = 90;
  expires_at = some 900;
}

abbrev held : Server ℕ
held = record server { keys = record { rows = holder ∷ []; next_id = 5 } }

run_tool_call-Audited_example :
    Audited req server (run_tool_call req (λ name. some (tool adds)) server)
run_tool_call-Audited_example = run_tool_call-Audited req (λ name. some (tool adds)) server

abbrev stuck : Request
stuck = record req { can_complete = false }

abbrev uncached : Server ℕ
uncached = (run_tool stuck (tool adds) server).1

uncompleted_call_holds_key_example :
    ((run_tool stuck (tool adds) server).0 ≡ rpc_ok (("total", json_number 43) ∷ []))
    × ((run_tool (record stuck { now = 500; others = λ keys. keys }) (tool adds) uncached).0
        ≡ rpc_error tool_error)
    × ((run_tool (record stuck { now = 500; others = λ keys. keys }) (tool adds) uncached).1.tables
        ≡ uncached.tables)
unfolding extract_idempotency_key get_by_key
uncompleted_call_holds_key_example =
    uncompleted_call_holds_key stuck (tool adds) "k-1" (("total", json_number 43) ∷ []) 43 server
      uncached 500 (λ keys. keys) (refl, refl, refl) refl refl refl refl (omega arith) refl refl
