-- ===== src/Idempotency.antt =====
-- services/idempotency.py and repositories/idempotency.py: the keys of a service account's actions. A
-- key is claimed by an insert that its UNIQUE constraint lets one caller win. What other transactions
-- commit between an insert and the read after it enters as a function on the table, one for each of
-- the two attempts. The digest of the arguments is hashlib's, and enters as a function.
pub mod Keys
use incident_platform.Prelude.{
  ℕ, ◌+◌, Bool, true, false, not, ◌&&◌, Option, none, some, List, [], ◌∷◌, ◌++◌, String, str_eq,
  ◌==◌, ltb, if◌then◌else◌, select, count_where,
}
use incident_platform.Store.{Payload}
use incident_platform.Store.Table.{find_where, update_where}

-- A row of `idempotency_records`.
pub record IdempotencyRecord : Type 0 where
  pub id : ℕ
  pub tenant_id : ℕ
  pub principal_id : ℕ
  pub tool_name : String
  pub idempotency_key : String
  pub arguments_hash : String
  pub response_json : Option Payload
  pub created_at : ℕ
  pub expires_at : Option ℕ

-- The table, and the next draw of `uuid4`.
pub record KeyTable : Type 0 where
  pub rows : List IdempotencyRecord
  pub next_id : ℕ

-- The arguments of a call that names a key.
pub record KeyedCall : Type 0 where
  pub tenant_id : ℕ
  pub principal_id : ℕ
  pub tool_name : String
  pub idempotency_key : String
  pub arguments : Payload

abbrev pub in_scope : KeyedCall → IdempotencyRecord → Bool
in_scope call r =
    r.tenant_id == call.tenant_id
    && r.principal_id == call.principal_id
    && str_eq r.idempotency_key call.idempotency_key

abbrev pub has_key_id : ℕ → IdempotencyRecord → Bool
has_key_id id r = r.id == id

unfoldable pub get_by_key : KeyedCall → KeyTable → Option IdempotencyRecord
get_by_key call keys = find_where (in_scope call) keys.rows

-- The row that `insert_claim` writes, and the INSERT … ON CONFLICT DO NOTHING RETURNING id.
unfoldable pub key_row : ℕ → (Payload → String) → Option ℕ → KeyedCall → ℕ → IdempotencyRecord
key_row now hash expires_at call id = record {
  id = id;
  tenant_id = call.tenant_id;
  principal_id = call.principal_id;
  tool_name = call.tool_name;
  idempotency_key = call.idempotency_key;
  arguments_hash = hash call.arguments;
  response_json = none;
  created_at = now;
  expires_at = expires_at;
}

insert_unless :
    ℕ
    → (Payload → String)
    → Option ℕ
    → KeyedCall
    → Option IdempotencyRecord
    → KeyTable
    → Option ℕ × KeyTable
unfolding key_row
insert_unless now hash expires_at call (some holder) keys = (none, keys)
insert_unless now hash expires_at call none keys = (
  some keys.next_id,
  record {
    rows = keys.rows ++ key_row now hash expires_at call keys.next_id ∷ [];
    next_id = keys.next_id + 1;
  },
)

unfoldable pub insert_claim :
    ℕ → (Payload → String) → Option ℕ → KeyedCall → KeyTable → Option ℕ × KeyTable
unfolding get_by_key insert_unless
insert_claim now hash expires_at call keys =
    insert_unless now hash expires_at call (get_by_key call keys) keys

unfoldable pub complete_claim : ℕ → Payload → Option ℕ → KeyTable → KeyTable
complete_claim id response expires_at keys = record keys {
  rows =
      update_where (has_key_id id)
        (λ r. record r { response_json = some response; expires_at = expires_at }) keys.rows;
}

unfoldable pub delete_by_id : ℕ → KeyTable → KeyTable
delete_by_id id keys = record keys { rows = select (λ r. not (has_key_id id r)) keys.rows }

-- `delete_expired`: the rows deleted, and the table.
abbrev passed : ℕ → Option ℕ → Bool
passed now none = false
passed now (some t) = ltb t now

-- `_is_expired`.
abbrev pub is_expired : ℕ → IdempotencyRecord → Bool
is_expired now r = passed now r.expires_at

unfoldable pub delete_expired : ℕ → KeyTable → ℕ × KeyTable
delete_expired now keys = (
  count_where (is_expired now) keys.rows,
  record keys { rows = select (λ r. not (is_expired now r)) keys.rows },
)

-- How `acquire` ends: a `Claim`, a `Replay` with its stored answer, or one of the two refusals.
pub data Acquired : Type 0 where
  claim : (record_id : ℕ) → Acquired
  replay : (response : Payload) (stored_at : ℕ) → Acquired
  key_reused key_in_flight : Acquired

unfoldable pub stored_answer : Option Payload → ℕ → Acquired
stored_answer none stored_at = key_in_flight
stored_answer (some response) stored_at = replay response stored_at

-- `_assert_same_call`, and the answer of a holder that passes it.
unfoldable pub holder_answer : (Payload → String) → KeyedCall → IdempotencyRecord → Acquired
unfolding stored_answer
holder_answer hash call holder =
    if not (str_eq holder.arguments_hash (hash call.arguments))
    then key_reused
    else if not (str_eq holder.tool_name call.tool_name)
    then key_reused
    else stored_answer holder.response_json holder.created_at

abbrev pub deadline : ℕ → Option ℕ → Option ℕ
deadline now none = none
deadline now (some ttl) = some (now + ttl)

last_read :
    (Payload → String) → KeyedCall → Option IdempotencyRecord → KeyTable → Acquired × KeyTable
unfolding holder_answer
last_read hash call none keys = (key_in_flight, keys)
last_read hash call (some holder) keys = (holder_answer hash call holder, keys)

last_insert :
    (KeyTable → KeyTable)
    → (Payload → String)
    → KeyedCall
    → Option ℕ × KeyTable
    → Acquired × KeyTable
unfolding last_read get_by_key
last_insert others hash call (some id, keys) = (claim id, keys)
last_insert others hash call (none, keys) =
    last_read hash call (get_by_key call (others keys)) (others keys)

-- The second turn of the loop.
unfoldable pub last_attempt :
    ℕ
    → (KeyTable → KeyTable)
    → (Payload → String)
    → Option ℕ
    → KeyedCall
    → KeyTable
    → Acquired × KeyTable
unfolding last_insert insert_claim
last_attempt now others hash expires_at call keys =
    last_insert others hash call (insert_claim now hash expires_at call keys)

first_read :
    ℕ
    → (KeyTable → KeyTable)
    → (Payload → String)
    → Option ℕ
    → KeyedCall
    → Option IdempotencyRecord
    → KeyTable
    → Acquired × KeyTable
unfolding last_attempt holder_answer delete_by_id
first_read now others hash expires_at call none keys =
    last_attempt now others hash expires_at call keys
first_read now others hash expires_at call (some holder) keys =
    if is_expired now holder
    then last_attempt now others hash expires_at call (delete_by_id holder.id keys)
    else (holder_answer hash call holder, keys)

first_insert :
    ℕ
    → (KeyTable → KeyTable)
    → (KeyTable → KeyTable)
    → (Payload → String)
    → Option ℕ
    → KeyedCall
    → Option ℕ × KeyTable
    → Acquired × KeyTable
unfolding first_read get_by_key
first_insert now others others' hash expires_at call (some id, keys) = (claim id, keys)
first_insert now others others' hash expires_at call (none, keys) =
    first_read now others' hash expires_at call (get_by_key call (others keys)) (others keys)

unfoldable pub acquire :
    ℕ
    → (KeyTable → KeyTable)
    → (KeyTable → KeyTable)
    → (Payload → String)
    → Option ℕ
    → KeyedCall
    → KeyTable
    → Acquired × KeyTable
unfolding first_insert insert_claim
acquire now others others' hash ttl call keys =
    first_insert now others others' hash (deadline now ttl) call
      (insert_claim now hash (deadline now ttl) call keys)

-- `complete` and `release`.
unfoldable pub complete : ℕ → ℕ → Payload → Option ℕ → KeyTable → KeyTable
unfolding complete_claim
complete now id response ttl keys = complete_claim id response (deadline now ttl) keys

unfoldable pub release : ℕ → KeyTable → KeyTable
unfolding delete_by_id
release id keys = delete_by_id id keys

-- `lookup`: what it finds, and the table, from which it evicts an expired row.
look_at :
    ℕ
    → (Payload → String)
    → KeyedCall
    → Option IdempotencyRecord
    → KeyTable
    → Option Acquired × KeyTable
unfolding holder_answer delete_by_id
look_at now hash call none keys = (none, keys)
look_at now hash call (some holder) keys =
    if is_expired now holder
    then (none, delete_by_id holder.id keys)
    else (some (holder_answer hash call holder), keys)

unfoldable pub lookup : ℕ → (Payload → String) → KeyedCall → KeyTable → Option Acquired × KeyTable
unfolding look_at get_by_key
lookup now hash call keys = look_at now hash call (get_by_key call keys) keys
