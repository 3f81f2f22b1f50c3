-- ===== src/Idempotency/Keys.antt =====
-- What a key of the table answers: claimed where it is free, found again after its claim is settled,
-- and answered by its holder while it has not expired.
use incident_platform.Prelude.{
  ℕ, ◌+◌, ◌≡◌, refl, ap, Bool, true, false, not, ◌&&◌, Option, none, some, List, [], ◌∷◌, ◌++◌,
  String, str_eq, str_eq_iff, inl, inr, arith, All, Bool-cases, ==_refl, select,
}
use incident_platform.Store.{Payload}
use incident_platform.Store.Table.{find_where, update_where}
use incident_platform.Idempotency.{
  delete_by_id, IdempotencyRecord, KeyTable, KeyedCall, in_scope, has_key_id, get_by_key, key_row,
  insert_claim, complete_claim, claim, replay, key_reused, key_in_flight, stored_answer, is_expired,
  holder_answer, deadline, acquire, complete, release,
}

-- The row that `complete_claim` leaves of a claim.
abbrev pub completed_row : Payload → Option ℕ → IdempotencyRecord → IdempotencyRecord
completed_row response expires_at r = record r {
  response_json = some response;
  expires_at = expires_at;
}

-- The next draw of `uuid4` is the id of no row.
abbrev pub FreshId : KeyTable → Type 0
FreshId keys = All (λ r. has_key_id keys.next_id r ≡ false) keys.rows

pub str_eq_refl : (s : String) → str_eq s s ≡ true
str_eq_refl s = (str_eq_iff s s).1 refl

in_scope-key_row :
    (now : ℕ) (hash : Payload → String) (expires_at : Option ℕ) (call : KeyedCall) (id : ℕ)
    → in_scope call (key_row now hash expires_at call id) ≡ true
unfolding key_row
in_scope-key_row now hash expires_at call id =
    rw (==_refl call.tenant_id) (rw (==_refl call.principal_id) (str_eq_refl call.idempotency_key))

module _ (now : ℕ) (others others' : KeyTable → KeyTable) (hash : Payload → String) (ttl : Option ℕ)
    (call : KeyedCall) (keys : KeyTable) where
  pub acquire-free :
      get_by_key call keys ≡ none
      → acquire now others others' hash ttl call keys ≡ (
        claim keys.next_id,
        record {
          rows = keys.rows ++ key_row now hash (deadline now ttl) call keys.next_id ∷ [];
          next_id = keys.next_id + 1;
        },
      )
  unfolding acquire insert_claim
  acquire-free h = rw h refl

  pub acquire-held :
      (holder : IdempotencyRecord)
      → get_by_key call keys ≡ some holder
      → get_by_key call (others keys) ≡ some holder
      → is_expired now holder ≡ false
      → acquire now others others' hash ttl call keys
        ≡ (holder_answer hash call holder, others keys)
  unfolding acquire insert_claim
  acquire-held holder h h' live = rw h (rw h' (rw live refl))

some_eq_none : (r : IdempotencyRecord) → some r ≡ none → ⊥
some_eq_none r h = grind arith

passes_over :
    (q : IdempotencyRecord → Bool) (r : IdempotencyRecord) (rows : List IdempotencyRecord)
    → find_where q (r ∷ rows) ≡ none
    → (q r ≡ false) × (find_where q rows ≡ none)
passes_over q r rows h = elim (Bool-cases (q r)) [
  | inl t ↦ absurd (some_eq_none r (rw t at h))
  | inr t ↦ (t, rw t at h)
]

found-settled :
    (now id : ℕ) (hash : Payload → String) (expires_at expires_at' : Option ℕ) (call : KeyedCall)
    (response : Payload) (rows : List IdempotencyRecord)
    → find_where (in_scope call) rows ≡ none
    → find_where (in_scope call) (
        update_where
          (has_key_id id)
          (completed_row response expires_at')
          (rows ++ key_row now hash expires_at call id ∷ []))
      ≡ some (completed_row response expires_at' (key_row now hash expires_at call id))
unfolding key_row
found-settled now id hash expires_at expires_at' call response [] h =
    rw (==_refl id) (rw (in_scope-key_row now hash expires_at call id) refl)
found-settled now id hash expires_at expires_at' call response (r ∷ rows) h =
    let (out, rest) = passes_over (in_scope call) r rows h in
    let settled = found-settled now id hash expires_at expires_at' call response rows rest in
    elim (Bool-cases (has_key_id id r)) [
      | inl t ↦ rw t (rw out settled)
      | inr t ↦ rw t (rw out settled)
    ]

released :
    (id : ℕ) (r : IdempotencyRecord) (rows : List IdempotencyRecord)
    → has_key_id id r ≡ true
    → All (λ x. has_key_id id x ≡ false) rows
    → select (λ x. not (has_key_id id x)) (rows ++ r ∷ []) ≡ rows
released id r [] t fresh = rw t refl
released id r (x ∷ rows) t fresh = rw fresh.0 (ap (λ l. x ∷ l) (released id r rows t fresh.1))

-- A claim that is settled answers its call with the response stored.
pub settled-found :
    (now finished_at : ℕ) (hash : Payload → String) (ttl : Option ℕ) (call : KeyedCall)
    (response : Payload) (keys : KeyTable)
    → get_by_key call keys ≡ none
    → get_by_key call (
        complete finished_at keys.next_id response ttl record {
          rows = keys.rows ++ key_row now hash (deadline now ttl) call keys.next_id ∷ [];
          next_id = keys.next_id + 1;
        })
      ≡ some (
          completed_row response
            (deadline finished_at ttl)
            (key_row now hash (deadline now ttl) call keys.next_id))
unfolding get_by_key complete complete_claim
settled-found now finished_at hash ttl call response keys h =
    found-settled now keys.next_id hash (deadline now ttl) (deadline finished_at ttl) call response
      keys.rows h

-- A claim that is released leaves the rows as they were before it.
pub release-claimed :
    (now : ℕ) (hash : Payload → String) (expires_at : Option ℕ) (call : KeyedCall) (keys : KeyTable)
    → FreshId keys
    → release keys.next_id record {
      rows = keys.rows ++ key_row now hash expires_at call keys.next_id ∷ [];
      next_id = keys.next_id + 1;
    }
      ≡ record { rows = keys.rows; next_id = keys.next_id + 1 }
unfolding release delete_by_id key_row
release-claimed now hash expires_at call keys fresh =
    ap (λ rows. record { rows = rows; next_id = keys.next_id + 1 })
      (released keys.next_id (key_row now hash expires_at call keys.next_id) keys.rows
        (==_refl keys.next_id) fresh)

-- The answer of a settled claim to its own call.
pub holder_answer-settled :
    (hash : Payload → String) (call : KeyedCall) (now id : ℕ) (response : Payload)
    (expires_at expires_at' : Option ℕ)
    → holder_answer hash call
        (completed_row response expires_at' (key_row now hash expires_at call id))
      ≡ replay response now
unfolding holder_answer key_row
holder_answer-settled hash call now id response expires_at expires_at' =
    rw (str_eq_refl (hash call.arguments)) (rw (str_eq_refl call.tool_name) refl)

-- The answer of a holder to a call that is not its own.
pub holder_answer-other :
    (hash : Payload → String) (call : KeyedCall) (holder : IdempotencyRecord)
    → (str_eq holder.arguments_hash (hash call.arguments) && str_eq holder.tool_name call.tool_name)
      ≡ false
    → holder_answer hash call holder ≡ key_reused
unfolding holder_answer
holder_answer-other hash call holder other =
    elim (Bool-cases (str_eq holder.arguments_hash (hash call.arguments))) [
      | inl t ↦ rw t (rw (rw t at other) refl)
      | inr t ↦ rw t refl
    ]

found-claimed :
    (call : KeyedCall) (row : IdempotencyRecord) (rows : List IdempotencyRecord)
    → in_scope call row ≡ true
    → find_where (in_scope call) rows ≡ none
    → find_where (in_scope call) (rows ++ row ∷ []) ≡ some row
found-claimed call row [] t h = rw t refl
found-claimed call row (r ∷ rows) t h =
    let (out, rest) = passes_over (in_scope call) r rows h in
    rw out (found-claimed call row rows t rest)

-- A claim that is neither settled nor released holds its key.
pub claimed-found :
    (now : ℕ) (hash : Payload → String) (expires_at : Option ℕ) (call : KeyedCall) (keys : KeyTable)
    → get_by_key call keys ≡ none
    → get_by_key call record {
      rows = keys.rows ++ key_row now hash expires_at call keys.next_id ∷ [];
      next_id = keys.next_id + 1;
    }
      ≡ some (key_row now hash expires_at call keys.next_id)
unfolding get_by_key
claimed-found now hash expires_at call keys h =
    found-claimed call (key_row now hash expires_at call keys.next_id) keys.rows
      (in_scope-key_row now hash expires_at call keys.next_id) h

-- The answer of an unsettled claim to its own call.
pub holder_answer-unsettled :
    (hash : Payload → String) (call : KeyedCall) (now id : ℕ) (expires_at : Option ℕ)
    → holder_answer hash call (key_row now hash expires_at call id) ≡ key_in_flight
unfolding holder_answer key_row stored_answer
holder_answer-unsettled hash call now id expires_at =
    rw (str_eq_refl (hash call.arguments)) (rw (str_eq_refl call.tool_name) refl)
