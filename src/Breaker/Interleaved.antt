-- ===== src/Breaker/Interleaved.antt =====
-- A breaker under any interleaving of the calls that it protects, of the resets and of the failures.
use incident_platform.Prelude.{
  ℕ, ◌+◌, ◌≡◌, ◌<◌, not, String, refl, Bool, true, false, ◌&&◌, ◌||◌, Option, none, some, arith,
  leb, inl, inr, ◌∙◌, Bool-cases,
}
use incident_platform.Breaker.{
  CircuitState, circuit_closed, circuit_open, circuit_half_open, same_state, Breaker, new_breaker,
  set_state, honour_reset, forget, failed_after, same_time, recorded_lately, opened_or_zero,
  record_state, admit, admit_at, leave, on_success, on_failure, undo_probe, Ending, returned,
  raised, nested_open, cancelled,
}

-- One locked section of some task.
pub data Step : Breaker → Breaker → Type 0 where
  honours : {b : Breaker} (signal : Option ℕ) → Step b (honour_reset signal b).1
  admits : {b : Breaker} (mono wall : ℕ) → Step b (admit mono wall b).1
  records :
      {b : Breaker} (changed : Bool) (mono : ℕ) (signal : Option ℕ)
      → Step b (record_state changed mono signal b).1
  leaves :
      {b : Breaker} (mono wall : ℕ) (is_probe : Bool) (ending : Ending)
      → Step b (leave mono wall is_probe ending b)

pub data Reachable (failure_threshold recovery_timeout : ℕ) : Breaker → Type 0 where
  start :
      Reachable failure_threshold recovery_timeout (new_breaker failure_threshold recovery_timeout)
  next :
      {b b' : Breaker}
      → Reachable failure_threshold recovery_timeout b
      → Step b b'
      → Reachable failure_threshold recovery_timeout b'

-- A probe is in flight exactly in the half-open state, and a closed breaker is under its threshold
-- and remembers no opening.
pub record IsConsistent (b : Breaker) : Type 0 where
  pub threshold : 0 < b.failure_threshold
  pub probe : b.probe_in_flight ≡ same_state b.state circuit_half_open
  pub under : same_state b.state circuit_closed ≡ true → b.failure_count < b.failure_threshold
  pub unopened : same_state b.state circuit_closed ≡ true → b.opened_at ≡ none

same_state-eq : (a c : CircuitState) → same_state a c ≡ true → c ≡ a
same_state-eq a c h = ground arith

module _ (wall : ℕ) (st : CircuitState) (b : Breaker) where
  pub set_state-state : (set_state wall st b).state ≡ st
  unfolding set_state
  set_state-state = elim (Bool-cases (same_state st b.state)) [
    | inl t ↦ rw t (same_state-eq st b.state t)
    | inr t ↦ rw t refl
  ]

  set_state-threshold : (set_state wall st b).failure_threshold ≡ b.failure_threshold
  unfolding set_state
  set_state-threshold = ground arith

module _ (wall : ℕ) (st : CircuitState) (b : Breaker) where
  set_state-probe : (set_state wall st b).probe_in_flight ≡ b.probe_in_flight
  unfolding set_state
  set_state-probe = ground arith

honour-IsConsistent :
    (signal : Option ℕ) (b : Breaker) → IsConsistent b → IsConsistent (honour_reset signal b).1
unfolding honour_reset forget
honour-IsConsistent none b h = h
honour-IsConsistent (some signal) b h = elim (Bool-cases (same_time b.observed_reset_at signal)) [
  | inl s ↦ rw s h
  | inr s ↦ rw s (elim (Bool-cases (failed_after signal b.last_failure_at)) [
    | inl f ↦ rw f (record {
      threshold = h.threshold;
      probe = h.probe;
      under = h.under;
      unopened = h.unopened;
    })
    | inr f ↦ rw f (record {
      threshold = h.threshold;
      probe = refl;
      under = λ e. h.threshold;
      unopened = λ e. refl;
    })
  ])
]

true≢false : false ≡ true → ⊥
true≢false h = cc

-- An open breaker with no probe is consistent, whatever it counts.
opened-IsConsistent :
    (b : Breaker)
    → 0 < b.failure_threshold
    → b.state ≡ circuit_open
    → b.probe_in_flight ≡ false
    → IsConsistent b
opened-IsConsistent b t s p = record {
  threshold = t;
  probe = p ∙ rw s refl;
  under = λ e. absurd (true≢false (rw s at e));
  unopened = λ e. absurd (true≢false (rw s at e));
}

admit_at-IsConsistent :
    (mono wall : ℕ) (was : CircuitState) (b : Breaker)
    → IsConsistent b
    → IsConsistent (admit_at mono wall was b).1
unfolding admit_at
admit_at-IsConsistent mono wall circuit_closed b h = h
admit_at-IsConsistent mono wall circuit_half_open b h = h
admit_at-IsConsistent mono wall circuit_open b h =
    elim (Bool-cases (leb (opened_or_zero b.opened_at + b.recovery_timeout) mono)) [
      | inl due ↦ rw due (record {
        threshold = rw set_state-threshold h.threshold;
        probe = rw set_state-state refl;
        under = λ x. absurd (true≢false (rw set_state-state at x));
        unopened = λ x. absurd (true≢false (rw set_state-state at x));
      })
      | inr soon ↦ rw soon h
    ]

not_half_open :
    (b : Breaker)
    → (same_state b.state circuit_half_open || leb b.failure_threshold (b.failure_count + 1))
      ≡ false
    → (false ≡ same_state b.state circuit_half_open) × (b.failure_count + 1 < b.failure_threshold)
not_half_open b h = ground arith

failed-IsConsistent :
    (mono wall : ℕ) (reason : String) (b : Breaker)
    → IsConsistent b
    → IsConsistent (on_failure mono wall reason b)
unfolding on_failure
failed-IsConsistent mono wall reason b h =
    let counted : Breaker = record b {
      failure_count = b.failure_count + 1;
      probe_in_flight = false;
      last_failure_at = some wall;
      last_failure_reason_class = some reason;
    } in
    elim (Bool-cases
      (same_state b.state circuit_half_open || leb b.failure_threshold (b.failure_count + 1))) [
        | inl trips ↦ rw trips (
            opened-IsConsistent
              (record (set_state wall circuit_open counted) { opened_at = some mono })
              (rw set_state-threshold h.threshold) (set_state-state wall circuit_open counted)
              (set_state-probe wall circuit_open counted))
        | inr below ↦
            let (closed_or_open, under) = not_half_open b below in
            rw below (record {
              threshold = h.threshold;
              probe = closed_or_open;
              under = λ e. under;
              unopened = h.unopened;
            })
      ]

leave-IsConsistent :
    (mono wall : ℕ) (is_probe : Bool) (ending : Ending) (b : Breaker)
    → IsConsistent b
    → IsConsistent (leave mono wall is_probe ending b)
unfolding leave on_success undo_probe
leave-IsConsistent mono wall is_probe returned b h = record {
  threshold = rw set_state-threshold h.threshold;
  probe = rw set_state-state refl;
  under = λ e. rw set_state-threshold h.threshold;
  unopened = λ e. refl;
}
leave-IsConsistent mono wall is_probe (raised reason) b h = failed-IsConsistent mono wall reason b h
leave-IsConsistent mono wall true nested_open b h =
    let undone : Breaker = record b { probe_in_flight = false } in
    opened-IsConsistent (set_state wall circuit_open undone) (rw set_state-threshold h.threshold)
      (set_state-state wall circuit_open undone) (set_state-probe wall circuit_open undone)
leave-IsConsistent mono wall false nested_open b h = h
leave-IsConsistent mono wall is_probe cancelled b h = h

record_state-IsConsistent :
    (changed : Bool) (mono : ℕ) (signal : Option ℕ) (b : Breaker)
    → IsConsistent b
    → IsConsistent (record_state changed mono signal b).1
unfolding record_state
record_state-IsConsistent changed mono signal b h =
    elim (Bool-cases (not changed && recorded_lately mono b.recorded_at)) [
      | inl lately ↦ rw lately h
      | inr now ↦
          let k = honour-IsConsistent signal b h in
          rw now (record {
            threshold = k.threshold;
            probe = k.probe;
            under = k.under;
            unopened = k.unopened;
          })
    ]

Step-IsConsistent : {b b' : Breaker} → Step b b' → IsConsistent b → IsConsistent b'
unfolding admit
Step-IsConsistent (honours signal) h = honour-IsConsistent signal _ h
Step-IsConsistent (admits {b} mono wall) h = admit_at-IsConsistent mono wall b.state b h
Step-IsConsistent (records changed mono signal) h =
    record_state-IsConsistent changed mono signal _ h
Step-IsConsistent (leaves mono wall is_probe ending) h =
    leave-IsConsistent mono wall is_probe ending _ h

-- However the locked sections of concurrent calls, of resets and of publications follow one another,
-- a breaker whose threshold is at least one has its flag probe_in_flight set exactly while its state
-- is half-open, and, while it is closed, counts fewer failures than its threshold and remembers no
-- opening.
pub Reachable-IsConsistent :
    (failure_threshold recovery_timeout : ℕ) (b : Breaker)
    → 0 < failure_threshold
    → Reachable failure_threshold recovery_timeout b
    → IsConsistent b
unfolding new_breaker
Reachable-IsConsistent failure_threshold recovery_timeout b positive r = go r
  where
    go : {b : Breaker} → Reachable failure_threshold recovery_timeout b → IsConsistent b
    go start = record {
      threshold = positive;
      probe = refl;
      under = λ e. positive;
      unopened = λ e. refl;
    }
    go (next r s) = Step-IsConsistent s (go r)
