-- ===== src/Breaker.antt =====
-- core/circuit_breaker.py: one `CircuitBreaker`. `mono` is a reading of the monotonic clock and
-- `wall` one of the wall clock, in seconds. `_honour_reset` and the two halves of `call`, before and
-- after the protected function, are operations of their own: each runs under the lock, and another
-- task may run between two of them. `signal` is what `read_breaker_reset_at` answers, and a failure
-- is the class that `classify_failure` gives it; a record that is published is a value.
pub mod Tripping
pub mod Interleaved
use incident_platform.Prelude.{
  ℕ, ◌+◌, ◌-◌, Bool, true, false, not, ◌&&◌, ◌||◌, Option, none, some, String, ◌==◌, ltb, leb,
  if◌then◌else◌, is_none, is_some,
}

pub data CircuitState : Type 0 where
  circuit_closed circuit_open circuit_half_open : CircuitState

abbrev pub same_state : CircuitState → CircuitState → Bool
same_state circuit_closed circuit_closed = true
same_state circuit_open circuit_open = true
same_state circuit_half_open circuit_half_open = true
same_state _ _ = false

pub record Breaker : Type 0 where
  pub failure_threshold : ℕ
  pub recovery_timeout : ℕ
  pub state : CircuitState
  pub failure_count : ℕ
  pub opened_at : Option ℕ
  pub probe_in_flight : Bool
  pub last_state_change_at : Option ℕ
  pub last_failure_at : Option ℕ
  pub last_failure_reason_class : Option String
  pub recorded_at : Option ℕ
  pub observed_reset_at : Option ℕ

-- `__init__`.
unfoldable pub new_breaker : ℕ → ℕ → Breaker
new_breaker failure_threshold recovery_timeout = record {
  failure_threshold = failure_threshold;
  recovery_timeout = recovery_timeout;
  state = circuit_closed;
  failure_count = 0;
  opened_at = none;
  probe_in_flight = false;
  last_state_change_at = none;
  last_failure_at = none;
  last_failure_reason_class = none;
  recorded_at = none;
  observed_reset_at = none;
}

unfoldable pub set_state : ℕ → CircuitState → Breaker → Breaker
set_state wall state b =
    if same_state state b.state
    then b
    else record b { state = state; last_state_change_at = some wall }

-- `self._last_failure_at is not None and self._last_failure_at > signal`.
abbrev pub failed_after : ℕ → Option ℕ → Bool
failed_after signal none = false
failed_after signal (some t) = ltb signal t

abbrev pub same_time : Option ℕ → ℕ → Bool
same_time none t = false
same_time (some s) t = s == t

abbrev already_clean : Breaker → Bool
already_clean b =
    same_state b.state circuit_closed
    && b.failure_count == 0
    && is_none b.last_state_change_at
    && is_none b.last_failure_at

unfoldable pub forget : Breaker → Breaker
forget b = record b {
  state = circuit_closed;
  failure_count = 0;
  opened_at = none;
  probe_in_flight = false;
  last_state_change_at = none;
  last_failure_at = none;
  last_failure_reason_class = none;
}

-- `_honour_reset`: whether anything was cleared.
unfoldable pub honour_reset : Option ℕ → Breaker → Bool × Breaker
unfolding forget
honour_reset none b = (false, b)
honour_reset (some signal) b =
    let adopted = record b { observed_reset_at = some signal } in
    if same_time b.observed_reset_at signal
    then (false, b)
    else if failed_after signal b.last_failure_at
    then (false, adopted)
    else (not (already_clean b), forget adopted)

abbrev pub refresh_interval_seconds : ℕ
refresh_interval_seconds = 60

abbrev pub recorded_lately : ℕ → Option ℕ → Bool
recorded_lately mono none = false
recorded_lately mono (some t) = ltb mono (t + refresh_interval_seconds)

-- `_record`: the breaker as it is published, where it is not throttled, and the breaker after.
unfoldable pub record_state : Bool → ℕ → Option ℕ → Breaker → Option Breaker × Breaker
unfolding honour_reset
record_state changed mono signal b =
    if not changed && recorded_lately mono b.recorded_at
    then (none, b)
    else let b' = record (honour_reset signal b).1 { recorded_at = some mono } in (some b', b')

-- What `call` decides before the protected function runs.
pub data Entry : Type 0 where
  rejected : Entry
  admitted : (is_probe : Bool) → Entry

-- `self._opened_at or 0`.
abbrev pub opened_or_zero : Option ℕ → ℕ
opened_or_zero none = 0
opened_or_zero (some t) = t

admit_at : ℕ → ℕ → CircuitState → Breaker → Entry × Breaker
unfolding set_state
admit_at mono wall circuit_closed b = (admitted false, b)
admit_at mono wall circuit_half_open b = (rejected, b)
admit_at mono wall circuit_open b =
    if leb (opened_or_zero b.opened_at + b.recovery_timeout) mono
    then (admitted true, record (set_state wall circuit_half_open b) { probe_in_flight = true })
    else (rejected, b)

-- The lock's section of `call`.
unfoldable pub admit : ℕ → ℕ → Breaker → Entry × Breaker
unfolding admit_at
admit mono wall b = admit_at mono wall b.state b

record_probe : ℕ → Option ℕ → Entry × Breaker → Entry × Breaker
unfolding record_state
record_probe mono signal (rejected, b) = (rejected, b)
record_probe mono signal (admitted false, b) = (admitted false, b)
record_probe mono signal (admitted true, b) = (admitted true, (record_state true mono signal b).1)

-- The first half of `call`, with the two reads of the signal.
unfoldable pub enter : ℕ → ℕ → Option ℕ → Option ℕ → Breaker → Entry × Breaker
unfolding admit honour_reset record_probe
enter mono wall signal signal' b =
    let asked = if same_state b.state circuit_closed then b else (honour_reset signal b).1 in
    record_probe mono signal' (admit mono wall asked)

-- `_on_success` and `_on_failure`, up to the publication.
unfoldable pub on_success : ℕ → Breaker → Breaker
unfolding set_state
on_success wall b = record (set_state wall circuit_closed b) {
  failure_count = 0;
  opened_at = none;
  probe_in_flight = false;
}

unfoldable pub on_failure : ℕ → ℕ → String → Breaker → Breaker
unfolding set_state
on_failure mono wall reason b =
    let counted = record b {
      probe_in_flight = false;
      failure_count = b.failure_count + 1;
      last_failure_at = some wall;
      last_failure_reason_class = some reason;
    } in
    if same_state b.state circuit_half_open || leb b.failure_threshold (b.failure_count + 1)
    then record (set_state wall circuit_open counted) { opened_at = some mono }
    else counted

-- A nested breaker refused the probe: its upstream was not reached.
unfoldable pub undo_probe : ℕ → Breaker → Breaker
unfolding set_state
undo_probe wall b = set_state wall circuit_open (record b { probe_in_flight = false })

-- How the protected function ends. A cancellation is no `Exception`, and no clause handles it.
pub data Ending : Type 0 where
  returned nested_open cancelled : Ending
  raised : (reason_class : String) → Ending

-- The second half of `call`, up to the publication.
unfoldable pub leave : ℕ → ℕ → Bool → Ending → Breaker → Breaker
unfolding on_success on_failure undo_probe
leave mono wall is_probe returned b = on_success wall b
leave mono wall is_probe (raised reason) b = on_failure mono wall reason b
leave mono wall true nested_open b = undo_probe wall b
leave mono wall false nested_open b = b
leave mono wall is_probe cancelled b = b

-- Whether the second half publishes, and as a change.
abbrev publishes : Bool → Ending → Breaker → Breaker → Option Bool
publishes is_probe returned was b = some (not (same_state was.state circuit_closed))
publishes is_probe (raised reason) was b = some (not (same_state was.state b.state))
publishes true nested_open was b = some true
publishes false nested_open was b = none
publishes is_probe cancelled was b = none

record_if : Option Bool → ℕ → Option ℕ → Breaker → Breaker
unfolding record_state
record_if none mono signal b = b
record_if (some changed) mono signal b = (record_state changed mono signal b).1

-- The second half of `call`.
unfoldable pub finish : ℕ → ℕ → Option ℕ → Bool → Ending → Breaker → Breaker
unfolding leave record_if
finish mono wall signal is_probe ending b =
    let b' = leave mono wall is_probe ending b in
    record_if (publishes is_probe ending b b') mono signal b'
