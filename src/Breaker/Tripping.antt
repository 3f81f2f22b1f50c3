-- ===== src/Breaker/Tripping.antt =====
-- When a breaker opens, whom an open one admits, and what a half-open one waits for.
use incident_platform.Prelude.{
  ℕ, ◌+◌, ◌≡◌, suc, subst, refl, ap, ◌∙◌, Bool, true, false, ◌||◌, none, some, List, [], ◌∷◌,
  String, arith, leb, inl, inr, if◌then◌else◌, Bool-cases, length, All,
}
use incident_platform.Breaker.{
  CircuitState, circuit_closed, circuit_open, circuit_half_open, same_state, Breaker, honour_reset,
  rejected, admitted, opened_or_zero, record_state, admit, admit_at, enter, record_probe, leave,
  finish, record_if, on_failure, cancelled,
}
use incident_platform.Breaker.Interleaved.{set_state-state}

-- Failures in a row, each with its readings of the clocks and its class.
abbrev pub fail_all : List (ℕ × ℕ × String) → Breaker → Breaker
fail_all [] b = b
fail_all ((mono, wall, reason) ∷ fs) b = fail_all fs (on_failure mono wall reason b)

abbrev counted : ℕ → String → Breaker → Breaker
counted wall reason b = record b {
  probe_in_flight = false;
  failure_count = b.failure_count + 1;
  last_failure_at = some wall;
  last_failure_reason_class = some reason;
}

module _ (mono wall : ℕ) (reason : String) (b : Breaker) where
  abbrev trips : Bool
  trips = same_state b.state circuit_half_open || leb b.failure_threshold (b.failure_count + 1)

  failed_opens : trips ≡ true → (on_failure mono wall reason b).state ≡ circuit_open
  unfolding on_failure
  failed_opens t = rw t (set_state-state wall circuit_open (counted wall reason b))

  failed_counts : trips ≡ false → on_failure mono wall reason b ≡ counted wall reason b
  unfolding on_failure
  failed_counts t = rw t refl

stays_open :
    (fs : List (ℕ × ℕ × String)) (b : Breaker)
    → b.state ≡ circuit_open
    → (fail_all fs b).state ≡ circuit_open
stays_open [] b e = e
stays_open ((mono, wall, reason) ∷ fs) b e =
    stays_open fs (on_failure mono wall reason b) (elim (Bool-cases (trips mono wall reason b)) [
      | inl t ↦ failed_opens mono wall reason b t
      | inr t ↦ rw (failed_counts mono wall reason b t) e
    ])

from_closed :
    (b : Breaker) (t : Bool)
    → b.state ≡ circuit_closed
    → leb b.failure_threshold (b.failure_count + 1) ≡ t
    → (same_state b.state circuit_half_open || leb b.failure_threshold (b.failure_count + 1)) ≡ t
from_closed b t e h = rw (e, h) refl

further : (a c n : ℕ) → leb a (c + 1) ≡ true → leb a (c + suc n) ≡ true
further a c n h = ground arith

shifted : (c n : ℕ) → c + 1 + n ≡ c + suc n
shifted c n = omega arith

-- A closed breaker is opened by as many failures in a row as take its count to the threshold, and by
-- no fewer.
pub failures_trip :
    (fs : List (ℕ × ℕ × String)) (b : Breaker)
    → b.state ≡ circuit_closed
    → leb b.failure_threshold b.failure_count ≡ false
    → (fail_all fs b).state ≡ (
        if leb b.failure_threshold (b.failure_count + length fs)
        then circuit_open
        else circuit_closed)
failures_trip [] b e under = ground (arith, e, under)
failures_trip ((mono, wall, reason) ∷ fs) b e under =
    elim (Bool-cases (leb b.failure_threshold (b.failure_count + 1))) [
      | inl t ↦ rw (further b.failure_threshold b.failure_count (length fs) t) (
          stays_open fs (on_failure mono wall reason b)
            (failed_opens mono wall reason b (from_closed b true e t)))
      | inr t ↦
          rw (failed_counts mono wall reason b (from_closed b false e t), fail_all)
            (subst
              (λ n.
                (fail_all fs (counted wall reason b)).state
                ≡ (if leb b.failure_threshold n then circuit_open else circuit_closed))
              (shifted b.failure_count (length fs)) (failures_trip fs (counted wall reason b) e t))
    ]

-- The arrivals of further calls, each with its readings of the clocks, none of which finds a reset.
abbrev pub AllRejected : List (ℕ × ℕ) → Breaker → Type 0
AllRejected arrivals b = All (λ (a : ℕ × ℕ). enter a.0 a.1 none none b ≡ (rejected, b)) arrivals

-- With no reset signalled, what a call meets is the lock's section, on the breaker as it is.
enter-quiet :
    (mono wall : ℕ) (b : Breaker)
    → enter mono wall none none b ≡ record_probe mono none (admit mono wall b)
unfolding enter honour_reset
enter-quiet mono wall b = elim (Bool-cases (same_state b.state circuit_closed)) [
  | inl t ↦ rw t refl
  | inr t ↦ rw t refl
]

enter-at :
    (mono wall : ℕ) (was : CircuitState) (b : Breaker)
    → b.state ≡ was
    → enter mono wall none none b ≡ record_probe mono none (admit_at mono wall was b)
unfolding admit
enter-at mono wall was b e =
    enter-quiet mono wall b ∙ ap (λ st. record_probe mono none (admit_at mono wall st b)) e

half_open_rejects :
    (arrivals : List (ℕ × ℕ)) (b : Breaker) → b.state ≡ circuit_half_open → AllRejected arrivals b
unfolding admit_at record_probe
half_open_rejects [] b e = tt
half_open_rejects (a ∷ arrivals) b e =
    (enter-at a.0 a.1 circuit_half_open b e, half_open_rejects arrivals b e)

module _ (mono wall : ℕ) (b : Breaker) (e : b.state ≡ circuit_open) where
  abbrev is_due : Bool
  is_due = leb (opened_or_zero b.opened_at + b.recovery_timeout) mono

  probe_enters :
      is_due ≡ true
      → ((enter mono wall none none b).0 ≡ admitted true)
        × ((enter mono wall none none b).1.state ≡ circuit_half_open)
  unfolding admit_at record_probe record_state honour_reset
  probe_enters due =
      rw (enter-at mono wall circuit_open b e)
        (rw due (refl, set_state-state wall circuit_half_open b))

  early_rejected : is_due ≡ false → enter mono wall none none b ≡ (rejected, b)
  unfolding admit_at record_probe
  early_rejected soon = rw (enter-at mono wall circuit_open b e) (rw soon refl)

-- An open breaker, with no reset signalled, rejects a call until its recovery timeout is over and is
-- left unchanged. The first call after that is the probe, and while the probe runs every call that
-- arrives is rejected and changes nothing.
pub open_admits_one_probe :
    (mono wall : ℕ) (arrivals : List (ℕ × ℕ)) (b : Breaker)
    → b.state ≡ circuit_open
    → (if leb (opened_or_zero b.opened_at + b.recovery_timeout) mono
        then ((enter mono wall none none b).0 ≡ admitted true)
          × AllRejected arrivals (enter mono wall none none b).1
        else (enter mono wall none none b ≡ (rejected, b)))
open_admits_one_probe mono wall arrivals b e = elim (Bool-cases (is_due mono wall b e)) [
  | inl due ↦
      let (admits, half) = probe_enters mono wall b e due in
      rw due (admits, half_open_rejects arrivals _ half)
  | inr soon ↦ rw soon (early_rejected mono wall b e soon)
]

-- A probe whose task is cancelled leaves the breaker half-open with no probe running: with no reset
-- signalled, every later call is rejected, however late it arrives.
pub cancelled_probe_strands :
    (mono wall mono' wall' : ℕ) (arrivals : List (ℕ × ℕ)) (b : Breaker)
    → b.state ≡ circuit_open
    → leb (opened_or_zero b.opened_at + b.recovery_timeout) mono ≡ true
    → AllRejected arrivals (finish mono' wall' none true cancelled (enter mono wall none none b).1)
unfolding finish leave record_if
cancelled_probe_strands mono wall mono' wall' arrivals b e due =
    half_open_rejects arrivals _ (probe_enters mono wall b e due).1
