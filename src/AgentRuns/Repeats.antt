-- ===== src/AgentRuns/Repeats.antt =====
-- A report that is sent again: what the second one changes.
use incident_platform.Prelude.{
  drop, ℕ, suc, zero, ◌-◌, ◌≤◌, ◌≡◌, refl, sym, ap, ◌∙◌, Bool, true, false, Option, none, some,
  List, [], ◌∷◌, ◌++◌, str_eq, str_eq_iff, ==_refl, ltb, length, length-append, any, arith,
  Bool-cases, inl, inr, subst,
}
use incident_platform.AgentRuns.{
  with_reading, with_end, Step, AgentRun, Report, steps_cap, is_terminal, capped, same_seq, filled,
  or_else, has_seq, append_step, with_phase, with_verification, with_step, update_run,
}
use incident_platform.Idempotency.Keys.{str_eq_refl}

any-drop {ℓ} :
    {A : Type ℓ} (p : A → Bool) (n : ℕ) (xs : List A) (x : A)
    → p x ≡ true
    → n ≤ length xs
    → any p (drop n (xs ++ x ∷ [])) ≡ true
any-drop p zero [] x h le = rw h refl
any-drop p zero (y ∷ ys) x h le = ground (arith, any-drop p zero ys x h)
any-drop p (suc n) [] x h le = absurd (omega (arith, le))
any-drop p (suc n) (y ∷ ys) x h le = any-drop p n ys x h (omega (arith, le))

any-capped {ℓ} :
    {A : Type ℓ} (p : A → Bool) (cap : ℕ) (xs : List A) (x : A)
    → p x ≡ true
    → 1 ≤ cap
    → any p (capped (xs ++ x ∷ []) cap) ≡ true
unfolding capped
any-capped p cap xs x h le = elim (Bool-cases (ltb cap (length (xs ++ x ∷ [])))) [
  | inl l ↦
      rw l
        (any-drop p (length (xs ++ x ∷ []) - cap) xs x h (omega (arith, length-append xs (x ∷ []))))
  | inr l ↦ rw l (any-drop p zero xs x h (omega arith))
]

filled-twice {ℓ} : {A : Type ℓ} (new old : Option A) → filled new (filled new old) ≡ filled new old
filled-twice none old = refl
filled-twice (some a) old = refl

or_else-twice {ℓ} :
    {A : Type ℓ} (new : Option A) (old : A) → or_else new (or_else new old) ≡ or_else new old
or_else-twice none old = refl
or_else-twice (some a) old = refl

module _ {J : Type 0} where
  appended-has_seq :
      (seq : ℕ) (steps : List (Step J)) (step : Step J)
      → step.seq ≡ some seq
      → has_seq step.seq (append_step steps step).0 ≡ true
  unfolding append_step
  appended-has_seq seq steps step h = elim (Bool-cases (has_seq step.seq steps)) [
    | inl e ↦ rw e e
    | inr e ↦ rw e (
        ap (λ q. has_seq q (capped (steps ++ step ∷ []) steps_cap)) h
        ∙ any-capped (λ (s : Step J). same_seq seq s.seq) steps_cap steps step
            (ap (same_seq seq) h ∙ ==_refl seq) (omega arith))
  ]

  -- A step that the ledger holds, and one that it can tell from others.
  abbrev InLedger : Option (Step J) → List (Step J) → Type 0
  InLedger none steps = Unit
  InLedger (some step) steps = has_seq step.seq steps ≡ true

  abbrev pub IsNumbered : Option (Step J) → Type 0
  IsNumbered none = Unit
  IsNumbered (some step) = (n : ℕ) × (step.seq ≡ some n)

  step-again :
      (o : Option (Step J)) (run : AgentRun J) → InLedger o run.steps → with_step o run ≡ run
  unfolding with_step append_step
  step-again none run h = refl
  step-again (some step) run h = rw h (ap (λ n. record run { steps_dropped = n }) (omega arith))

  step-InLedger :
      (o : Option (Step J)) (run : AgentRun J) → IsNumbered o → InLedger o (with_step o run).steps
  unfolding with_step
  step-InLedger none run h = tt
  step-InLedger (some step) run (n, h) = appended-has_seq n run.steps step h

  module _ (r : Report J) where
    -- A run that has what the report says.
    abbrev pub HasReading : AgentRun J → Type 0
    HasReading u =
        (u.state ≡ r.state)
        × (r.current_hypothesis ≡ u.current_hypothesis)
        × (r.last_step ≡ u.last_step)
        × (filled r.alert_id u.alert_id ≡ u.alert_id)
        × (filled r.scenario u.scenario ≡ u.scenario)
        × (or_else r.hypotheses u.hypotheses ≡ u.hypotheses)
        × (filled r.plan u.plan ≡ u.plan)
        × (filled r.budget u.budget ≡ u.budget)

    reading-again : (u : AgentRun J) → HasReading u → with_reading r u ≡ u
    unfolding with_reading
    reading-again u (s, ch, ls, a, sc, hs, p, b) = λ i. record u {
      current_hypothesis = ch i;
      last_step = ls i;
      alert_id = a i;
      scenario = sc i;
      hypotheses = hs i;
      plan = p i;
      budget = b i;
    }

    with_phase-again : (run : AgentRun J) → run.state ≡ r.state → with_phase r run ≡ run
    unfolding with_phase
    with_phase-again run h = rw (ap (λ s. str_eq s r.state) h ∙ str_eq_refl r.state) refl

    pub with_phase-state : (run : AgentRun J) → (with_phase r run).state ≡ r.state
    unfolding with_phase
    with_phase-state run = elim (Bool-cases (str_eq run.state r.state)) [
      | inl e ↦ rw e ((str_eq_iff run.state r.state).0 e)
      | inr e ↦ rw e refl
    ]

    verification-HasReading :
        (o : Option J) (u : AgentRun J) → HasReading u → HasReading (with_verification o u)
    unfolding with_verification
    verification-HasReading none u h = h
    verification-HasReading (some v) u h = h

    step-HasReading :
        (o : Option (Step J)) (u : AgentRun J) → HasReading u → HasReading (with_step o u)
    unfolding with_step
    step-HasReading none u h = h
    step-HasReading (some s) u h = h

    verification-steps : (o : Option J) (u : AgentRun J) → (with_verification o u).steps ≡ u.steps
    unfolding with_verification
    verification-steps none u = refl
    verification-steps (some v) u = refl

    module _ (goes_on : is_terminal r.state ≡ false) where
      with_end-none : (u : AgentRun J) → with_end r u ≡ u
      unfolding with_end
      with_end-none u = rw goes_on refl

      update-absorbs :
          (u : AgentRun J)
          → HasReading u
          → InLedger r.step u.steps
          → update_run r u ≡ with_verification r.verification u
      unfolding update_run
      update-absorbs u h l =
          let v = with_verification r.verification u in
          ap
            (λ w.
              with_end r (with_step r.step (with_verification r.verification (with_reading r w))))
            (with_phase-again u h.0)
          ∙ ap (λ w. with_end r (with_step r.step (with_verification r.verification w)))
              (reading-again u h)
          ∙ ap (λ w. with_end r w)
              (step-again r.step v
                (subst (InLedger r.step) (sym (verification-steps r.verification u)) l))
          ∙ with_end-none v

      pub updated-HasReading : (run : AgentRun J) → HasReading (update_run r run)
      unfolding update_run with_reading
      updated-HasReading run =
          let moved = with_phase r run in
          let read = with_reading r moved in
          let h : HasReading read = (
            with_phase-state run,
            refl,
            refl,
            filled-twice r.alert_id moved.alert_id,
            filled-twice r.scenario moved.scenario,
            or_else-twice r.hypotheses moved.hypotheses,
            filled-twice r.plan moved.plan,
            filled-twice r.budget moved.budget,
          ) in
          subst HasReading
            (sym (with_end-none (with_step r.step (with_verification r.verification read))))
            (step-HasReading r.step (with_verification r.verification read)
              (verification-HasReading r.verification read h))

      updated-InLedger :
          (run : AgentRun J) → IsNumbered r.step → InLedger r.step (update_run r run).steps
      unfolding update_run
      updated-InLedger run n =
          let w = with_verification r.verification (with_reading r (with_phase r run)) in
          subst (λ (u : AgentRun J). InLedger r.step u.steps)
            (sym (with_end-none (with_step r.step w))) (step-InLedger r.step w n)

      pub update_twice :
          (run : AgentRun J)
          → IsNumbered r.step
          → update_run r (update_run r run) ≡ with_verification r.verification (update_run r run)
      update_twice run n =
          update-absorbs (update_run r run) (updated-HasReading run) (updated-InLedger run n)

      abbrev pub SameRow : AgentRun J → AgentRun J → Type 0
      SameRow run u =
          (u.id ≡ run.id) × (u.tenant_id ≡ run.tenant_id) × (u.finished_at ≡ run.finished_at)

      phase-SameRow : (run : AgentRun J) → SameRow run (with_phase r run)
      unfolding with_phase
      phase-SameRow run = elim (Bool-cases (str_eq run.state r.state)) [
        | inl e ↦ rw e (refl, refl, refl)
        | inr e ↦ rw e (refl, refl, refl)
      ]

      verification-SameRow :
          (o : Option J) (run u : AgentRun J) → SameRow run u → SameRow run (with_verification o u)
      unfolding with_verification
      verification-SameRow none run u h = h
      verification-SameRow (some v) run u h = h

      step-SameRow :
          (o : Option (Step J)) (run u : AgentRun J) → SameRow run u → SameRow run (with_step o u)
      unfolding with_step
      step-SameRow none run u h = h
      step-SameRow (some s) run u h = h

      pub updated-SameRow : (run : AgentRun J) → SameRow run (update_run r run)
      unfolding update_run with_reading
      updated-SameRow run =
          let read = with_reading r (with_phase r run) in
          let v = with_verification r.verification read in
          subst (SameRow run) (sym (with_end-none (with_step r.step v))) (
            step-SameRow r.step run v
              (verification-SameRow r.verification run read (phase-SameRow run)))
