-- ===== src/AgentRuns/Kept.antt =====
-- Every row of the table of runs keeps its ledgers, whatever is reported.
use incident_platform.Prelude.{
  length-drop, ltb→lt, ℕ, suc, zero, ◌+◌, ◌-◌, ◌≤◌, ◌<◌, ◌≡◌, true, false, Option, none, some, List,
  [], ◌∷◌, ◌++◌, str_eq, ltb, is_some, length, length-append, arith, Bool-cases, inl, inr,
}
use incident_platform.AgentRuns.{
  Step, AgentRun, Report, steps_cap, verifications_cap, is_terminal, capped, has_seq, append_step,
  with_phase, with_verification, with_step, with_reading, with_end,
}
use incident_platform.AgentRuns.Ledger.{
  IsTimeline, IsTimeline-append, length-capped, DistinctSeqs, capped-DistinctSeqs,
  append-DistinctSeqs,
}

module _ {J : Type 0} where
  -- The timeline and the two bounded lists of a run.
  pub record HasLedgers (run : AgentRun J) : Type 0 where
    pub timeline : IsTimeline run.state run.phase_history
    pub few_verifications : length run.verifications ≤ verifications_cap
    pub few_steps : length run.steps ≤ steps_cap
    pub full_when_dropped : 0 < run.steps_dropped → length run.steps ≡ steps_cap
    pub distinct_seqs : DistinctSeqs run.steps

  -- A run: its ledgers, and that a terminal state has closed it.
  abbrev pub IsRun : AgentRun J → Type 0
  IsRun run = HasLedgers run × (is_terminal run.state ≡ true → is_some run.finished_at ≡ true)

  module _ (r : Report J) where
    pub phase-HasLedgers : (run : AgentRun J) → HasLedgers run → HasLedgers (with_phase r run)
    unfolding with_phase
    phase-HasLedgers run h = elim (Bool-cases (str_eq run.state r.state)) [
      | inl e ↦ rw e h
      | inr e ↦ rw e (record {
        timeline = IsTimeline-append run.state r.state r.at run.phase_history h.timeline e;
        few_verifications = h.few_verifications;
        few_steps = h.few_steps;
        full_when_dropped = h.full_when_dropped;
        distinct_seqs = h.distinct_seqs;
      })
    ]

    pub reading-HasLedgers : (run : AgentRun J) → HasLedgers run → HasLedgers (with_reading r run)
    unfolding with_reading
    reading-HasLedgers run h = record {
      timeline = h.timeline;
      few_verifications = h.few_verifications;
      few_steps = h.few_steps;
      full_when_dropped = h.full_when_dropped;
      distinct_seqs = h.distinct_seqs;
    }

    pub end-HasLedgers : (run : AgentRun J) → HasLedgers run → HasLedgers (with_end r run)
    unfolding with_end
    end-HasLedgers run h = elim (Bool-cases (is_terminal r.state)) [
      | inl e ↦ rw e (record {
        timeline = h.timeline;
        few_verifications = h.few_verifications;
        few_steps = h.few_steps;
        full_when_dropped = h.full_when_dropped;
        distinct_seqs = h.distinct_seqs;
      })
      | inr e ↦ rw e h
    ]

  pub verification-HasLedgers :
      (o : Option J) (run : AgentRun J) → HasLedgers run → HasLedgers (with_verification o run)
  unfolding with_verification
  verification-HasLedgers none run h = h
  verification-HasLedgers (some v) run h = record {
    timeline = h.timeline;
    few_verifications = length-capped (run.verifications ++ v ∷ []) verifications_cap;
    few_steps = h.few_steps;
    full_when_dropped = h.full_when_dropped;
    distinct_seqs = h.distinct_seqs;
  }

  full_ledger :
      (steps : List (Step J)) (step : Step J) (dropped : ℕ)
      → (0 < dropped → length steps ≡ steps_cap)
      → 0 < dropped + (length (steps ++ step ∷ []) - steps_cap)
      → length (capped (steps ++ step ∷ []) steps_cap) ≡ steps_cap
  unfolding capped
  full_ledger steps step dropped full some_gone =
      elim (Bool-cases (ltb steps_cap (length (steps ++ step ∷ [])))) [
        | inl l ↦ rw l (
            omega (
              arith,
              ltb→lt steps_cap (length (steps ++ step ∷ [])) l,
              length-drop (length (steps ++ step ∷ []) - steps_cap) (steps ++ step ∷ []),
            ))
        | inr l ↦ absurd (
            not_full (length steps) dropped (length (steps ++ step ∷ [])) full
              (length-append steps (step ∷ [])) some_gone l)
      ]
    where
      not_full :
          (n d g : ℕ) → (0 < d → n ≡ 200) → g ≡ n + 1 → 0 < d + (g - 200) → ltb 200 g ≡ false → ⊥
      not_full n zero g full e gone l = ground arith
      not_full n (suc d) g full e gone l = ground (arith, full (omega arith))

  pub step-HasLedgers :
      (o : Option (Step J)) (run : AgentRun J) → HasLedgers run → HasLedgers (with_step o run)
  unfolding with_step append_step
  step-HasLedgers none run h = h
  step-HasLedgers (some step) run h = elim (Bool-cases (has_seq step.seq run.steps)) [
    | inl e ↦ rw e (record {
      timeline = h.timeline;
      few_verifications = h.few_verifications;
      few_steps = h.few_steps;
      full_when_dropped = λ gone. h.full_when_dropped (omega (arith, gone));
      distinct_seqs = h.distinct_seqs;
    })
    | inr e ↦ rw e (record {
      timeline = h.timeline;
      few_verifications = h.few_verifications;
      few_steps = length-capped (run.steps ++ step ∷ []) steps_cap;
      full_when_dropped = full_ledger run.steps step run.steps_dropped h.full_when_dropped;
      distinct_seqs =
          capped-DistinctSeqs (run.steps ++ step ∷ []) steps_cap
            (append-DistinctSeqs run.steps step h.distinct_seqs e);
    })
  ]
