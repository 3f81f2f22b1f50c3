-- ===== src/AgentRuns/Written.antt =====
-- The table of runs over any sequence of reports and briefings.
use incident_platform.AgentRuns.Repeats.{with_phase-state}
use incident_platform.Prelude.{
  ℕ, ◌≤◌, ◌≡◌, refl, sym, ap, ◌∙◌, subst, Bool, true, false, Option, none, some, List, [], ◌∷◌,
  ◌++◌, String, if◌then◌else◌, is_none, is_some, length, any, All, arith, Bool-cases, Option-cases,
  inl, inr, some_eq,
}
use incident_platform.Store.Table.{find_where, update_where}
use incident_platform.AgentRuns.{
  Step, Briefing, AgentRun, Report, is_terminal, to_list, has_seq, new_run, with_phase,
  with_verification, with_step, with_reading, with_end, update_run, owned_by, get_run, has_id,
  create_run, report_found, report_run, briefed, brief_found, report_briefing,
}
use incident_platform.AgentRuns.Ledger.{DistinctSeqs}
use incident_platform.AgentRuns.Kept.{
  HasLedgers, IsRun, phase-HasLedgers, reading-HasLedgers, end-HasLedgers, verification-HasLedgers,
  step-HasLedgers,
}

module _ {ℓ} {A : Type ℓ} (P : A → Type 0) where
  found-All : (q : A → Bool) (xs : List A) (x : A) → All P xs → find_where q xs ≡ some x → P x
  found-All q [] x h e = cc
  found-All q (y ∷ ys) x (h, hs) e = elim (Bool-cases (q y)) [
    | inl t ↦ subst P (some_eq y x (rw t at e)) h
    | inr t ↦ found-All q ys x hs (rw t at e)
  ]

  written-All :
      (q : A → Bool) (u : A) (xs : List A) → P u → All P xs → All P (update_where q (λ x. u) xs)
  written-All q u [] p h = tt
  written-All q u (y ∷ ys) p (h, hs) =
      (elim (Bool-cases (q y)) [ inl t ↦ rw t p | inr t ↦ rw t h ], written-All q u ys p hs)

  last-All : (xs : List A) (u : A) → All P xs → P u → All P (xs ++ u ∷ [])
  last-All [] u h p = (p, tt)
  last-All (x ∷ xs) u (h, hs) p = (h, last-All xs u hs p)

one_at_most {ℓ} : {A : Type ℓ} (o : Option A) → length (to_list o) ≤ 1
one_at_most none = omega arith
one_at_most (some a) = omega arith

closes : (f : Option ℕ) (at : ℕ) → is_some (if is_none f then some at else f) ≡ true
closes none at = refl
closes (some t) at = refl

-- A report, or the arguments of a briefing.
pub data Write (J : Type 0) : Type 0 where
  report : (r : Report J) → Write J
  brief : (run_id tenant_id : ℕ) (fields : J) (prose : Option String) (at : ℕ) → Write J

module _ {J : Type 0} where
  abbrev pub write : Write J → List (AgentRun J) → List (AgentRun J)
  write (report r) runs = (report_run r runs).1
  write (brief run_id tenant_id fields prose at) runs =
      (report_briefing run_id tenant_id fields prose at runs).1

  abbrev pub write_all : List (Write J) → List (AgentRun J) → List (AgentRun J)
  write_all [] runs = runs
  write_all (w ∷ ws) runs = write_all ws (write w runs)

  module _ (r : Report J) where
    end-ended :
        (run : AgentRun J)
        → run.state ≡ r.state
        → is_terminal (with_end r run).state ≡ true
        → is_some (with_end r run).finished_at ≡ true
    unfolding with_end
    end-ended run same = elim (Bool-cases (is_terminal r.state)) [
      | inl e ↦ rw e (λ t. refl)
      | inr e ↦ rw e (λ t. let bad = sym e ∙ sym (ap is_terminal same) ∙ t in cc)
    ]

    kept_state :
        (o : Option J) (p : Option (Step J)) (run : AgentRun J)
        → (with_step p (with_verification o run)).state ≡ run.state
    unfolding with_step with_verification
    kept_state none none run = refl
    kept_state (some v) none run = refl
    kept_state none (some s) run = refl
    kept_state (some v) (some s) run = refl

    update_run-IsRun : (run : AgentRun J) → HasLedgers run → IsRun (update_run r run)
    unfolding update_run with_reading
    update_run-IsRun run h =
        let read = with_reading r (with_phase r run) in
        let v = with_verification r.verification read in
        let grown = with_step r.step v in
        (
          end-HasLedgers r grown (
              step-HasLedgers r.step v (
                verification-HasLedgers r.verification read
                  (reading-HasLedgers r (with_phase r run) (phase-HasLedgers r run h)))),
          end-ended grown (kept_state r.verification r.step read ∙ with_phase-state r run),
        )

  one-DistinctSeqs : (o : Option (Step J)) → DistinctSeqs (to_list o)
  one-DistinctSeqs none = tt
  one-DistinctSeqs (some s) = (no_seq s.seq, tt)
    where
      no_seq : (a : Option ℕ) → has_seq {J = J} a [] ≡ false
      no_seq none = refl
      no_seq (some n) = refl

  new_run-IsRun : (r : Report J) → IsRun (new_run r)
  unfolding new_run
  new_run-IsRun r = (
    record {
      timeline = refl;
      few_verifications = omega (arith, one_at_most r.verification);
      few_steps = omega (arith, one_at_most r.step);
      full_when_dropped = λ gone. absurd (omega (arith, gone));
      distinct_seqs = one-DistinctSeqs r.step;
    },
    λ t. rw t refl,
  )

  briefed-IsRun :
      (b : Briefing J) (at : ℕ) (run : AgentRun J) → IsRun run → IsRun (briefed b at run)
  unfolding briefed
  briefed-IsRun b at run (h, ended) = (
    record {
      timeline = h.timeline;
      few_verifications = h.few_verifications;
      few_steps = h.few_steps;
      full_when_dropped = h.full_when_dropped;
      distinct_seqs = h.distinct_seqs;
    },
    λ t. closes run.finished_at at,
  )

  create-All :
      (r : Report J) (runs : List (AgentRun J)) → All IsRun runs → All IsRun (create_run r runs).1
  unfolding create_run
  create-All r runs h = elim (Bool-cases (any (has_id r.run_id) runs)) [
    | inl e ↦ rw e h
    | inr e ↦ rw e (last-All IsRun runs (new_run r) h (new_run-IsRun r))
  ]

  report-All :
      (r : Report J) (runs : List (AgentRun J)) → All IsRun runs → All IsRun (report_run r runs).1
  unfolding report_run report_found get_run
  report-All r runs h = elim (Option-cases (find_where (owned_by r.run_id r.tenant_id) runs)) [
    | inl e ↦ rw e (create-All r runs h)
    | inr (run, e) ↦ rw e (elim (Bool-cases (is_some run.finished_at)) [
      | inl f ↦ rw f h
      | inr f ↦ rw f (
          written-All IsRun (has_id (update_run r run).id) (update_run r run) runs
            (update_run-IsRun r run
              (found-All IsRun (owned_by r.run_id r.tenant_id) runs run h e).0)
            h)
    ])
  ]

  brief-All :
      (run_id tenant_id : ℕ) (fields : J) (prose : Option String) (at : ℕ)
      (runs : List (AgentRun J))
      → All IsRun runs
      → All IsRun (report_briefing run_id tenant_id fields prose at runs).1
  unfolding report_briefing brief_found get_run
  brief-All run_id tenant_id fields prose at runs h =
      elim (Option-cases (find_where (owned_by run_id tenant_id) runs)) [
        | inl e ↦ rw e h
        | inr (run, e) ↦ rw e (elim (Bool-cases (is_some run.briefing)) [
          | inl f ↦ rw f h
          | inr f ↦
              let b : Briefing J = record { fields = fields; prose = prose; recorded_at = at } in
              rw f (
                written-All IsRun (has_id (briefed b at run).id) (briefed b at run) runs
                  (briefed-IsRun b at run
                    (found-All IsRun (owned_by run_id tenant_id) runs run h e))
                  h)
        ])
      ]

-- After any sequence of reports and briefings, accepted or refused, every run's timeline ends in its
-- state and has no state twice in a row; its verdicts number fifty and its steps two hundred at most,
-- two hundred exactly once one was dropped, and no two of them have one `seq`; and a run in a
-- terminal state is finished.
pub write_all-IsRun :
    {J : Type 0} (ws : List (Write J)) (runs : List (AgentRun J))
    → All IsRun runs
    → All IsRun (write_all ws runs)
write_all-IsRun [] runs h = h
write_all-IsRun (report r ∷ ws) runs h =
    write_all-IsRun ws (write (report r) runs) (report-All r runs h)
write_all-IsRun (brief i t f p a ∷ ws) runs h =
    write_all-IsRun ws (write (brief i t f p a) runs) (brief-All i t f p a runs h)
