-- ===== src/AgentRuns.antt =====
-- services/agent_run.py: the write side of `agent_runs`, with the query of repositories/agent_run.py
-- that it makes. `J` is the type of the JSON objects that a caller sends, which nothing here reads
-- but a step's `seq`; `started_at` and `updated_at`, which the database fills in, are left out.
pub mod Rows
pub mod Repeats
pub mod Resent
pub mod Ledger
pub mod Kept
pub mod Written
use incident_platform.Prelude.{
  drop, length-drop, ℕ, suc, zero, ◌+◌, ◌-◌, Bool, true, false, not, ◌&&◌, ◌||◌, Option, none, some,
  List, [], ◌∷◌, ◌++◌, String, str_eq, ◌==◌, ltb, if◌then◌else◌, is_none, is_some, length, any,
}
use incident_platform.Store.Table.{find_where, update_where}

pub record Phase : Type 0 where
  pub state : String
  pub at : ℕ

module _ (J : Type 0) where
  pub record Step : Type 0 where
    pub seq : Option ℕ
    pub fields : J

  pub record Briefing : Type 0 where
    pub fields : J
    pub prose : Option String
    pub recorded_at : ℕ

  pub record AgentRun : Type 0 where
    pub id : ℕ
    pub tenant_id : ℕ
    pub alert_id : Option ℕ
    pub service_account_id : ℕ
    pub scenario : Option String
    pub state : String
    pub phase_history : List Phase
    pub current_hypothesis : Option J
    pub last_step : Option J
    pub hypotheses : List J
    pub plan : Option J
    pub verification : Option J
    pub verifications : List J
    pub steps : List Step
    pub steps_dropped : ℕ
    pub budget : Option J
    pub briefing : Option Briefing
    pub finished_at : Option ℕ

  -- The arguments of `report_run`.
  pub record Report : Type 0 where
    pub run_id : ℕ
    pub tenant_id : ℕ
    pub service_account_id : ℕ
    pub state : String
    pub at : ℕ
    pub alert_id : Option ℕ
    pub scenario : Option String
    pub current_hypothesis : Option J
    pub last_step : Option J
    pub hypotheses : Option (List J)
    pub plan : Option J
    pub verification : Option J
    pub step : Option Step
    pub budget : Option J

abbrev pub steps_cap : ℕ
steps_cap = 200

abbrev pub verifications_cap : ℕ
verifications_cap = 50

-- `TERMINAL_AGENT_RUN_STATES`.
abbrev pub is_terminal : String → Bool
is_terminal state = str_eq state "resolved" || str_eq state "escalated" || str_eq state "failed"

-- `entries[-cap:] if len(entries) > cap else entries`.
unfoldable pub capped {ℓ} : {A : Type ℓ} → List A → ℕ → List A
capped entries cap =
    if ltb cap (length entries) then drop (length entries - cap) entries else entries

abbrev pub same_seq : ℕ → Option ℕ → Bool
same_seq seq none = false
same_seq seq (some n) = n == seq

-- The reports that carry a value replace the column, the others leave it.
abbrev pub filled {ℓ} : {A : Type ℓ} → Option A → Option A → Option A
filled none old = old
filled (some a) old = some a

abbrev pub or_else {ℓ} : {A : Type ℓ} → Option A → A → A
or_else none a = a
or_else (some b) a = b

abbrev pub to_list {ℓ} : {A : Type ℓ} → Option A → List A
to_list none = []
to_list (some a) = a ∷ []

module _ {J : Type 0} where
  abbrev pub has_seq : Option ℕ → List (Step J) → Bool
  has_seq none steps = false
  has_seq (some seq) steps = any (λ (s : Step J). same_seq seq s.seq) steps

  -- `_append_step`.
  unfoldable pub append_step : List (Step J) → Step J → List (Step J) × ℕ
  unfolding capped
  append_step steps step =
      let grown = steps ++ step ∷ [] in
      if has_seq step.seq steps
      then (steps, 0)
      else (capped grown steps_cap, length grown - steps_cap)

  unfoldable pub new_run : Report J → AgentRun J
  new_run r = record {
    id = r.run_id;
    tenant_id = r.tenant_id;
    alert_id = r.alert_id;
    service_account_id = r.service_account_id;
    scenario = r.scenario;
    state = r.state;
    phase_history = record { state = r.state; at = r.at } ∷ [];
    current_hypothesis = r.current_hypothesis;
    last_step = r.last_step;
    hypotheses = or_else r.hypotheses [];
    plan = r.plan;
    verification = r.verification;
    verifications = to_list r.verification;
    steps = to_list r.step;
    steps_dropped = 0;
    budget = r.budget;
    briefing = none;
    finished_at = if is_terminal r.state then some r.at else none;
  }

  unfoldable pub with_phase : Report J → AgentRun J → AgentRun J
  with_phase r run = if str_eq run.state r.state then run else record run {
    phase_history = run.phase_history ++ record { state = r.state; at = r.at } ∷ [];
    state = r.state;
  }

  unfoldable pub with_verification : Option J → AgentRun J → AgentRun J
  unfolding capped
  with_verification none run = run
  with_verification (some v) run = record run {
    verification = some v;
    verifications = capped (run.verifications ++ v ∷ []) verifications_cap;
  }

  unfoldable pub with_step : Option (Step J) → AgentRun J → AgentRun J
  unfolding append_step
  with_step none run = run
  with_step (some step) run =
      let (kept, dropped) = append_step run.steps step in
      record run { steps = kept; steps_dropped = run.steps_dropped + dropped }

  -- The columns that are replaced, and those that are filled in.
  unfoldable pub with_reading : Report J → AgentRun J → AgentRun J
  with_reading r run = record run {
    current_hypothesis = r.current_hypothesis;
    last_step = r.last_step;
    alert_id = filled r.alert_id run.alert_id;
    scenario = filled r.scenario run.scenario;
    hypotheses = or_else r.hypotheses run.hypotheses;
    plan = filled r.plan run.plan;
    budget = filled r.budget run.budget;
  }

  unfoldable pub with_end : Report J → AgentRun J → AgentRun J
  with_end r run = if is_terminal r.state then record run { finished_at = some r.at } else run

  -- What a report does to a run that is not finished.
  unfoldable pub update_run : Report J → AgentRun J → AgentRun J
  unfolding with_phase with_reading with_verification with_step with_end
  update_run r run =
      with_end r
        (with_step r.step (with_verification r.verification (with_reading r (with_phase r run))))

  abbrev pub owned_by : ℕ → ℕ → AgentRun J → Bool
  owned_by run_id tenant_id run = run.id == run_id && run.tenant_id == tenant_id

  -- `AgentRunRepository.get_for_tenant`.
  unfoldable pub get_run : ℕ → ℕ → List (AgentRun J) → Option (AgentRun J)
  get_run run_id tenant_id runs = find_where (owned_by run_id tenant_id) runs

  abbrev pub has_id : ℕ → AgentRun J → Bool
  has_id id run = run.id == id

  -- The flush of a run that was read: its row, by the primary key.
  abbrev pub flush : AgentRun J → List (AgentRun J) → List (AgentRun J)
  flush run runs = update_where (has_id run.id) (λ old. run) runs

pub data AgentRunError : Type 0 where
  already_finished briefing_already_recorded run_not_found duplicate_id : AgentRunError

-- The flags of a `ReportOutcome`, or the error that leaves the transaction without effect.
pub data Outcome : Type 0 where
  reported : (created phase_appended : Bool) → Outcome
  refused : AgentRunError → Outcome

module _ {J : Type 0} where
  -- An id that another tenant's run has is one that the primary key refuses.
  unfoldable pub create_run : Report J → List (AgentRun J) → Outcome × List (AgentRun J)
  unfolding new_run
  create_run r runs =
      if any (has_id r.run_id) runs
      then (refused duplicate_id, runs)
      else (reported true true, runs ++ new_run r ∷ [])

  unfoldable pub report_found :
      Report J → Option (AgentRun J) → List (AgentRun J) → Outcome × List (AgentRun J)
  unfolding create_run update_run
  report_found r none runs = create_run r runs
  report_found r (some run) runs =
      if is_some run.finished_at
      then (refused already_finished, runs)
      else (reported false (not (str_eq run.state r.state)), flush (update_run r run) runs)

  -- `report_run`.
  unfoldable pub report_run : Report J → List (AgentRun J) → Outcome × List (AgentRun J)
  unfolding report_found get_run
  report_run r runs = report_found r (get_run r.run_id r.tenant_id runs) runs

  unfoldable pub briefed : Briefing J → ℕ → AgentRun J → AgentRun J
  briefed briefing at run = record run {
    briefing = some briefing;
    finished_at = if is_none run.finished_at then some at else run.finished_at;
  }

  unfoldable pub brief_found :
      J
      → Option String
      → ℕ
      → Option (AgentRun J)
      → List (AgentRun J)
      → Option AgentRunError × List (AgentRun J)
  unfolding briefed
  brief_found fields prose at none runs = (some run_not_found, runs)
  brief_found fields prose at (some run) runs =
      if is_some run.briefing then (some briefing_already_recorded, runs) else (
        none,
        flush (briefed (record { fields = fields; prose = prose; recorded_at = at }) at run) runs,
      )

  -- `report_briefing`.
  unfoldable pub report_briefing :
      ℕ → ℕ → J → Option String → ℕ → List (AgentRun J) → Option AgentRunError × List (AgentRun J)
  unfolding brief_found get_run
  report_briefing run_id tenant_id fields prose at runs =
      brief_found fields prose at (get_run run_id tenant_id runs) runs
