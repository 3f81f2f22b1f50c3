-- ===== src/Examples/Records.antt =====
-- The theorems on the runs of the responder, the cache, the hooks after a commit and the read model,
-- at concrete inputs.
use incident_platform.Cache.{set, get, delete, invalidate, row}
use incident_platform.Prelude.{
  ℕ, ◌+◌, ◌≡◌, refl, Bool, true, false, none, some, List, [], ◌∷◌, ◌++◌, String, leb, ltb,
  if◌then◌else◌, All, arith,
}
use incident_platform.AgentRuns.{
  AgentRun, Report, new_run, update_run, with_verification, get_run, flush, report_run, reported,
}
use incident_platform.AgentRuns.Kept.{IsRun}
use incident_platform.AgentRuns.Written.{report, brief, write_all, write_all-IsRun}
use incident_platform.AgentRuns.Resent.{report_run_twice}
use incident_platform.Cache.Fresh.{
  Event, written_back, invalidated, deleted, invalidated_never_stale,
}
use incident_platform.Cache.Hooks.{
  Operation, registered, savepoint_rolled_back, ready, transactions, run_hooks, transactions_exact,
}
use incident_platform.ReadModel.{Entry, StatusEvent, View, project, member_count, holds}
use incident_platform.ReadModel.Views.{project_counts}
use incident_platform.ReadModel.Projected.{
  IsExclusive, project_events, no_views, no_views-IsExclusive, project_events-IsExclusive,
}

abbrev verifying : Report ℕ
verifying = record {
  run_id = 1;
  tenant_id = 100;
  service_account_id = 9;
  state = "verifying";
  at = 40;
  alert_id = none;
  scenario = none;
  current_hypothesis = none;
  last_step = none;
  hypotheses = none;
  plan = none;
  verification = some 77;
  step = some (record { seq = some 5; fields = 3 });
  budget = none;
}

write_all-IsRun_example : All IsRun (
    write_all
      (report verifying ∷ report verifying ∷ brief 1 100 8 none 60 ∷ report verifying ∷ [])
      [])
write_all-IsRun_example =
    write_all-IsRun
      (report verifying ∷ report verifying ∷ brief 1 100 8 none 60 ∷ report verifying ∷ []) [] tt

abbrev first_run : AgentRun ℕ
unfolding new_run
first_run = new_run (record verifying { state = "triage"; step = none; verification = none })

report_run_twice_example :
    let u = update_run verifying first_run in
    let once = (report_run verifying (first_run ∷ [])).1 in
    (get_run 1 100 once ≡ some u)
    × (report_run verifying once
        ≡ (reported false false, flush (with_verification (some 77) u) once))
unfolding first_run get_run
report_run_twice_example =
    report_run_twice verifying first_run (first_run ∷ []) refl refl refl (5, refl)

-- Rows are the instants of their last change, and a commit at 100 is invalidated at 101.
abbrev later : List (Event ℕ)
later =
    written_back true 90 105 90
    ∷ written_back true 110 120 100
    ∷ invalidated true 125
    ∷ deleted true 140
    ∷ written_back true 150 156 100
    ∷ []

invalidated_never_stale_example : leb 100 100 ≡ true
unfolding get set delete invalidate
invalidated_never_stale_example =
    invalidated_never_stale (λ v. leb 100 v) 100 101 160 later (some (row 90, 104)) true 100
      (omega arith)
      (
        omega arith,
        omega arith,
        (λ h. absurd (omega (arith, h))),
        (
          omega arith,
          omega arith,
          (λ h. refl),
          (omega arith, (omega arith, omega arith, (omega arith, omega arith, (λ h. refl), tt))),
        ),
      )
      refl

-- A hook adds its number, and the hook 2 raises.
abbrev add_hook : ℕ → List ℕ → List ℕ × Bool
add_hook h w = (w ++ h ∷ [], ltb h 3)

abbrev worked : List (List (Operation ℕ) × Bool)
worked =
    (registered 1 ∷ registered 2 ∷ [], true)
    ∷ (registered 3 ∷ [], false)
    ∷ (registered 4 ∷ savepoint_rolled_back ∷ registered 5 ∷ [], true)
    ∷ []

transactions_exact_example :
    let (s, w') = transactions add_hook worked (ready [] false) [] in
    (s.hooks ≡ []) × (w' ≡ run_hooks add_hook (1 ∷ 2 ∷ 5 ∷ []) [])
transactions_exact_example = transactions_exact add_hook worked []

abbrev status_event : String → StatusEvent
status_event event = record {
  job_id = some 1;
  user_id = some 7;
  tenant_id = some 100;
  event = some event;
  dead_lettered = true;
}

abbrev status_events : List (ℕ × StatusEvent)
status_events =
    (1, status_event "job.progress")
    ∷ (2, status_event "job.failed")
    ∷ (3, status_event "job.progress")
    ∷ []

project_events-IsExclusive_example : IsExclusive (project_events status_events no_views)
project_events-IsExclusive_example =
    project_events-IsExclusive status_events no_views no_views-IsExclusive

abbrev entry : Entry
entry = record { job_id = 1; score = 9 }

abbrev one_view : View
one_view = record { members = record { job_id = 2; score = 4 } ∷ []; evicted = 3 }

project_counts_example :
    member_count (project entry one_view)
    ≡ member_count one_view + (if holds 1 one_view.members then 0 else 1)
project_counts_example = project_counts entry one_view (omega arith)
