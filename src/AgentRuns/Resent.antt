-- ===== src/AgentRuns/Resent.antt =====
-- A report that is sent twice, as the table sees it.
use incident_platform.AgentRuns.{
  already_finished, AgentRun, Report, is_terminal, with_verification, update_run, owned_by, get_run,
  flush, reported, refused, report_found, report_run,
}
use incident_platform.Prelude.{
  ap₂, ◌≡◌, ap, ◌∙◌, true, false, not, ◌&&◌, none, some, List, str_eq, ◌==◌, if◌then◌else◌, is_some,
}
use incident_platform.Idempotency.Keys.{str_eq_refl}
use incident_platform.AgentRuns.Rows.{find-holds, find-flush}
use incident_platform.AgentRuns.Repeats.{
  IsNumbered, updated-HasReading, updated-SameRow, update_twice,
}

pub open_report :
    {J : Type 0} (r : Report J) (run : AgentRun J) (runs : List (AgentRun J))
    → get_run r.run_id r.tenant_id runs ≡ some run
    → run.finished_at ≡ none
    → report_run r runs
      ≡ (reported false (not (str_eq run.state r.state)), flush (update_run r run) runs)
unfolding report_run report_found get_run
open_report r run runs there unfinished =
    ap (λ o. report_found r o runs) there
    ∙ ap
        (λ f.
          if is_some f
          then (refused already_finished, runs)
          else (reported false (not (str_eq run.state r.state)), flush (update_run r run) runs))
        unfinished

-- A report to a run that the tenant has and that is not finished, which leaves it open and whose
-- step, where it carries one, has a seq, is sent again: it is accepted, it appends no phase and no
-- step, and it leaves the row as it was where it carries no verification; one that does is appended
-- a second time.
pub report_run_twice :
    {J : Type 0} (r : Report J) (run : AgentRun J) (runs : List (AgentRun J))
    → get_run r.run_id r.tenant_id runs ≡ some run
    → run.finished_at ≡ none
    → is_terminal r.state ≡ false
    → IsNumbered r.step
    → let u = update_run r run in
      let once = (report_run r runs).1 in
      (get_run r.run_id r.tenant_id once ≡ some u)
      × (report_run r once
          ≡ (reported false false, flush (with_verification r.verification u) once))
unfolding report_run report_found get_run
report_run_twice r run runs there unfinished goes_on numbered =
    let u = update_run r run in
    let once = flush u runs in
    let (same_id, same_tenant, same_end) = updated-SameRow r goes_on run in
    let owned : owned_by r.run_id r.tenant_id u ≡ true =
      ap₂ (λ i t. i == r.run_id && t == r.tenant_id) same_id same_tenant
      ∙ find-holds (owned_by r.run_id r.tenant_id) runs run there in
    let found = find-flush r.run_id r.tenant_id u run runs owned there in
    let first = open_report r run runs there unfinished in
    let again : get_run r.run_id r.tenant_id once ≡ some u = found in
    let same_state =
      ap (λ t. not (str_eq t r.state)) (updated-HasReading r goes_on run).0
      ∙ ap not (str_eq_refl r.state) in
    let second = open_report r u once again (same_end ∙ unfinished) in
    rw (ap (λ x. x.1) first) (
      again,
      second
          ∙ ap₂ (λ b v. (reported false b, flush v once)) same_state
              (update_twice r goes_on run numbered),
    )
