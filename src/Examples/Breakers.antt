-- ===== src/Examples/Breakers.antt =====
-- The theorems on the circuit breaker, the delayed replays and the admission of requests, at concrete
-- inputs.
use Prim.Native.String.{◌∷◌ as ◌∷∷◌}
use incident_platform.Examples.{db, env}
use incident_platform.JobService.{
  NewJob, Result, ok, err, create_job, create_or_existing, create_new, load_parents,
  insert_or_winner, or_not_found, add_dependencies, initial_status, new_row,
}
use incident_platform.Store.{Job, Db, pending}
use incident_platform.Prelude.{
  ℕ, zero, suc, ap, ◌∙◌, ◌+◌, ◌*◌, ◌≡◌, ◌≤◌, ◌⊎◌, refl, true, false, ◌||◌, Option, none, some, [],
  ◌∷◌, ◌++◌, String, arith, min, length, count_where, ◌==◌, ◌&&◌, leb,
}
use incident_platform.Breaker.{
  Breaker, circuit_open, new_breaker, enter, finish, leave, raised, cancelled,
}
use incident_platform.Breaker.Interleaved.{
  start, next, leaves, IsConsistent, Reachable-IsConsistent,
}
use incident_platform.Breaker.Tripping.{AllRejected, cancelled_probe_strands}
use incident_platform.Replays.{
  Replay, Sets, member, parse, listed_text, claim_script, zrem, insert, zadd, zadd_all,
  range_by_score,
}
use incident_platform.Replays.Members.{has_colon, parse-member}
use incident_platform.Replays.Claims.{armed_in, claim_script-keeps}
use incident_platform.Replays.Reclaims.{claim_reclaims}
use incident_platform.Admission.{
  Tenant, Admitting, lag_read, check_job_admission, after_pressure, check_backpressure,
  check_tenant_limits, after_rate, check_tenant_rate, check_monthly_quota, check_rate_limit, check,
  judged, incr,
}
use incident_platform.Admission.Windows.{let_through, standing, two_windows_exact}
use incident_platform.Admission.Quotas.{admitted_job_keeps_quota, IsWithin}

abbrev fresh : Breaker
fresh = new_breaker 3 30

Reachable-IsConsistent_example :
    IsConsistent (leave 1 1001 false (raised "timeout") (new_breaker 3 30))
Reachable-IsConsistent_example =
    Reachable-IsConsistent 3 30 (leave 1 1001 false (raised "timeout") (new_breaker 3 30))
      (omega arith) (next start (leaves 1 1001 false (raised "timeout")))

abbrev tripped : Breaker
tripped = record fresh { state = circuit_open; failure_count = 3; opened_at = some 3 }

cancelled_probe_strands_example :
    AllRejected
      ((100, 1100) ∷ (90000, 91000) ∷ [])
      (finish 50 1050 none true cancelled (enter 40 1040 none none tripped).1)
unfolding new_breaker
cancelled_probe_strands_example =
    cancelled_probe_strands 40 1040 50 1050 ((100, 1100) ∷ (90000, 91000) ∷ []) tripped refl refl

-- Ids in tally marks: no colon, and each read back.
abbrev tally : ℕ → String
tally zero = String.[]
tally (suc n) = "i" ∷∷ tally n

abbrev one_further : Option ℕ → Option ℕ
one_further none = none
one_further (some n) = some (n + 1)

abbrev read_tally : String → Option ℕ
read_tally String.[] = some 0
read_tally (c ∷∷ s) = one_further (read_tally s)

tally-plain : (n : ℕ) → has_colon (tally n) ≡ false
unfolding has_colon
tally-plain zero = refl
tally-plain (suc n) = tally-plain n

tally-read : (n : ℕ) → read_tally (tally n) ≡ some n
tally-read zero = refl
tally-read (suc n) = ap one_further (tally-read n) ∙ ap some (omega arith)

abbrev replay : Replay
replay = record { tenant_id = 1; principal_id = 2; job_id = 3 }

parse-member_example : parse read_tally (member tally replay) ≡ some replay
parse-member_example = parse-member tally read_tally replay tally-plain tally-read

abbrev armed : Sets
armed = record {
  scheduled = record { member = "a"; score = 5 } ∷ record { member = "b"; score = 90 } ∷ [];
  inflight = record { member = "c"; score = 8 } ∷ [];
}

claim_script-keeps_example :
    (length (claim_script 10 70 armed).0 ≤ 1000)
    × ((armed_in "b" (claim_script 10 70 armed).1.scheduled
          || armed_in "b" (claim_script 10 70 armed).1.inflight)
        ≡ (armed_in "b" armed.scheduled || armed_in "b" armed.inflight))
claim_script-keeps_example = claim_script-keeps 10 70 armed "b"

claim_reclaims_example : listed_text "a" (claim_script 75 135 (claim_script 10 70 armed).1).0 ≡ true
unfolding claim_script zrem insert zadd zadd_all range_by_score
claim_reclaims_example = claim_reclaims 10 75 135 armed "a" (omega arith) (omega arith) refl

two_windows_exact_example :
    ((let_through "jobs" 2 60 ((115 ∷ 117 ∷ 119 ∷ []) ++ (120 ∷ 121 ∷ 122 ∷ [])) []).0
      ≡ min 3 2 + min 3 2)
    × ((let_through "jobs" 2 60 ((115 ∷ 117 ∷ 119 ∷ []) ++ (120 ∷ 121 ∷ 122 ∷ [])) []).0 ≤ 2 * 2)
unfolding standing
two_windows_exact_example =
    two_windows_exact "jobs" 2 60 1 (115 ∷ 117 ∷ 119 ∷ []) (120 ∷ 121 ∷ 122 ∷ []) []
      (refl, (refl, (refl, tt))) (refl, (refl, (refl, tt))) refl refl

abbrev tenant : Tenant
tenant = record {
  id = 100;
  rate_key = "tenant:100";
  rate_limit_per_minute = 5;
  quota_jobs_per_month = 20;
}

abbrev admitting : Admitting
admitting = record {
  now = 20;
  month_start = 0;
  lag_threshold = 100;
  lag = lag_read 40;
  redis_up = true;
  tenant = some tenant;
}

abbrev upload : NewJob
upload = record {
  user_id = 7;
  tenant_id = 100;
  type = "csv_upload";
  payload = none;
  idempotency_key = none;
  priority = 0;
  max_attempts = none;
  dependencies = [];
  saga_id = none;
  saga_step_index = none;
}

abbrev uploaded : Result (Job × Db) → Db
uploaded (ok (job, d)) = d
uploaded (err e) = db

admitted_job_keeps_quota_example :
    IsWithin 100 (lag_read 40)
    × ((tenant.quota_jobs_per_month ≡ 0)
        ⊎ (count_where
              (λ (j : Job). j.tenant_id == 100 && leb 0 j.created_at)
              (uploaded (create_job env (λ d. d) upload db)).jobs
            ≤ 20))
unfolding check_job_admission after_pressure check_backpressure check_tenant_limits after_rate
    check_tenant_rate check_monthly_quota check_rate_limit check judged incr create_job
    create_or_existing create_new load_parents insert_or_winner or_not_found add_dependencies
    initial_status new_row
admitted_job_keeps_quota_example =
    admitted_job_keeps_quota admitting tenant env upload db
      (uploaded (create_job env (λ d. d) upload db)) (new_row env upload pending 51) [] refl refl
      refl refl
