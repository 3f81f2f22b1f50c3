-- ===== src/Admission/Quotas.antt =====
-- What an admission promises, and what holds once the job that it admitted is created.
use incident_platform.Prelude.{
  ℕ, ◌+◌, ◌≡◌, ◌≤◌, ◌⊎◌, refl, Option, none, some, List, arith, count_where, ◌==◌, ◌&&◌, leb, some,
  sym, subst, Bool, [], ◌∷◌, ◌++◌,
}
use incident_platform.Store.{Job, Db}
use incident_platform.JobService.{Env, NewJob, ok, create_job}
use incident_platform.JobService.Start.{create_job_announces}
use incident_platform.Admission.{
  Counter, Verdict, admitted, rate_limited, over_quota, backpressure, Tenant, created_since,
  check_monthly_quota, LagRead, no_redis, no_value, lag_read, check_backpressure, Admitting,
  check_tenant_rate, after_rate, check_tenant_limits, after_pressure, check_job_admission,
}

quota_kept :
    (since : ℕ) (tenant : Tenant) (job_count : ℕ) (db : Db)
    → check_monthly_quota since tenant job_count db ≡ admitted
    → (tenant.quota_jobs_per_month ≡ 0)
      ⊎ (count_where (created_since tenant.id since) db.jobs + job_count
          ≤ tenant.quota_jobs_per_month)
unfolding check_monthly_quota
quota_kept since tenant job_count db h = ground arith

-- The lag is within a threshold, where there is one: it is unknown, or a number up to it.
abbrev pub IsWithin : ℕ → LagRead → Type 0
IsWithin threshold no_redis = Unit
IsWithin threshold no_value = Unit
IsWithin threshold (lag_read lag) = (threshold ≡ 0) ⊎ (lag ≤ threshold)

pressure_kept :
    (threshold : ℕ) (lag : LagRead)
    → check_backpressure threshold lag ≡ admitted
    → IsWithin threshold lag
unfolding check_backpressure
pressure_kept threshold no_redis h = tt
pressure_kept threshold no_value h = tt
pressure_kept threshold (lag_read lag) h = ground arith

-- The tenant of an admitted request, and its quota with the new jobs.
abbrev pub WithinQuota : ℕ → ℕ → Db → Option Tenant → Type 0
WithinQuota since job_count db none = ⊥
WithinQuota since job_count db (some tenant) =
    (tenant.quota_jobs_per_month ≡ 0)
    ⊎ (count_where (created_since tenant.id since) db.jobs + job_count
        ≤ tenant.quota_jobs_per_month)

after_rate-WithinQuota :
    (a : Admitting) (tenant : Tenant) (job_count : ℕ) (db : Db) (r : Verdict × List Counter)
    → (after_rate a tenant job_count db r).0 ≡ admitted
    → WithinQuota a.month_start job_count db (some tenant)
unfolding after_rate
after_rate-WithinQuota a tenant job_count db (admitted, cs) h =
    quota_kept a.month_start tenant job_count db h
after_rate-WithinQuota a tenant job_count db (rate_limited, cs) h = cc
after_rate-WithinQuota a tenant job_count db (over_quota, cs) h = cc
after_rate-WithinQuota a tenant job_count db (backpressure, cs) h = cc

limits-WithinQuota :
    (a : Admitting) (tenant : Option Tenant) (job_count : ℕ) (db : Db) (cs : List Counter)
    → (check_tenant_limits a tenant job_count db cs).0 ≡ admitted
    → WithinQuota a.month_start job_count db tenant
unfolding check_tenant_limits
limits-WithinQuota a none job_count db cs h = cc
limits-WithinQuota a (some tenant) job_count db cs h =
    after_rate-WithinQuota a tenant job_count db (check_tenant_rate a.redis_up a.now tenant cs) h

admitted-lem :
    (a : Admitting) (job_count : ℕ) (db : Db) (cs : List Counter) (v : Verdict)
    → (after_pressure a job_count db cs v).0 ≡ admitted
    → (v ≡ admitted) × WithinQuota a.month_start job_count db a.tenant
unfolding after_pressure
admitted-lem a job_count db cs admitted h = (refl, limits-WithinQuota a a.tenant job_count db cs h)
admitted-lem a job_count db cs rate_limited h = cc
admitted-lem a job_count db cs over_quota h = cc
admitted-lem a job_count db cs backpressure h = cc

admitted-WithinQuota :
    (a : Admitting) (job_count : ℕ) (db : Db) (cs : List Counter)
    → (check_job_admission a job_count db cs).0 ≡ admitted
    → IsWithin a.lag_threshold a.lag × WithinQuota a.month_start job_count db a.tenant
unfolding check_job_admission
admitted-WithinQuota a job_count db cs h =
    let (pressure, quota) =
      admitted-lem a job_count db cs (check_backpressure a.lag_threshold a.lag) h in
    (pressure_kept a.lag_threshold a.lag pressure, quota)

count-append :
    (p : Job → Bool) (jobs : List Job) (job : Job)
    → count_where p (jobs ++ job ∷ []) ≤ count_where p jobs + 1
count-append p [] job = ground arith
count-append p (j ∷ js) job = ground (arith, count-append p js job)

still_within :
    (quota n m : ℕ) → m ≤ n + 1 → (quota ≡ 0) ⊎ (n + 1 ≤ quota) → (quota ≡ 0) ⊎ (m ≤ quota)
still_within quota n m le h = ground arith

-- A submission without a key, admitted for one job of a tenant and then accepted, with no commit by
-- others meanwhile: once the job is in the table, the tenant has at most as many jobs created since
-- the month began as its quota says, where it has one, whether or not Redis answers; and the worker's
-- lag was within its threshold, where it has one and the lag is known.
pub admitted_job_keeps_quota :
    (a : Admitting) (tenant : Tenant) (env : Env) (new : NewJob) (db db' : Db) (job : Job)
    (cs : List Counter)
    → a.tenant ≡ some tenant
    → (check_job_admission a 1 db cs).0 ≡ admitted
    → new.idempotency_key ≡ none
    → create_job env (λ d. d) new db ≡ ok (job, db')
    → IsWithin a.lag_threshold a.lag
      × ((tenant.quota_jobs_per_month ≡ 0)
          ⊎ (count_where
                (λ (j : Job). j.tenant_id == tenant.id && leb a.month_start j.created_at)
                db'.jobs
              ≤ tenant.quota_jobs_per_month))
admitted_job_keeps_quota a tenant env new db db' job cs is h k c =
    let (lag, quota) = admitted-WithinQuota a 1 db cs h in
    let p = created_since tenant.id a.month_start in
    let at_end = (create_job_announces env (λ d. d) new db db' job k c).0 in
    (
      lag,
      still_within tenant.quota_jobs_per_month (count_where p db.jobs) (count_where p db'.jobs)
          (subst (λ js. count_where p js ≤ count_where p db.jobs + 1) (sym at_end)
            (count-append p db.jobs job))
          (subst (λ o. WithinQuota a.month_start 1 db o) is quota),
    )
