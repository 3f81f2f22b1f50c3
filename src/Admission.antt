-- ===== src/Admission.antt =====
-- utils/rate_limit.py, utils/quota.py, utils/backpressure.py and utils/admission.py: the checks that
-- a request passes before it creates jobs. A counter's time to live, twice its window, outlives the
-- window that its key names, so the counters are kept. A cap that is not positive is 0, and the first
-- instant of a month is a function of the clock.
pub mod Windows
pub mod Quotas
use incident_platform.Prelude.{
  ℕ, zero, suc, ◌+◌, ◌/◌, Bool, true, false, not, ◌&&◌, Option, none, some, List, [], ◌∷◌, String,
  str_eq, ◌==◌, ltb, leb, if◌then◌else◌, count_where,
}
use incident_platform.Store.{Job, Db}

-- A counter of Redis: `rate:{key}:{window_start}`.
pub record Counter : Type 0 where
  pub key : String
  pub window_start : ℕ
  pub count : ℕ

abbrev pub is_counter : String → ℕ → Counter → Bool
is_counter key window_start c = str_eq key c.key && window_start == c.window_start

-- INCR: the new count, and the counters.
unfoldable pub incr : String → ℕ → List Counter → ℕ × List Counter
incr key window_start [] = (1, record { key = key; window_start = window_start; count = 1 } ∷ [])
incr key window_start (c ∷ cs) =
    let (count, cs') = incr key window_start cs in
    if is_counter key window_start c
    then (c.count + 1, record c { count = c.count + 1 } ∷ cs)
    else (count, c ∷ cs')

-- How a check ends: the class of what it raises.
pub data Verdict : Type 0 where
  admitted rate_limited over_quota backpressure : Verdict

unfoldable pub judged : ℕ → ℕ × List Counter → Verdict × List Counter
judged limit (count, cs) = (if ltb limit count then rate_limited else admitted, cs)

-- `_check`, on a Redis that answers.
unfoldable pub check : ℕ → String → ℕ → ℕ → List Counter → Verdict × List Counter
unfolding judged incr
check now key limit window cs = judged limit (incr key (now / window) cs)

-- `check_client_rate_limit` and `check_identity_rate_limit`: on a Redis that does not answer the
-- request goes on.
unfoldable pub check_rate_limit : Bool → ℕ → String → ℕ → ℕ → List Counter → Verdict × List Counter
unfolding check
check_rate_limit redis_up now key limit window cs =
    if redis_up then check now key limit window cs else (admitted, cs)

-- A row of `tenants`, with the key of its counters, `tenant:{id}`.
pub record Tenant : Type 0 where
  pub id : ℕ
  pub rate_key : String
  pub rate_limit_per_minute : ℕ
  pub quota_jobs_per_month : ℕ

-- `_check_tenant_rate`.
unfoldable pub check_tenant_rate : Bool → ℕ → Tenant → List Counter → Verdict × List Counter
unfolding check_rate_limit
check_tenant_rate redis_up now tenant cs =
    if tenant.rate_limit_per_minute == 0
    then (admitted, cs)
    else check_rate_limit redis_up now tenant.rate_key tenant.rate_limit_per_minute 60 cs

abbrev pub created_since : ℕ → ℕ → Job → Bool
created_since tenant since job = job.tenant_id == tenant && leb since job.created_at

-- `_check_monthly_quota`.
unfoldable pub check_monthly_quota : ℕ → Tenant → ℕ → Db → Verdict
check_monthly_quota since tenant job_count db =
    if tenant.quota_jobs_per_month == 0
    then admitted
    else if ltb tenant.quota_jobs_per_month
        (count_where (created_since tenant.id since) db.jobs + job_count)
    then over_quota
    else admitted

-- What the read of the consumer lag gives: Redis does not answer, there is no value or none that
-- reads as a number, or the lag.
pub data LagRead : Type 0 where
  no_redis no_value : LagRead
  lag_read : (lag : ℕ) → LagRead

-- `check_backpressure`.
abbrev pub lag_over : ℕ → LagRead → Bool
lag_over threshold no_redis = false
lag_over threshold no_value = false
lag_over threshold (lag_read lag) = ltb threshold lag

unfoldable pub check_backpressure : ℕ → LagRead → Verdict
check_backpressure threshold read =
    if threshold == 0 then admitted else if lag_over threshold read then backpressure else admitted

-- What a request meets.
pub record Admitting : Type 0 where
  pub now : ℕ
  pub month_start : ℕ
  pub lag_threshold : ℕ
  pub lag : LagRead
  pub redis_up : Bool
  pub tenant : Option Tenant

unfoldable pub after_rate :
    Admitting → Tenant → ℕ → Db → Verdict × List Counter → Verdict × List Counter
unfolding check_monthly_quota
after_rate a tenant job_count db (admitted, cs) =
    (check_monthly_quota a.month_start tenant job_count db, cs)
after_rate a tenant job_count db (refusal, cs) = (refusal, cs)

-- `check_tenant_limits`.
unfoldable pub check_tenant_limits :
    Admitting → Option Tenant → ℕ → Db → List Counter → Verdict × List Counter
unfolding after_rate check_tenant_rate
check_tenant_limits a none job_count db cs = (over_quota, cs)
check_tenant_limits a (some tenant) job_count db cs =
    after_rate a tenant job_count db (check_tenant_rate a.redis_up a.now tenant cs)

unfoldable pub after_pressure : Admitting → ℕ → Db → List Counter → Verdict → Verdict × List Counter
unfolding check_tenant_limits
after_pressure a job_count db cs admitted = check_tenant_limits a a.tenant job_count db cs
after_pressure a job_count db cs refusal = (refusal, cs)

-- `check_job_admission`.
unfoldable pub check_job_admission : Admitting → ℕ → Db → List Counter → Verdict × List Counter
unfolding after_pressure check_backpressure
check_job_admission a job_count db cs =
    after_pressure a job_count db cs (check_backpressure a.lag_threshold a.lag)
