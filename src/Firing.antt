-- ===== src/Firing.antt =====
-- `_promote_dlq_replay_once` of workers/dispatcher.py: what fires the delayed replays. A replay runs
-- through `JobService.replay_job` in a transaction of its own, whose cache operations follow its
-- commit. `fails` says which items' transactions fail, and `reaches` after which Redis takes what
-- follows.
pub mod Fired
use incident_platform.Prelude.{
  ℕ, String, Bool, true, false, Option, none, some, List, [], ◌∷◌, ◌++◌, if◌then◌else◌,
}
use incident_platform.Store.{Db}
use incident_platform.DagPause.{find_blocking_pause}
use incident_platform.JobService.{
  Env, Caller, service_account, CacheOp, Result, ok, err, replay_job,
}
use incident_platform.Replays.{Replay, Sets, claim_ready, schedule_replay, ack_replay}

abbrev pub paused_replay_defer_seconds : ℕ
paused_replay_defer_seconds = 30

pub record Platform : Type 0 where
  pub db : Db
  pub sets : Sets
  pub cache : List CacheOp

pub record Firing : Type 0 where
  pub env : Env
  pub show : ℕ → String
  pub read : String → Option ℕ
  pub fails : Replay → Bool
  pub reaches : Replay → Bool

abbrev pub replay_caller : Replay → Caller
replay_caller r = record {
  requesting_user_id = none;
  principal_type = service_account;
  principal_id = some r.principal_id;
}

-- A replay that is refused raises, and its transaction is rolled back.
unfoldable pub settle_replay : Result (Db × List CacheOp) → Platform → Platform
settle_replay (err e) w = w
settle_replay (ok (db, ops)) w = record w { db = db; cache = w.cache ++ ops }

unfoldable pub fire : Firing → Replay → Option ℕ → Platform → Platform
unfolding settle_replay schedule_replay replay_job
fire f r none w = settle_replay (replay_job f.env r.job_id r.tenant_id (replay_caller r) w.db) w
fire f r (some paused_by) w =
    if f.reaches r
    then record w {
      sets = (schedule_replay f.env.now f.show r paused_replay_defer_seconds w.sets).1;
    }
    else w

unfoldable pub fire_one : Firing → Replay → Platform → Platform
unfolding fire
fire_one f r w =
    if f.fails r then w else fire f r (find_blocking_pause f.env.paused w.db.edges r.job_id) w

-- The loop. Where Redis takes no acknowledgement it raises, and the pass ends there.
unfoldable pub fire_all : Firing → List Replay → Platform → Platform
unfolding fire_one ack_replay
fire_all f [] w = w
fire_all f (r ∷ rs) w =
    let w' = fire_one f r w in
    let rest = fire_all f rs (record w' { sets = ack_replay f.show r w'.sets }) in
    if f.reaches r then rest else w'

-- `_promote_dlq_replay_once`.
unfoldable pub promote_dlq_replay_once : Firing → Platform → Platform
unfolding fire_all claim_ready
promote_dlq_replay_once f w =
    let (replays, sets) = claim_ready f.env.now f.read w.sets in
    fire_all f replays (record w { sets = sets })
