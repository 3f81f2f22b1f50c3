-- ===== src/Supervisor.antt =====
-- workers/supervisor.py: the supervision of the worker task and its liveness. Times and delays are in
-- seconds; a task is what is known of it, whether it is done.
pub mod Wedged
use incident_platform.Prelude.{
  ℕ, suc, zero, ◌+◌, ◌-◌, ◌*◌, ◌^◌, min, Bool, true, false, not, ◌&&◌, ◌||◌, Option, none, some,
  List, [], ◌∷◌, String, leb, ltb, if◌then◌else◌,
}

pub data WorkerState : Type 0 where
  not_started running restarting stopped : WorkerState

pub record WorkerHealth : Type 0 where
  pub state : WorkerState
  pub last_alive : Option ℕ
  pub last_tick : Option ℕ
  pub restarts : ℕ
  pub last_error : Option String

pub data Task : Type 0 where
  no_task : Task
  task : (done : Bool) → Task

-- The module's globals.
pub record Worker : Type 0 where
  pub health : WorkerHealth
  pub worker_task : Task
  pub tick_seen : Bool

unfoldable pub heartbeat : ℕ → Worker → Worker
heartbeat now w = record w { health = record w.health { last_alive = some now } }

unfoldable pub worker_tick : ℕ → Worker → Worker
worker_tick now w = record w { health = record w.health { last_tick = some now }; tick_seen = true }

abbrev pub is_live : Task → Bool
is_live no_task = false
is_live (task done) = not done

-- `worker_status`: none where the worker is healthy.
pub data Reason : Type 0 where
  not_up no_running_task no_heartbeat no_worker_loop_tick : Reason

-- Whether more than `stale_after` has passed since a time; a time that is missing is `missing`.
abbrev pub older : Bool → ℕ → ℕ → Option ℕ → Bool
older missing stale_after now none = missing
older missing stale_after now (some t) = ltb stale_after (now - t)

abbrev pub is_up : WorkerState → Bool
is_up not_started = false
is_up stopped = false
is_up _ = true

unfoldable pub worker_status : ℕ → ℕ → Worker → Option Reason
worker_status stale_after now w =
    if not (is_up w.health.state)
    then some not_up
    else if not (is_live w.worker_task)
    then some no_running_task
    else if older true stale_after now w.health.last_alive
    then some no_heartbeat
    else if older false stale_after now w.health.last_tick
    then some no_worker_loop_tick
    else none

-- `_spawn`.
unfoldable pub spawn : ℕ → Worker → Worker
unfolding heartbeat
spawn now w =
    let w' = heartbeat now (record w { worker_task = task false }) in
    record w' { health = record w'.health { last_tick = if w.tick_seen then some now else none } }

-- `start`, up to the supervisor's own task.
unfoldable pub start_worker : ℕ → Worker → Worker
unfolding heartbeat spawn
start_worker now w = spawn now (
    heartbeat now
      (record w { health = record w.health { state = running; restarts = 0; last_error = none } }))

-- `stop`, and the end of the supervisor by a cancellation: the worker is cancelled and awaited.
unfoldable pub stop_worker : Worker → Worker
stop_worker w =
    let h = w.health in
    record w {
      health = record h {
        state = stopped;
        last_error = if is_live w.worker_task then some "cancelled" else h.last_error;
      };
      worker_task = no_task;
    }

-- `_on_worker_done`: a task that ends leaves how it did.
unfoldable pub on_worker_done : String → Worker → Worker
on_worker_done error w = record w {
  health = record w.health { last_error = some error };
  worker_task = task true;
}

-- A round of `_heartbeat_loop`.
unfoldable pub watch : ℕ → Worker → Worker
unfolding heartbeat
watch now w = if is_live w.worker_task then heartbeat now w else w

abbrev pub restart_backoff_max_seconds : ℕ
restart_backoff_max_seconds = 30

abbrev pub stable_run_seconds : ℕ
stable_run_seconds = 60

unfoldable pub backoff_for : ℕ → ℕ
backoff_for attempt =
    if leb attempt 1 then 0 else min (1 * 2 ^ (attempt - 2)) restart_backoff_max_seconds

-- A round of `_supervise`: the child ran for a time and ended at `now`. The attempt and the delay
-- after it.
unfoldable pub next_attempt : ℕ → ℕ → ℕ
next_attempt ran_for attempt = if leb stable_run_seconds ran_for then 0 else attempt + 1

unfoldable pub restart : ℕ → ℕ → ℕ → Worker → ℕ × Worker
unfolding next_attempt backoff_for spawn
restart now ran_for attempt w =
    let attempt' = next_attempt ran_for attempt in
    let h = w.health in
    let w' = record w { health = record h { state = restarting; restarts = h.restarts + 1 } } in
    let up = spawn (now + backoff_for attempt') w' in
    (attempt', record up { health = record up.health { state = running } })
