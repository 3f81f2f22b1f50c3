-- ===== src/Supervisor/Wedged.antt =====
-- A worker whose loops no longer come around, after a restart.
use incident_platform.Prelude.{
  ℕ, ◌+◌, ◌-◌, ◌<◌, ◌≡◌, refl, ap, ◌∙◌, true, false, none, some, List, [], ◌∷◌, String, lt→ltb,
  if◌then◌else◌, is_some, Bool-cases, inl, inr,
}
use incident_platform.Supervisor.{
  Worker, heartbeat, watch, on_worker_done, is_live, is_up, older, worker_status, spawn,
  next_attempt, backoff_for, restart,
}

-- What goes on without the worker's loops: beats, rounds of the watchdog, and the end of the task.
pub data Event : Type 0 where
  beat : (now : ℕ) → Event
  watched : (now : ℕ) → Event
  ended : (error : String) → Event

abbrev pub happen : Event → Worker → Worker
happen (beat now) w = heartbeat now w
happen (watched now) w = watch now w
happen (ended error) w = on_worker_done error w

abbrev pub happen_all : List Event → Worker → Worker
happen_all [] w = w
happen_all (e ∷ es) w = happen_all es (happen e w)

happen-last_tick : (e : Event) (w : Worker) → (happen e w).health.last_tick ≡ w.health.last_tick
unfolding heartbeat watch on_worker_done
happen-last_tick (beat now) w = refl
happen-last_tick (ended error) w = refl
happen-last_tick (watched now) w = elim (Bool-cases (is_live w.worker_task)) [
  | inl t ↦ rw t refl
  | inr t ↦ rw t refl
]

happen_all-last_tick :
    (es : List Event) (w : Worker) → (happen_all es w).health.last_tick ≡ w.health.last_tick
happen_all-last_tick [] w = refl
happen_all-last_tick (e ∷ es) w = happen_all-last_tick es (happen e w) ∙ happen-last_tick e w

old_tick :
    (stale_after now : ℕ) (w : Worker)
    → older false stale_after now w.health.last_tick ≡ true
    → is_some (worker_status stale_after now w) ≡ true
unfolding worker_status
old_tick stale_after now w old = elim (Bool-cases (is_up w.health.state)) [
  | inr u ↦ rw u refl
  | inl u ↦ elim (Bool-cases (is_live w.worker_task)) [
    | inr l ↦ rw (u, l) refl
    | inl l ↦ elim (Bool-cases (older true stale_after now w.health.last_alive)) [
      | inl a ↦ rw (u, l, a) refl
      | inr a ↦ rw (u, l, a, old) refl
    ]
  ]
]

-- Once a worker's loop has ticked, a restarted worker whose loops do not come around is reported when
-- the bound has passed since the restart, delay included, however often the supervisor's own
-- heartbeat beats.
pub wedged_restart_reported :
    (stale_after now ended_at ran_for attempt : ℕ) (w : Worker) (es : List Event)
    → w.tick_seen ≡ true
    → stale_after < now - (ended_at + backoff_for (next_attempt ran_for attempt))
    → is_some (worker_status stale_after now (happen_all es (restart ended_at ran_for attempt w).1))
      ≡ true
unfolding restart spawn heartbeat
wedged_restart_reported stale_after now ended_at ran_for attempt w es seen late =
    let t = ended_at + backoff_for (next_attempt ran_for attempt) in
    let up = (restart ended_at ran_for attempt w).1 in
    let ticked : up.health.last_tick ≡ some t = ap (λ b. if b then some t else none) seen in
    old_tick stale_after now (happen_all es up) (
      ap (older false stale_after now) (happen_all-last_tick es up ∙ ticked)
      ∙ lt→ltb stale_after (now - t) late)
