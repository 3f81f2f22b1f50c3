-- ===== src/Dispatch.antt =====
-- `JobDispatcherConsumer` of workers/dispatcher.py: which messages it accepts, the slots that its
-- tasks wait for, and the job ids that it claims to hold. A task is an entry of the list, with the
-- slot of the semaphore once it has it; the run of its job is between the two.
pub mod Held
use incident_platform.Prelude.{
  ℕ, zero, suc, ◌+◌, ◌-◌, Bool, true, false, not, ◌&&◌, Option, none, some, List, [], ◌∷◌, ◌++◌,
  ◌==◌, ltb, leb, if◌then◌else◌, select, length, member,
}

pub record Task : Type 0 where
  pub job_id : ℕ
  pub has_slot : Bool

pub record Dispatcher : Type 0 where
  pub max_dispatch_backlog : ℕ
  pub free_slots : ℕ
  pub in_flight : List Task
  pub in_flight_job_ids : List ℕ

-- `__init__`.
unfoldable pub new_dispatcher : ℕ → ℕ → Dispatcher
new_dispatcher max_dispatch_backlog max_concurrent = record {
  max_dispatch_backlog = max_dispatch_backlog;
  free_slots = max_concurrent;
  in_flight = [];
  in_flight_job_ids = [];
}

pub data Receipt : Type 0 where
  malformed accepted backlog_full : Receipt

unfoldable pub discard_id : ℕ → List ℕ → List ℕ
discard_id id ids = select (λ x. not (x == id)) ids

unfoldable pub add_id : ℕ → List ℕ → List ℕ
add_id id ids = if member id ids then ids else id ∷ ids

-- `handle_message`, of the message's `job_id`.
unfoldable pub handle_message : Option ℕ → Dispatcher → Receipt × Dispatcher
unfolding add_id
handle_message none d = (malformed, d)
handle_message (some id) d =
    if leb d.max_dispatch_backlog (length d.in_flight) then (backlog_full, d) else (
      accepted,
      record d {
        in_flight = d.in_flight ++ record { job_id = id; has_slot = false } ∷ [];
        in_flight_job_ids = add_id id d.in_flight_job_ids;
      },
    )

unfoldable pub task_at : ℕ → List Task → Option Task
task_at n [] = none
task_at zero (t ∷ ts) = some t
task_at (suc n) (t ∷ ts) = task_at n ts

unfoldable pub drop_at : ℕ → List Task → List Task
drop_at n [] = []
drop_at zero (t ∷ ts) = ts
drop_at (suc n) (t ∷ ts) = t ∷ drop_at n ts

unfoldable pub give_slot : ℕ → List Task → List Task
give_slot n [] = []
give_slot zero (t ∷ ts) = record t { has_slot = true } ∷ ts
give_slot (suc n) (t ∷ ts) = t ∷ give_slot n ts

-- The `acquire` of the semaphore by the task of a position that waits for it, where a slot is free.
abbrev pub may_take : ℕ → Option Task → Bool
may_take free none = false
may_take free (some t) = not t.has_slot && ltb 0 free

unfoldable pub acquire_slot : ℕ → Dispatcher → Dispatcher
unfolding task_at give_slot
acquire_slot n d =
    if may_take d.free_slots (task_at n d.in_flight)
    then record d { free_slots = d.free_slots - 1; in_flight = give_slot n d.in_flight }
    else d

end_found : ℕ → Option Task → Dispatcher → Dispatcher
unfolding drop_at discard_id
end_found n none d = d
end_found n (some t) d = record d {
  free_slots = if t.has_slot then d.free_slots + 1 else d.free_slots;
  in_flight = drop_at n d.in_flight;
  in_flight_job_ids = discard_id t.job_id d.in_flight_job_ids;
}

-- The task of a position ends: its run is over, or it is cancelled while it waits for a slot.
unfoldable pub end_task : ℕ → Dispatcher → Dispatcher
unfolding end_found task_at
end_task n d = end_found n (task_at n d.in_flight) d
