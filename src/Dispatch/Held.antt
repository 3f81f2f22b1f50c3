-- ===== src/Dispatch/Held.antt =====
-- What bounds the dispatcher's tasks, and which of them its ids stand for.
use incident_platform.Prelude.{
  ℕ, zero, suc, ◌+◌, ◌≡◌, subst, some_eq, ◌≤◌, refl, ap, ◌∙◌, Bool, true, false, Option, none, some,
  List, [], ◌∷◌, ◌++◌, arith, leb, if◌then◌else◌, length, length-append, member, count_where,
  Bool-cases, Option-cases, inl, inr, any, ◌==◌, ◌-◌, ltb, ◌&&◌,
}
use incident_platform.Dispatch.{
  Task, Dispatcher, new_dispatcher, accepted, handle_message, task_at, drop_at, give_slot, may_take,
  acquire_slot, end_found, end_task, discard_id, add_id,
}

pub data Step : Dispatcher → Dispatcher → Type 0 where
  receives : {d : Dispatcher} (id : Option ℕ) → Step d (handle_message id d).1
  acquires : {d : Dispatcher} (n : ℕ) → Step d (acquire_slot n d)
  ends : {d : Dispatcher} (n : ℕ) → Step d (end_task n d)

pub data Reachable (max_dispatch_backlog max_concurrent : ℕ) : Dispatcher → Type 0 where
  start :
      Reachable max_dispatch_backlog max_concurrent
        (new_dispatcher max_dispatch_backlog max_concurrent)
  next :
      {d d' : Dispatcher}
      → Reachable max_dispatch_backlog max_concurrent d
      → Step d d'
      → Reachable max_dispatch_backlog max_concurrent d'

abbrev pub holders : List Task → ℕ
holders ts = count_where (λ (t : Task). t.has_slot) ts

abbrev pub IsBounded : ℕ → ℕ → Dispatcher → Type 0
IsBounded backlog concurrent d =
    (d.max_dispatch_backlog ≡ backlog)
    × (length d.in_flight ≤ backlog)
    × (holders d.in_flight + d.free_slots ≡ concurrent)

holders-append :
    (ts : List Task) (id : ℕ)
    → holders (ts ++ record { job_id = id; has_slot = false } ∷ []) ≡ holders ts
holders-append [] id = refl
holders-append (t ∷ ts) id = ground (arith, holders-append ts id)

length-give : (n : ℕ) (ts : List Task) → length (give_slot n ts) ≡ length ts
unfolding give_slot
length-give n [] = refl
length-give zero (t ∷ ts) = refl
length-give (suc n) (t ∷ ts) = ap suc (length-give n ts)

holders-give :
    (n free : ℕ) (ts : List Task)
    → may_take free (task_at n ts) ≡ true
    → holders (give_slot n ts) ≡ suc (holders ts)
unfolding give_slot task_at
holders-give n free [] h = cc
holders-give zero free (t ∷ ts) h = ground arith
holders-give (suc n) free (t ∷ ts) h = ground (arith, holders-give n free ts h)

length-drop : (n : ℕ) (ts : List Task) → length (drop_at n ts) ≤ length ts
unfolding drop_at
length-drop n [] = omega arith
length-drop zero (t ∷ ts) = omega arith
length-drop (suc n) (t ∷ ts) = omega (arith, length-drop n ts)

first_holder :
    (x : Task) (n : ℕ) → n + (if x.has_slot then 1 else 0) ≡ (if x.has_slot then suc n else n)
first_holder x n = ground arith

holders-drop :
    (n : ℕ) (ts : List Task) (t : Task)
    → task_at n ts ≡ some t
    → holders (drop_at n ts) + (if t.has_slot then 1 else 0) ≡ holders ts
unfolding drop_at task_at
holders-drop n [] t h = cc
holders-drop zero (x ∷ ts) t h =
    subst (λ (y : Task). holders ts + (if y.has_slot then 1 else 0) ≡ holders (x ∷ ts))
      (some_eq x t h) (first_holder x (holders ts))
holders-drop (suc n) (x ∷ ts) t h = ground (arith, holders-drop n ts t h)

more_free :
    (a b c f : ℕ) (slot : Bool)
    → a + (if slot then 1 else 0) ≡ b
    → b + f ≡ c
    → a + (if slot then f + 1 else f) ≡ c
more_free a b c f slot h k = ground arith

room : (backlog n : ℕ) → leb backlog n ≡ false → n + 1 ≤ backlog
room backlog n h = ground arith

has_free : (free : ℕ) (t : Option Task) → may_take free t ≡ true → 1 ≤ free
has_free free none h = cc
has_free free (some t) h = ground arith

module _ (backlog concurrent : ℕ) where
  receive-IsBounded :
      (id : Option ℕ) (d : Dispatcher)
      → IsBounded backlog concurrent d
      → IsBounded backlog concurrent (handle_message id d).1
  unfolding handle_message
  receive-IsBounded none d h = h
  receive-IsBounded (some id) d (cap, few, slots) =
      elim (Bool-cases (leb d.max_dispatch_backlog (length d.in_flight))) [
        | inl full ↦ rw full (cap, few, slots)
        | inr fits ↦ rw fits (
          cap,
          omega (
            arith,
            room d.max_dispatch_backlog (length d.in_flight) fits,
            cap,
            length-append d.in_flight (record { job_id = id; has_slot = false } ∷ []),
          ),
          ap (λ n. n + d.free_slots) (holders-append d.in_flight id) ∙ slots,
        )
      ]

  acquire-IsBounded :
      (n : ℕ) (d : Dispatcher)
      → IsBounded backlog concurrent d
      → IsBounded backlog concurrent (acquire_slot n d)
  unfolding acquire_slot
  acquire-IsBounded n d (cap, few, slots) =
      elim (Bool-cases (may_take d.free_slots (task_at n d.in_flight))) [
        | inr waits ↦ rw waits (cap, few, slots)
        | inl takes ↦ rw takes (
          cap,
          omega (arith, length-give n d.in_flight, few),
          omega (
            arith,
            holders-give n d.free_slots d.in_flight takes,
            has_free d.free_slots (task_at n d.in_flight) takes,
            slots,
          ),
        )
      ]

  end-IsBounded :
      (n : ℕ) (d : Dispatcher)
      → IsBounded backlog concurrent d
      → IsBounded backlog concurrent (end_task n d)
  unfolding end_task end_found
  end-IsBounded n d (cap, few, slots) = elim (Option-cases (task_at n d.in_flight)) [
    | inl gone ↦ rw (gone, end_found) (cap, few, slots)
    | inr (t, there) ↦
        rw (there, end_found)
          (
            cap,
            omega (arith, length-drop n d.in_flight, few),
            more_free _ _ _ d.free_slots t.has_slot (holders-drop n d.in_flight t there) slots,
          )
  ]

  Step-IsBounded :
      {d d' : Dispatcher}
      → Step d d'
      → IsBounded backlog concurrent d
      → IsBounded backlog concurrent d'
  Step-IsBounded (receives id) h = receive-IsBounded id _ h
  Step-IsBounded (acquires n) h = acquire-IsBounded n _ h
  Step-IsBounded (ends n) h = end-IsBounded n _ h

-- However messages, waits for a slot and ends of tasks follow one another, the dispatcher has at most
-- as many tasks as its backlog allows, and the tasks that have a slot and the free slots are together
-- the slots it began with: none is lost, and no more jobs run than it has slots.
pub dispatch-IsBounded :
    (backlog concurrent : ℕ) (d : Dispatcher)
    → Reachable backlog concurrent d
    → IsBounded backlog concurrent d
unfolding new_dispatcher
dispatch-IsBounded backlog concurrent d start = (refl, omega arith, omega arith)
dispatch-IsBounded backlog concurrent d (next r s) =
    Step-IsBounded backlog concurrent s (dispatch-IsBounded backlog concurrent _ r)

task_at-end : (ts : List Task) (t : Task) → task_at (length ts) (ts ++ t ∷ []) ≡ some t
unfolding task_at
task_at-end [] t = refl
task_at-end (x ∷ ts) t = task_at-end ts t

drop_at-end : (ts : List Task) (t : Task) → drop_at (length ts) (ts ++ t ∷ []) ≡ ts
unfolding drop_at
drop_at-end [] t = refl
drop_at-end (x ∷ ts) t = ap (λ l. x ∷ l) (drop_at-end ts t)

discarded : (id : ℕ) (ids : List ℕ) → member id (discard_id id ids) ≡ false
unfolding discard_id
discarded id [] = refl
discarded id (x ∷ ids) = ground (arith, discarded id ids)

give_slot-end :
    (ts : List Task) (id : ℕ)
    → give_slot (length ts) (ts ++ record { job_id = id; has_slot = false } ∷ [])
      ≡ ts ++ record { job_id = id; has_slot = true } ∷ []
unfolding give_slot
give_slot-end [] id = refl
give_slot-end (x ∷ ts) id = ap (λ l. x ∷ l) (give_slot-end ts id)

-- A task that has its slot runs the job.
abbrev pub runs : ℕ → Dispatcher → Bool
runs id d = any (λ (t : Task). t.has_slot && t.job_id == id) d.in_flight

-- A dispatcher that takes another message for a job: its task gets a slot, and ends at once, because
-- the job's row is RUNNING.
abbrev pub redelivered : ℕ → Dispatcher → Dispatcher
redelivered id d =
    end_task (length d.in_flight) (acquire_slot (length d.in_flight) (handle_message (some id) d).1)

redelivered-exact :
    (id : ℕ) (d : Dispatcher)
    → leb d.max_dispatch_backlog (length d.in_flight) ≡ false
    → ltb 0 d.free_slots ≡ true
    → redelivered id d ≡ record d {
      free_slots = (d.free_slots - 1) + 1;
      in_flight_job_ids = discard_id id (add_id id d.in_flight_job_ids);
    }
unfolding handle_message acquire_slot end_task end_found
redelivered-exact id d fits free =
    let waiting_task : Task = record { job_id = id; has_slot = false } in
    let running : Task = record { job_id = id; has_slot = true } in
    rw fits (
      rw (task_at-end d.in_flight waiting_task, free)
        (rw (give_slot-end d.in_flight id) (
          rw (task_at-end d.in_flight running, end_found)
            (rw (drop_at-end d.in_flight running) refl))))

slot_back : (n : ℕ) → ltb 0 n ≡ true → (n - 1) + 1 ≡ n
slot_back n h = ground arith

-- Where a task of this dispatcher runs a job, and there is room for a task and a free slot, another
-- message for the job is accepted. Once the task of that message has had its slot and ended, the
-- tasks and the free slots are those of before, so the job still runs here, and its id is no longer
-- among the ids in flight.
pub redelivery_drops_claim :
    (id : ℕ) (d : Dispatcher)
    → leb d.max_dispatch_backlog (length d.in_flight) ≡ false
    → ltb 0 d.free_slots ≡ true
    → runs id d ≡ true
    → ((handle_message (some id) d).0 ≡ accepted)
      × ((redelivered id d).in_flight ≡ d.in_flight)
      × ((redelivered id d).free_slots ≡ d.free_slots)
      × (runs id (redelivered id d) ≡ true)
      × (member id (redelivered id d).in_flight_job_ids ≡ false)
unfolding handle_message
redelivery_drops_claim id d fits free here =
    let is = redelivered-exact id d fits free in
    let same = ap (λ (x : Dispatcher). x.in_flight) is in
    (
      rw fits refl,
      same,
      ap (λ (x : Dispatcher). x.free_slots) is ∙ slot_back d.free_slots free,
      ap (λ ts. any (λ (t : Task). t.has_slot && t.job_id == id) ts) same ∙ here,
      ap (λ (x : Dispatcher). member id x.in_flight_job_ids) is
          ∙ discarded id (add_id id d.in_flight_job_ids),
    )
