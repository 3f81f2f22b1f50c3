-- ===== src/Backstop/Requeued.antt =====
-- A pass over the stale PENDING rows.
use incident_platform.Prelude.{
  ℕ, zero, suc, ◌+◌, ◌≡◌, ◌≤◌, refl, sym, ap, ◌∙◌, true, false, not, some, List, [], ◌∷◌, ◌++◌,
  arith, if◌then◌else◌, select, take, member, map, All, Bool-cases, inl, inr, append-nil,
  append_assoc,
}
use incident_platform.Store.{Job, Event, OutboxEvent, Db, add_event}
use incident_platform.Store.Events.{job_submitted_payload}
use incident_platform.Store.Table.{update_where}
use incident_platform.JobRepo.{has_id}
use incident_platform.Queue.{Delayed}
use incident_platform.Backstop.{
  stale_pending_limit, is_stale_pending, is_delayed, resubmit, stamp_requeued, requeue_rows,
  scan_stale_pending, requeue_stale_pending_once,
}

abbrev pub events : List OutboxEvent → List Event
events es = map (λ (e : OutboxEvent). e.payload) es

abbrev pub job_ids : List Job → List ℕ
job_ids jobs = map (λ (j : Job). j.id) jobs

-- The rows of the scan that no retry waits for.
abbrev pub chosen : List Delayed → List Job → List Job
chosen set rows = select (λ (j : Job). not (is_delayed set j.id)) rows

abbrev pub stamped : ℕ → List ℕ → Job → Job
stamped now ids j = if member j.id ids then record j { requeued_at = some now } else j

events-append :
    (es : List OutboxEvent) (e : OutboxEvent) → events (es ++ e ∷ []) ≡ events es ++ e.payload ∷ []
events-append [] e = refl
events-append (x ∷ es) e = ap (λ l. x.payload ∷ l) (events-append es e)

stamp_more :
    (now id : ℕ) (ids : List ℕ) (jobs : List Job)
    → map
        (stamped now ids)
        (update_where (has_id id) (λ j. record j { requeued_at = some now }) jobs)
      ≡ map (stamped now (id ∷ ids)) jobs
stamp_more now id ids [] = refl
stamp_more now id ids (j ∷ js) = elim (Bool-cases (has_id id j)) [
  | inl e ↦ rw e (elim (Bool-cases (member j.id ids)) [
    | inl m ↦ rw m (ap (λ l. record j { requeued_at = some now } ∷ l) (stamp_more now id ids js))
    | inr m ↦ rw m (ap (λ l. record j { requeued_at = some now } ∷ l) (stamp_more now id ids js))
  ])
  | inr e ↦ rw e (ap (λ l. stamped now ids j ∷ l) (stamp_more now id ids js))
]

stamp_none : (now : ℕ) (jobs : List Job) → map (stamped now []) jobs ≡ jobs
stamp_none now [] = refl
stamp_none now (j ∷ js) = ap (λ l. j ∷ l) (stamp_none now js)

requeue_rows_lem :
    (now : ℕ) (set : List Delayed) (rows : List Job) (db : Db)
    → (events (requeue_rows now set rows db).outbox
        ≡ events db.outbox ++ map job_submitted_payload (chosen set rows))
      × ((requeue_rows now set rows db).jobs
          ≡ map (stamped now (job_ids (chosen set rows))) db.jobs)
unfolding requeue_rows stamp_requeued resubmit add_event
requeue_rows_lem now set [] db = (sym (append-nil _), sym (stamp_none now db.jobs))
requeue_rows_lem now set (row ∷ rows) db = elim (Bool-cases (is_delayed set row.id)) [
  | inl d ↦ rw (d, requeue_rows) (requeue_rows_lem now set rows db)
  | inr d ↦
      let (sent, marked) =
        requeue_rows_lem now set rows (stamp_requeued now row.id (resubmit now row db)) in
      rw (d, requeue_rows)
        (
          sent
              ∙ ap (λ l. l ++ map job_submitted_payload (chosen set rows))
                  (events-append db.outbox _)
              ∙ append_assoc (events db.outbox) (job_submitted_payload row ∷ []) _,
          marked ∙ stamp_more now row.id (job_ids (chosen set rows)) db.jobs,
        )
]

-- A pass re-publishes each stale PENDING row that it scans and that waits out no backoff, once, in
-- the table's order, with the row's own values; it stamps exactly those rows with its moment, leaving
-- their age alone, and touches no other row.
pub requeue_stale_pending_exact :
    (now : ℕ) (set : List Delayed) (db : Db)
    → let rows = chosen set (scan_stale_pending now db) in
      (events (requeue_stale_pending_once now set db).outbox
        ≡ events db.outbox ++ map job_submitted_payload rows)
      × ((requeue_stale_pending_once now set db).jobs ≡ map (stamped now (job_ids rows)) db.jobs)
unfolding requeue_stale_pending_once
requeue_stale_pending_exact now set db = requeue_rows_lem now set (scan_stale_pending now db) db

take-All : (P : Job → Type 0) (n : ℕ) (jobs : List Job) → All P jobs → All P (take n jobs)
take-All P zero jobs h = tt
take-All P (suc n) [] h = tt
take-All P (suc n) (j ∷ js) h = (h.0, take-All P n js h.1)

fresh_stamp :
    (now later : ℕ) (ids : List ℕ) (j : Job)
    → later ≤ now + 300
    → is_stale_pending later (stamped now ids j) ≡ true
    → member (stamped now ids j).id ids ≡ false
fresh_stamp now later ids j h stale = ground arith

unstamped :
    (now later : ℕ) (ids : List ℕ) (jobs : List Job)
    → later ≤ now + 300
    → All
        (λ r. member r.id ids ≡ false)
        (select (is_stale_pending later) (map (stamped now ids) jobs))
unstamped now later ids [] h = tt
unstamped now later ids (j ∷ js) h =
    elim (Bool-cases (is_stale_pending later (stamped now ids j))) [
      | inl t ↦ rw t (fresh_stamp now later ids j h t, unstamped now later ids js h)
      | inr t ↦ rw t (unstamped now later ids js h)
    ]

-- A row that a pass re-published is not scanned again by a pass at most five minutes later, however
-- the delayed set has changed.
pub requeue_once_per_window :
    (now later : ℕ) (set : List Delayed) (db : Db)
    → later ≤ now + 300
    → All
        (λ r. member r.id (job_ids (chosen set (scan_stale_pending now db))) ≡ false)
        (scan_stale_pending later (requeue_stale_pending_once now set db))
unfolding scan_stale_pending
requeue_once_per_window now later set db h = rw ((requeue_stale_pending_exact now set db).1) (
    take-All (λ r. member r.id (job_ids (chosen set (scan_stale_pending now db))) ≡ false)
      stale_pending_limit _
      (unstamped now later (job_ids (chosen set (scan_stale_pending now db))) db.jobs h))
