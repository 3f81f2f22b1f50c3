-- ===== src/Resolver.antt =====
-- workers/dependency_resolver.py, and the resume sweep of workers/dispatcher.py that backs it up: the
-- two writers that move a WAITING job to PENDING.
pub mod Child
pub mod Promotions
pub mod Announced
use incident_platform.Prelude.{
  ℕ, zero, suc, Bool, true, false, not, ◌&&◌, Option, none, some, List, [], ◌∷◌, ◌==◌, ltb, leb,
  if◌then◌else◌, is_some, is_none, length, take, select,
}
use incident_platform.Store.{
  JobStatus, waiting, same_status, Job, job_submitted, Event, Edge, Db, add_event,
}
use incident_platform.Store.Events.{job_submitted_payload}
use incident_platform.DagPause.{children_of, find_blocking_pause}
use incident_platform.JobRepo.{get_by_id, promote_waiting_to_pending, unmet_count}

-- The event of a promoted child, for the winner of the compare-and-set alone.
abbrev announce_promoted : ℕ → Job → Bool × Db → Db
announce_promoted now child (true, db) =
    add_event now child.tenant_id job_submitted (child.tenant_id, child.user_id)
      (job_submitted_payload child) db
announce_promoted now child (false, db) = db

-- The promotion and its event.
unfoldable pub promote : ℕ → Job → Db → Db
unfolding add_event promote_waiting_to_pending job_submitted_payload
promote now child db = announce_promoted now child (promote_waiting_to_pending now child.id db)

-- Whether the resolver promotes a child: it waits, its parents are done, and no pause holds it.
abbrev ready_row : Option (ℕ → Bool) → Db → Option Job → Bool
ready_row paused db none = false
ready_row paused db (some child) =
    same_status child.status waiting
    && unmet_count child.id db == 0
    && is_none (find_blocking_pause paused db.edges child.id)

unfoldable pub is_ready : Option (ℕ → Bool) → Db → ℕ → Bool
unfolding unmet_count find_blocking_pause
is_ready paused db id = ready_row paused db (get_by_id id db)

promote_row : ℕ → Option Job → Db → Db
unfolding promote
promote_row now none db = db
promote_row now (some child) db = promote now child db

-- The body of the resolver's loop, for one child id.
unfoldable pub resolve_child : ℕ → Option (ℕ → Bool) → ℕ → Db → Db
unfolding promote_row is_ready
resolve_child now paused id db =
    if is_ready paused db id then promote_row now (get_by_id id db) db else db

unfoldable pub resolve_children : ℕ → Option (ℕ → Bool) → List ℕ → Db → Db
unfolding resolve_child
resolve_children now paused [] db = db
resolve_children now paused (id ∷ ids) db =
    resolve_children now paused ids (resolve_child now paused id db)

-- `handle_message` on a `job.completed` event that names a parent.
unfoldable pub handle_completed : ℕ → Option (ℕ → Bool) → ℕ → Db → Db
unfolding resolve_children
handle_completed now paused parent db = resolve_children now paused (children_of db.edges parent) db

abbrev pub resume_sweep_limit : ℕ
resume_sweep_limit = 200

-- A row's place in the sweep's order, `(created_at, id)`.
abbrev after_cursor : Option (ℕ × ℕ) → Job → Bool
after_cursor none job = true
after_cursor (some (created, id)) job =
    if ltb created job.created_at then true else created == job.created_at && ltb id job.id

-- `ORDER BY created_at, id`.
abbrev earlier : Job → Job → Bool
earlier a b =
    if ltb a.created_at b.created_at then true else a.created_at == b.created_at && leb a.id b.id

pub insert_ordered : Job → List Job → List Job
insert_ordered a [] = a ∷ []
insert_ordered a (b ∷ bs) =
    let rest = insert_ordered a bs in if earlier a b then a ∷ b ∷ bs else b ∷ rest

pub ordered : List Job → List Job
unfolding insert_ordered
ordered [] = []
ordered (j ∷ js) = insert_ordered j (ordered js)

-- `_promotable_waiting_stmt`: the page that one pass examines.
unfoldable pub promotable_waiting : Option (ℕ × ℕ) → Db → List Job
unfolding ordered unmet_count
promotable_waiting cursor db = take resume_sweep_limit (
    ordered (
      select
        (λ (job : Job).
          same_status job.status waiting && unmet_count job.id db == 0 && after_cursor cursor job)
        db.jobs))

-- The loop over the page.
unfoldable pub resume_rows : ℕ → Option (ℕ → Bool) → List Job → Db → Db
unfolding promote find_blocking_pause
resume_rows now paused [] db = db
resume_rows now paused (child ∷ rest) db =
    resume_rows now paused rest
      (if is_some (find_blocking_pause paused db.edges child.id) then db else promote now child db)

abbrev last_place : List Job → Option (ℕ × ℕ)
last_place [] = none
last_place (j ∷ []) = some (j.created_at, j.id)
last_place (j ∷ k ∷ rest) = last_place (k ∷ rest)

-- `_resume_unblocked_waiting_once`: the next cursor, and the database.
unfoldable pub resume_unblocked_waiting_once :
    ℕ → Option (ℕ → Bool) → Option (ℕ × ℕ) → Db → Option (ℕ × ℕ) × Db
unfolding promotable_waiting resume_rows
resume_unblocked_waiting_once now paused cursor db =
    let rows = promotable_waiting cursor db in
    (
      if ltb (length rows) resume_sweep_limit then none else last_place rows,
      resume_rows now paused rows db,
    )
