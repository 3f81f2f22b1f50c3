-- ===== src/JobRepo/Rows.antt =====
-- What a write of repositories/job.py leaves in the row that it names and in the others.
use incident_platform.JobRepo.{
  settle_found, has_id, get_by_id, cancellable, is_target, cascade_targets, cascade_cancelled,
  cascade_round, cascade_loop, cascade_cancel_blocked_children, cascade_max_depth, settle_status,
  emit_terminal_event, written, update_status, announces, cascades,
}
use incident_platform.Prelude.{
  ℕ, zero, suc, ◌+◌, ◌≡◌, refl, ap, ◌∙◌, false, Option, none, some, List, [], ◌∷◌, ◌++◌, inl, inr,
  arith, count_where, is_nil, Bool-cases, Option-cases,
}
use incident_platform.Store.{JobStatus, Job, Db, Message}
use incident_platform.Store.Table.{find_where, update_where}
use incident_platform.Store.Events.{JsonSize}
use incident_platform.JobRepo.Cascade.{announce_jobs}

abbrev pub map_row : (Job → Job) → Option Job → Option Job
map_row f none = none
map_row f (some j) = some (f j)

-- An UPDATE by id is seen by the SELECT by that id.
pub find-update_where :
    (id : ℕ) (f : Job → Job) (jobs : List Job)
    → ((j : Job) → (f j).id ≡ j.id)
    → find_where (has_id id) (update_where (has_id id) f jobs)
      ≡ map_row f (find_where (has_id id) jobs)
find-update_where id f [] h = refl
find-update_where id f (j ∷ js) h = elim (Bool-cases (has_id id j)) [
  | inl e ↦ rw e (rw (h j) (rw e))
  | inr e ↦ rw e (rw e (find-update_where id f js h))
]

-- A row outside the cascade's WHERE survives a round.
round_keeps :
    (id now parent : ℕ) (st : JobStatus) (targets : List ℕ) (jobs : List Job) (job : Job)
    → find_where (has_id id) jobs ≡ some job
    → cancellable job ≡ false
    → find_where
        (has_id id)
        (update_where (is_target targets) (cascade_cancelled now parent st) jobs)
      ≡ some job
unfolding cascade_cancelled
round_keeps id now parent st targets [] job h c = h
round_keeps id now parent st targets (j ∷ js) job h c =
    ground (arith, round_keeps id now parent st targets js job)

loop_keeps :
    (id depth now parent : ℕ) (st : JobStatus) (frontier seen : List ℕ) (count : ℕ) (db : Db)
    (job : Job)
    → get_by_id id db ≡ some job
    → cancellable job ≡ false
    → get_by_id id (cascade_loop depth now parent st frontier seen count db).1 ≡ some job
unfolding cascade_loop cascade_round
loop_keeps id zero now parent st frontier seen count db job h c = h
loop_keeps id (suc depth) now parent st frontier seen count db job h c =
    let targets = cascade_targets db.edges db.jobs frontier seen in
    elim (Bool-cases (is_nil targets)) [
      | inl stop ↦ rw stop h
      | inr more ↦ rw more (
          loop_keeps id depth now parent st targets (seen ++ targets)
            (count + count_where (is_target targets) db.jobs)
            (cascade_round now parent st targets db) job
            (rw announce_jobs (round_keeps id now parent st targets db.jobs job h c)) c)
    ]

pub settle_keeps :
    (id now : ℕ) (size : JsonSize) (st : JobStatus) (message : Option Message) (row : Job) (db : Db)
    (job : Job)
    → get_by_id id db ≡ some job
    → cancellable job ≡ false
    → get_by_id id (settle_status now size st message row db) ≡ some job
unfolding settle_status emit_terminal_event cascade_cancel_blocked_children
settle_keeps id now size st message row db job h c = elim (Bool-cases (cascades st)) [
  | inl e ↦ rw e (
      loop_keeps id cascade_max_depth now row.id st (row.id ∷ []) (row.id ∷ []) 0 _ job
        (elim (Bool-cases (announces st)) [ inl a ↦ rw a h | inr a ↦ rw a h ]) c)
  | inr e ↦ rw e (elim (Bool-cases (announces st)) [ inl a ↦ rw a h | inr a ↦ rw a h ])
]

-- `update_status` on a row that is there returns the row it wrote, and the row stays so through
-- what the write sets off.
pub update_status_row :
    (now : ℕ) (size : JsonSize) (id : ℕ) (st : JobStatus) (extra : Job → Job)
    (message : Option Message) (db : Db) (job : Job)
    → ((j : Job) → (extra j).id ≡ j.id)
    → get_by_id id db ≡ some job
    → cancellable (written now st extra job) ≡ false
    → let r = update_status now size id st extra message db in
      (r.0 ≡ some (written now st extra job)) × (get_by_id id r.1 ≡ some (written now st extra job))
unfolding update_status
update_status_row now size id st extra message db job hid h c =
    let f = written now st extra in
    let found : find_where (has_id id) (update_where (has_id id) f db.jobs) ≡ some (f job) =
      find-update_where id f db.jobs hid ∙ ap (map_row f) h in
    rw found (refl, settle_keeps id now size st message (f job) _ (f job) found c)

-- A write that neither announces nor cascades is its UPDATE alone.
pub update_status_quiet :
    (now : ℕ) (size : JsonSize) (id : ℕ) (st : JobStatus) (extra : Job → Job)
    (message : Option Message) (db : Db)
    → announces st ≡ false
    → cascades st ≡ false
    → (update_status now size id st extra message db).1
      ≡ record db { jobs = update_where (has_id id) (written now st extra) db.jobs }
unfolding update_status
update_status_quiet now size id st extra message db a c =
    elim (Option-cases
      (find_where (has_id id) (update_where (has_id id) (written now st extra) db.jobs))) [
        | inl gone ↦ rw (gone, settle_found)
        | inr (job, there) ↦ rw (there, settle_found) (rw (a, c))
      ]
