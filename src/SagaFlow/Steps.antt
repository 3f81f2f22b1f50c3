-- ===== src/SagaFlow/Steps.antt =====
-- What the cancellation of the steps to come, in `_handle_failure` of workers/saga_coordinator.py,
-- does to a row of the saga, and that it leaves the table of sagas alone.
use incident_platform.Prelude.{
  ==_sym, select, ℕ, zero, suc, ◌+◌, ◌≡◌, ◌⊎◌, refl, sym, ◌∙◌, subst, true, false, Option, none,
  some, List, [], ◌∷◌, ◌++◌, inl, inr, arith, ◌==◌, ==_iff, Bool-cases, Option-cases, is_nil, map,
  member, count_where,
}
use incident_platform.SagaFlow.{cancel_note, cancel_steps}
use incident_platform.JobRepo.{
  cascade_cancelled, newly_cancelled, has_id, get_by_id, cancellable, update_status, settle_found,
  settle_status, written, announce_cancelled, cascade_round, cascade_loop,
  cascade_cancel_blocked_children, cascade_targets, is_target, cascade_max_depth,
  emit_terminal_event, announces, cascades,
}
use incident_platform.Store.{JobStatus, cancelled, Job, Db, Message, add_event}
use incident_platform.Store.Table.{find_where, update_where}
use incident_platform.Store.Events.{JsonSize}
use incident_platform.JobRepo.Rows.{update_status_row, settle_keeps}

announce_cancelled-sagas :
    (now : ℕ) (js : List Job) (db : Db) → (announce_cancelled now js db).sagas ≡ db.sagas
unfolding announce_cancelled add_event
announce_cancelled-sagas now [] db = refl
announce_cancelled-sagas now (j ∷ js) db = announce_cancelled-sagas now js _

round-sagas :
    (now parent : ℕ) (st : JobStatus) (targets : List ℕ) (db : Db)
    → (cascade_round now parent st targets db).sagas ≡ db.sagas
unfolding cascade_round
round-sagas now parent st targets db =
    let jobs = update_where (is_target targets) (cascade_cancelled now parent st) db.jobs in
    announce_cancelled-sagas now (select (newly_cancelled now targets) jobs)
      (record db { jobs = jobs })

loop-sagas :
    (depth now parent : ℕ) (st : JobStatus) (frontier seen : List ℕ) (count : ℕ) (db : Db)
    → (cascade_loop depth now parent st frontier seen count db).1.sagas ≡ db.sagas
unfolding cascade_loop
loop-sagas zero now parent st frontier seen count db = refl
loop-sagas (suc depth) now parent st frontier seen count db =
    let targets = cascade_targets db.edges db.jobs frontier seen in
    elim (Bool-cases (is_nil targets)) [
      | inl stop ↦ rw stop refl
      | inr more ↦ rw more (
          loop-sagas depth now parent st targets (seen ++ targets)
            (count + count_where (is_target targets) db.jobs)
            (cascade_round now parent st targets db)
          ∙ round-sagas now parent st targets db)
    ]

settle-sagas :
    (now : ℕ) (size : JsonSize) (st : JobStatus) (message : Option Message) (row : Job) (db : Db)
    → (settle_status now size st message row db).sagas ≡ db.sagas
unfolding settle_status emit_terminal_event cascade_cancel_blocked_children add_event
settle-sagas now size st message row db = elim (Bool-cases (cascades st)) [
  | inl e ↦ rw e (
      loop-sagas cascade_max_depth now row.id st (row.id ∷ []) (row.id ∷ []) 0 _
      ∙ elim (Bool-cases (announces st)) [ inl a ↦ rw a refl | inr a ↦ rw a refl ])
  | inr e ↦ rw e (elim (Bool-cases (announces st)) [ inl a ↦ rw a refl | inr a ↦ rw a refl ])
]

-- No status write touches the table of sagas.
pub update_status-sagas :
    (now : ℕ) (size : JsonSize) (id : ℕ) (st : JobStatus) (extra : Job → Job)
    (message : Option Message) (db : Db)
    → (update_status now size id st extra message db).1.sagas ≡ db.sagas
unfolding update_status
update_status-sagas now size id st extra message db =
    elim (Option-cases
      (find_where (has_id id) (update_where (has_id id) (written now st extra) db.jobs))) [
        | inl gone ↦ rw (gone, settle_found) refl
        | inr (job, there) ↦ rw (there, settle_found) (settle-sagas now size st message job _)
      ]

find-other :
    (k id now : ℕ) (st : JobStatus) (extra : Job → Job) (jobs : List Job)
    → ((j : Job) → (extra j).id ≡ j.id)
    → (k == id) ≡ false
    → find_where (has_id k) (update_where (has_id id) (written now st extra) jobs)
      ≡ find_where (has_id k) jobs
unfolding written
find-other k id now st extra [] h n = refl
find-other k id now st extra (j ∷ js) h n =
    let tail = find-other k id now st extra js h n in
    elim (Bool-cases (has_id id j)) [
      | inl e ↦
          let apart : (j.id == k) ≡ false = rw ((==_iff j.id id).0 e) (==_sym false k id n) in
          rw e (rw (h j) (rw apart tail))
      | inr other ↦
          rw other (elim (Bool-cases (has_id k j)) [ inl t ↦ rw t refl | inr f ↦ rw f tail ])
    ]

-- A write of one row leaves a row of a saga with another id as it was.
pub update_status_other :
    (k now : ℕ) (size : JsonSize) (id : ℕ) (st : JobStatus) (extra : Job → Job)
    (message : Option Message) (db : Db) (job : Job)
    → ((j : Job) → (extra j).id ≡ j.id)
    → (k == id) ≡ false
    → get_by_id k db ≡ some job
    → cancellable job ≡ false
    → get_by_id k (update_status now size id st extra message db).1 ≡ some job
unfolding update_status
update_status_other k now size id st extra message db job hid n h c =
    let kept = find-other k id now st extra db.jobs hid n ∙ h in
    elim (Option-cases
      (find_where (has_id id) (update_where (has_id id) (written now st extra) db.jobs))) [
        | inl gone ↦ rw (gone, settle_found) kept
        | inr (row, there) ↦
            rw (there, settle_found) (settle_keeps k now size st message row _ job kept c)
      ]

pub cancel_steps-sagas :
    (now : ℕ) (size : JsonSize) (failed_id : ℕ) (ws : List Job) (count : ℕ) (db : Db)
    → (cancel_steps now size failed_id ws count db).1.sagas ≡ db.sagas
unfolding cancel_steps
cancel_steps-sagas now size failed_id [] count db = refl
cancel_steps-sagas now size failed_id (w ∷ ws) count db = elim (Bool-cases (w.id == failed_id)) [
  | inl e ↦ rw e (cancel_steps-sagas now size failed_id ws count db)
  | inr n ↦ rw n (
      cancel_steps-sagas now size failed_id ws (count + 1) _
      ∙ update_status-sagas now size w.id cancelled cancel_note none db)
]

-- The step that failed is passed over.
pub cancel_steps-failed :
    (now : ℕ) (size : JsonSize) (failed_id : ℕ) (ws : List Job) (count : ℕ) (db : Db) (job : Job)
    → get_by_id failed_id db ≡ some job
    → cancellable job ≡ false
    → get_by_id failed_id (cancel_steps now size failed_id ws count db).1 ≡ some job
unfolding cancel_steps
cancel_steps-failed now size failed_id [] count db job h c = h
cancel_steps-failed now size failed_id (w ∷ ws) count db job h c =
    elim (Bool-cases (w.id == failed_id)) [
      | inl e ↦ rw e (cancel_steps-failed now size failed_id ws count db job h c)
      | inr n ↦ rw n (
          cancel_steps-failed now size failed_id ws (count + 1) _ job
            (update_status_other failed_id now size w.id cancelled cancel_note none db job
              (λ j. refl) (==_sym false w.id failed_id n) h c)
            c)
    ]

-- A row that is CANCELLED.
abbrev pub IsCancelled : ℕ → Db → Type 0
IsCancelled k db = (job : Job) × (get_by_id k db ≡ some job) × (job.status ≡ cancelled)

cancelled-cancellable : (job : Job) → job.status ≡ cancelled → cancellable job ≡ false
cancelled-cancellable job h = rw h refl

-- One turn of the loop on a row of the saga.
cancel-one :
    (k now : ℕ) (size : JsonSize) (w : Job) (db : Db) (job : Job)
    → get_by_id k db ≡ some job
    → cancellable job ≡ false
    → let db' = (update_status now size w.id cancelled cancel_note none db).1 in
      (((k == w.id) ≡ true) × IsCancelled k db')
      ⊎ (((k == w.id) ≡ false) × (get_by_id k db' ≡ some job))
unfolding written
cancel-one k now size w db job h c = elim (Bool-cases (k == w.id)) [
  | inl e ↦
      let same = (==_iff k w.id).0 e in
      inl (
        e,
        (
          written now cancelled cancel_note job,
          subst
              (λ i.
                get_by_id i (update_status now size w.id cancelled cancel_note none db).1
                ≡ some (written now cancelled cancel_note job))
              (sym same)
              (update_status_row now size w.id cancelled cancel_note none db job (λ j. refl)
                (subst (λ i. get_by_id i db ≡ some job) same h) refl).1,
          refl,
        ),
      )
  | inr n ↦
      inr
        (n, update_status_other k now size w.id cancelled cancel_note none db job (λ j. refl) n h c)
]

steps-stay :
    (k now : ℕ) (size : JsonSize) (failed_id : ℕ) (ws : List Job) (count : ℕ) (db : Db)
    → IsCancelled k db
    → IsCancelled k (cancel_steps now size failed_id ws count db).1
unfolding cancel_steps
steps-stay k now size failed_id [] count db h = h
steps-stay k now size failed_id (w ∷ ws) count db (job, there, s) =
    elim (Bool-cases (w.id == failed_id)) [
      | inl e ↦ rw e (steps-stay k now size failed_id ws count db (job, there, s))
      | inr n ↦ rw n (
          steps-stay k now size failed_id ws (count + 1) _
            (elim (cancel-one k now size w db job there (cancelled-cancellable job s)) [
              | inl (e, gone) ↦ gone
              | inr (e, kept) ↦ (job, kept, s)
            ]))
    ]

-- Every step in the list but the one that failed ends CANCELLED.
pub cancel_steps-IsCancelled :
    (k now : ℕ) (size : JsonSize) (failed_id : ℕ) (ws : List Job) (count : ℕ) (db : Db) (job : Job)
    → get_by_id k db ≡ some job
    → cancellable job ≡ false
    → (k == failed_id) ≡ false
    → member k (map (λ (w : Job). w.id) ws) ≡ true
    → IsCancelled k (cancel_steps now size failed_id ws count db).1
unfolding cancel_steps
cancel_steps-IsCancelled k now size failed_id [] count db job h c n m = cc
cancel_steps-IsCancelled k now size failed_id (w ∷ ws) count db job h c n m =
    elim (Bool-cases (w.id == failed_id)) [
      | inl e ↦
          rw e (
            cancel_steps-IsCancelled k now size failed_id ws count db job h c n (ground (arith, m)))
      | inr other ↦ rw other (elim (cancel-one k now size w db job h c) [
        | inl (e, gone) ↦ steps-stay k now size failed_id ws (count + 1) _ gone
        | inr (e, kept) ↦
            cancel_steps-IsCancelled k now size failed_id ws (count + 1) _ job kept c n
              (ground (arith, m))
      ])
    ]
