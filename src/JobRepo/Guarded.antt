-- ===== src/JobRepo/Guarded.antt =====
-- The guarded `update_status`: what the compare-and-set leaves of the row that it names and of
-- others, on a table with a primary key, which it keeps.
use incident_platform.Prelude.{
  ℕ, zero, suc, ◌≡◌, some_eq, sym, refl, ap, ◌∙◌, subst, Bool, true, false, ◌&&◌, Option, none,
  some, List, [], ◌∷◌, ◌++◌, inl, inr, arith, ◌==◌, count_where, is_nil, Bool-cases, ==_iff,
}
use incident_platform.Store.{JobStatus, Job, Db, Message}
use incident_platform.Store.Table.{find_where, update_where, update_where-miss}
use incident_platform.Store.Events.{JsonSize}
use incident_platform.JobRepo.{
  settle_found, has_id, get_by_id, cancellable, is_target, cascade_targets, cascade_cancelled,
  cascade_round, cascade_loop, cascade_cancel_blocked_children, cascade_max_depth, settle_status,
  emit_terminal_event, written, update_status_guarded, announces, cascades,
}
use incident_platform.JobRepo.Cascade.{announce_jobs}
use incident_platform.JobRepo.Claim.{UniqueIds, count_by_id, test_row, no_row}
use incident_platform.JobRepo.Rows.{settle_keeps}

module _ (q : Job → Bool) (f : Job → Job) (hid : (j : Job) → (f j).id ≡ j.id) where
  update_where-none :
      (id : ℕ) (jobs : List Job)
      → find_where (has_id id) jobs ≡ none
      → find_where (has_id id) (update_where q f jobs) ≡ none
  update_where-none id [] h = refl
  update_where-none id (j ∷ js) h = ground (arith, hid j, update_where-none id js)

  update_where-UniqueIds : (jobs : List Job) → UniqueIds jobs → UniqueIds (update_where q f jobs)
  update_where-UniqueIds [] u = tt
  update_where-UniqueIds (j ∷ js) u = elim (Bool-cases (q j)) [
    | inl t ↦ rw t (rw (hid j) (update_where-none j.id js u.0), update_where-UniqueIds js u.1)
    | inr t ↦ rw t (update_where-none j.id js u.0, update_where-UniqueIds js u.1)
  ]

loop-UniqueIds :
    (depth now parent : ℕ) (st : JobStatus) (frontier seen : List ℕ) (count : ℕ) (db : Db)
    → UniqueIds db.jobs
    → UniqueIds (cascade_loop depth now parent st frontier seen count db).1.jobs
unfolding cascade_loop cascade_round cascade_cancelled
loop-UniqueIds zero now parent st frontier seen count db u = u
loop-UniqueIds (suc depth) now parent st frontier seen count db u =
    let targets = cascade_targets db.edges db.jobs frontier seen in
    elim (Bool-cases (is_nil targets)) [
      | inl stop ↦ rw stop u
      | inr more ↦ rw more (
          loop-UniqueIds depth now parent st targets (seen ++ targets) _
            (cascade_round now parent st targets db)
            (rw announce_jobs (update_where-UniqueIds (is_target targets) _ (λ j. refl) db.jobs u)))
    ]

settle-UniqueIds :
    (now : ℕ) (size : JsonSize) (st : JobStatus) (message : Option Message) (row : Job) (db : Db)
    → UniqueIds db.jobs
    → UniqueIds (settle_status now size st message row db).jobs
unfolding settle_status emit_terminal_event cascade_cancel_blocked_children
settle-UniqueIds now size st message row db u = elim (Bool-cases (cascades st)) [
  | inl e ↦ rw e (
      loop-UniqueIds cascade_max_depth now row.id st (row.id ∷ []) (row.id ∷ []) 0 _
        (elim (Bool-cases (announces st)) [ inl a ↦ rw a u | inr a ↦ rw a u ]))
  | inr e ↦ rw e (elim (Bool-cases (announces st)) [ inl a ↦ rw a u | inr a ↦ rw a u ])
]

settle_found-UniqueIds :
    (now : ℕ) (size : JsonSize) (st : JobStatus) (message : Option Message) (row : Option Job)
    (db : Db)
    → UniqueIds db.jobs
    → UniqueIds (settle_found now size st message row db).1.jobs
unfolding settle_found
settle_found-UniqueIds now size st message none db u = u
settle_found-UniqueIds now size st message (some row) db u =
    settle-UniqueIds now size st message row db u

settle_found-keeps :
    (id now : ℕ) (size : JsonSize) (st : JobStatus) (message : Option Message) (row : Option Job)
    (db : Db) (job : Job)
    → get_by_id id db ≡ some job
    → cancellable job ≡ false
    → get_by_id id (settle_found now size st message row db).1 ≡ some job
unfolding settle_found
settle_found-keeps id now size st message none db job h c = h
settle_found-keeps id now size st message (some row) db job h c =
    settle_keeps id now size st message row db job h c

module _ (now : ℕ) (size : JsonSize) (id : ℕ) (st : JobStatus) (extra : Job → Job)
    (message : Option Message) (guard : Job → Bool) (hid : (j : Job) → (extra j).id ≡ j.id) where
  abbrev hit : Job → Bool
  hit job = has_id id job && guard job

  pub guarded-UniqueIds :
      (db : Db)
      → UniqueIds db.jobs
      → UniqueIds (update_status_guarded now size id st extra message guard db).1.jobs
  unfolding update_status_guarded written
  guarded-UniqueIds db u =
      let u' = update_where-UniqueIds hit (written now st extra) hid db.jobs u in
      elim (Bool-cases (count_where hit db.jobs == 1)) [
        | inl e ↦ rw e (settle_found-UniqueIds now size st message _ _ u')
        | inr e ↦ rw e u'
      ]

  find_hit :
      (jobs : List Job) (job : Job)
      → find_where (has_id id) jobs ≡ some job
      → guard job ≡ true
      → find_where (has_id id) (update_where hit (written now st extra) jobs)
        ≡ some (written now st extra job)
  unfolding written
  find_hit [] job h g = cc
  find_hit (j ∷ js) job h g = elim (Bool-cases (has_id id j)) [
    | inl e ↦
        let same : j ≡ job = some_eq j job (rw e at h) in
        let passes : guard j ≡ true = subst (λ x. guard x ≡ true) (sym same) g in
        let kept : has_id id (written now st extra j) ≡ true = rw (hid j) e in
        rw e (rw passes (rw kept ((ap (λ x. some (written now st extra x)) same))))
    | inr e ↦ rw e (rw e (find_hit js job (rw e at h) g))
  ]

  find_missed :
      (other : ℕ) (jobs : List Job) (job : Job)
      → (other == id) ≡ false
      → find_where (has_id other) jobs ≡ some job
      → find_where (has_id other) (update_where hit (written now st extra) jobs) ≡ some job
  unfolding written
  find_missed other [] job d h = cc
  find_missed other (j ∷ js) job d h = ground (arith, hid j, find_missed other js job d)

  -- A row that passes the guard is written, and its write survives what it sets off.
  pub guarded_row :
      (db : Db) (job : Job)
      → UniqueIds db.jobs
      → get_by_id id db ≡ some job
      → guard job ≡ true
      → cancellable (written now st extra job) ≡ false
      → let r = update_status_guarded now size id st extra message guard db in
        (r.0 ≡ some (written now st extra job))
        × (get_by_id id r.1 ≡ some (written now st extra job))
  unfolding update_status_guarded settle_found
  guarded_row db job u h g c =
      let found = find_hit db.jobs job h g in
      let one : (count_where hit db.jobs == 1) ≡ true =
        count_by_id id guard db.jobs u ∙ ap (test_row guard) h ∙ g in
      rw (one, found)
        (
          refl,
          settle_keeps id now size st message (written now st extra job) _
              (written now st extra job) found c,
        )

  no_hit :
      (jobs : List Job) (job : Job)
      → UniqueIds jobs
      → find_where (has_id id) jobs ≡ some job
      → guard job ≡ false
      → count_where hit jobs ≡ 0
  no_hit [] job u h g = refl
  no_hit (j ∷ js) job u h g = elim (Bool-cases (has_id id j)) [
    | inl e ↦
        let same : j ≡ job = some_eq j job (rw e at h) in
        let fails : guard j ≡ false = subst (λ x. guard x ≡ false) (sym same) g in
        rw e (
          rw fails (
            no_row id guard js
              (subst (λ k. find_where (has_id k) js ≡ none) ((==_iff j.id id).0 e) u.0)))
    | inr e ↦ rw e (no_hit js job u.1 (rw e at h) g)
  ]

  -- A row that does not is left, with the rest of the database.
  pub guarded_refused :
      (db : Db) (job : Job)
      → UniqueIds db.jobs
      → get_by_id id db ≡ some job
      → guard job ≡ false
      → update_status_guarded now size id st extra message guard db ≡ (none, db)
  unfolding update_status_guarded
  guarded_refused db job u h g =
      let none_hit = no_hit db.jobs job u h g in
      rw (none_hit, update_where-miss hit (written now st extra) db.jobs none_hit) refl

  -- Another row that no cascade can cancel is left.
  pub guarded_other :
      (other : ℕ) (db : Db) (job : Job)
      → (other == id) ≡ false
      → get_by_id other db ≡ some job
      → cancellable job ≡ false
      → get_by_id other (update_status_guarded now size id st extra message guard db).1 ≡ some job
  unfolding update_status_guarded
  guarded_other other db job d h c =
      let found = find_missed other db.jobs job d h in
      elim (Bool-cases (count_where hit db.jobs == 1)) [
        | inl e ↦ rw e (settle_found-keeps other now size st message _ _ job found c)
        | inr e ↦ rw e found
      ]
