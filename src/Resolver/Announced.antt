-- ===== src/Resolver/Announced.antt =====
-- The events of workers/dependency_resolver.py: one for each job that a delivery promotes.
use incident_platform.Prelude.{
  length-append, none, ℕ, ◌+◌, ◌≡◌, refl, sym, ◌∙◌, subst, Bool, true, Option, some, List, [], ◌∷◌,
  inl, inr, arith, ◌==◌, ==_iff, Bool-cases, count_where, length,
}
use incident_platform.Store.Events.{job_submitted_payload}
use incident_platform.JobRepo.Cascade.{found-has_id}
use incident_platform.Resolver.{
  resolve_children, promote, is_ready, promote_row, resolve_child, handle_completed,
}
use incident_platform.JobRepo.Claim.{count_by_id, UniqueIds}
use incident_platform.Resolver.Child.{promoted, find-promoted, promote-jobs, ready-row}
use incident_platform.Store.{waiting, Job, Db, job_submitted, same_status, add_event}
use incident_platform.Store.Table.{update_where}
use incident_platform.DagPause.{children_of}
use incident_platform.JobRepo.{get_by_id, promote_waiting_to_pending, promotable}

-- How many rows wait.
abbrev pub waiting_count : Db → ℕ
waiting_count db = count_where (λ (j : Job). same_status j.status waiting) db.jobs

promoted-count :
    (now c : ℕ) (jobs : List Job)
    → count_where
          (λ j. same_status j.status waiting)
          (update_where (promotable c) (promoted now) jobs)
        + count_where (promotable c) jobs
      ≡ count_where (λ j. same_status j.status waiting) jobs
unfolding promoted
promoted-count now c [] = refl
promoted-count now c (j ∷ js) = ground (arith, promoted-count now c js)

promoted-UniqueIds :
    (now c : ℕ) (jobs : List Job)
    → UniqueIds jobs
    → UniqueIds (update_where (promotable c) (promoted now) jobs)
unfolding promoted
promoted-UniqueIds now c [] u = tt
promoted-UniqueIds now c (j ∷ js) u = (
  elim (Bool-cases (promotable c j)) [
    | inl e ↦ rw e (find-promoted now j.id (promotable c) js ∙ rw u.0 refl)
    | inr n ↦ rw n (find-promoted now j.id (promotable c) js ∙ rw u.0 refl)
  ],
  promoted-UniqueIds now c js u.1,
)

promote-balance :
    (now : ℕ) (child : Job) (db : Db)
    → UniqueIds db.jobs
    → get_by_id child.id db ≡ some child
    → same_status child.status waiting ≡ true
    → length (promote now child db).outbox + waiting_count (promote now child db)
      ≡ length db.outbox + waiting_count db
unfolding promote promote_waiting_to_pending add_event promoted
promote-balance now child db u there waits =
    let won : (count_where (promotable child.id) db.jobs == 1) ≡ true =
      count_by_id child.id (λ j. same_status j.status waiting) db.jobs u ∙ rw there waits in
    rw won (
      omega (
        arith,
        (==_iff (count_where (promotable child.id) db.jobs) 1).0 won,
        promoted-count now child.id db.jobs,
        length-append db.outbox (
            record {
              id = db.next_id;
              tenant_id = child.tenant_id;
              topic = job_submitted;
              key = (child.tenant_id, child.user_id);
              payload = job_submitted_payload child;
              attempts = 0;
              created_at = now;
              published_at = none;
              failed_at = none;
              error_message = none;
            }
            ∷ []),
      ))

-- One child's turn.
child-balance :
    (now : ℕ) (paused : Option (ℕ → Bool)) (c : ℕ) (db : Db)
    → UniqueIds db.jobs
    → UniqueIds (resolve_child now paused c db).jobs
      × (length (resolve_child now paused c db).outbox
            + waiting_count (resolve_child now paused c db)
          ≡ length db.outbox + waiting_count db)
unfolding resolve_child
child-balance now paused c db u = elim (Bool-cases (is_ready paused db c)) [
  | inl ready ↦
      let (child, there, waits) = ready-row paused db c ready in
      let there' =
        subst (λ i. get_by_id i db ≡ some child) (sym (found-has_id c db.jobs child there)) there in
      rw ready (
        rw (there, promote_row)
          (
            subst UniqueIds (sym (promote-jobs now child db))
                (promoted-UniqueIds now child.id db.jobs u),
            promote-balance now child db u there' waits,
          ))
  | inr not_ready ↦ rw not_ready (u, refl)
]

children-balance :
    (now : ℕ) (paused : Option (ℕ → Bool)) (ids : List ℕ) (db : Db)
    → UniqueIds db.jobs
    → length (resolve_children now paused ids db).outbox
        + waiting_count (resolve_children now paused ids db)
      ≡ length db.outbox + waiting_count db
unfolding resolve_children
children-balance now paused [] db u = refl
children-balance now paused (c ∷ ids) db u =
    let (u', b) = child-balance now paused c db u in
    children-balance now paused ids (resolve_child now paused c db) u' ∙ b

-- On a table with a primary key, the handling of a parent's `job.completed` event appends as many
-- events as it takes jobs out of WAITING.
pub handle_completed_balance :
    (now : ℕ) (paused : Option (ℕ → Bool)) (parent : ℕ) (db : Db)
    → UniqueIds db.jobs
    → length (handle_completed now paused parent db).outbox
        + waiting_count (handle_completed now paused parent db)
      ≡ length db.outbox + waiting_count db
unfolding handle_completed
handle_completed_balance now paused parent db u =
    children-balance now paused (children_of db.edges parent) db u
