-- ===== src/JobService/Start.antt =====
-- `create_job` of services/job.py: in which state a job starts, and when it is announced.
use incident_platform.JobService.Create.{inserted, inserted-jobs}
use incident_platform.Prelude.{
  ◌⊎◌, All, subst₂, ℕ, ◌≡◌, refl, sym, ap, ◌∙◌, subst, false, none, some, List, [], ◌∷◌, ◌++◌, inl,
  inr, arith, any,
}
use incident_platform.JobService.Results.{bind_ok, ok_eq, found_ok}
use incident_platform.JobService.{
  or_not_found, is_unmet, Env, NewJob, ok, usable_key, create_job, create_or_existing, create_new,
  insert_or_winner, initial_status, load_parents, new_row, insert_job, add_dependencies,
  announce_created, lookup_key, taken_key,
}
use incident_platform.Store.{
  completed, job_submitted, JobStatus, waiting, pending, Job, Db, OutboxEvent,
}
use incident_platform.JobRepo.{get_by_id}

-- What a creation adds to the outbox: a `job.submitted` event for a job that is ready to run, and
-- nothing for one that waits.
abbrev pub Announces : JobStatus → List OutboxEvent → List OutboxEvent → Type 0
Announces pending a b = (e : OutboxEvent) × (b ≡ a ++ e ∷ []) × (e.topic ≡ job_submitted)
Announces waiting a b = b ≡ a
Announces _ a b = ⊥

pub dependencies-outbox :
    (env : Env) (id : ℕ) (deps : List ℕ) (db db' : Db)
    → add_dependencies env id deps db ≡ ok db'
    → db'.outbox ≡ db.outbox
unfolding add_dependencies
dependencies-outbox env id deps db db' h = ground arith

-- An id whose row is there and COMPLETED.
abbrev pub Done : Db → ℕ → Type 0
Done db id = (p : Job) × (get_by_id id db ≡ some p) × (p.status ≡ completed)

met-completed : (job : Job) → is_unmet job ≡ false → job.status ≡ completed
met-completed job h = ground arith

parents-Done :
    (deps : List ℕ) (db : Db) (parents : List Job)
    → load_parents deps db ≡ ok parents
    → any is_unmet parents ≡ false
    → All (Done db) deps
unfolding load_parents
parents-Done [] db parents h n = tt
parents-Done (id ∷ ids) db parents h n =
    let (p, e, r) = bind_ok (or_not_found (get_by_id id db)) _ parents h in
    let (ps, e', r') = bind_ok (load_parents ids db) _ parents r in
    let n' : any is_unmet (p ∷ ps) ≡ false =
      subst (λ l. any is_unmet l ≡ false) (sym (ok_eq (p ∷ ps) parents r')) n in
    (
      (p, found_ok (get_by_id id db) p e, met-completed p (ground (arith, n'))),
      parents-Done ids db ps e' (ground (arith, n')),
    )

initial-cases :
    (env : Env) (parents : List Job) (db : Db)
    → (initial_status env parents db ≡ waiting)
      ⊎ ((initial_status env parents db ≡ pending) × (any is_unmet parents ≡ false))
unfolding initial_status
initial-cases env parents db = ground arith

announce-waiting :
    (env : Env) (job : Job) (db : Db)
    → job.status ≡ waiting
    → (announce_created env job db).outbox ≡ db.outbox
unfolding announce_created
announce-waiting env job db h = ground arith

announce-pending :
    (env : Env) (job : Job) (db : Db)
    → job.status ≡ pending
    → (e : OutboxEvent) × ((announce_created env job db).outbox ≡ db.outbox ++ e ∷ [])
      × (e.topic ≡ job_submitted)
unfolding announce_created
announce-pending env job db h = rw h (_, refl, refl)

-- The announcement of a row in either of the two first states.
announced :
    (env : Env) (job : Job) (a : List OutboxEvent) (db : Db)
    → db.outbox ≡ a
    → (job.status ≡ waiting) ⊎ (job.status ≡ pending)
    → Announces job.status a (announce_created env job db).outbox
announced env job a db e (inl w) =
    subst (λ st. Announces st a (announce_created env job db).outbox) (sym w)
      (announce-waiting env job db w ∙ e)
announced env job a db e (inr p) =
    let (event, appended, topic) = announce-pending env job db p in
    subst (λ st. Announces st a (announce_created env job db).outbox) (sym p)
      (event, appended ∙ ap (λ o. o ++ event ∷ []) e, topic)

insert-Announces :
    (env : Env) (new : NewJob) (st : JobStatus) (db db' : Db) (job : Job)
    → (st ≡ waiting) ⊎ (st ≡ pending)
    → insert_or_winner env new st none db ≡ ok (job, db')
    → (job.status ≡ st) × Announces job.status db.outbox db'.outbox
unfolding new_row insert_job
insert-Announces env new st db db' job c h =
    let (linked, j, e, d) = inserted env new st db db' job h in
    let row = new_row env new st db.next_id in
    subst₂ (λ (r : Job) (x : Db). (r.status ≡ st) × Announces r.status db.outbox x.outbox) j d
      (
        refl,
        announced env row db.outbox linked
            (dependencies-outbox env row.id new.dependencies (insert_job row db) linked e) c,
      )

first_status :
    {st : JobStatus} {A : Type 0}
    → (st ≡ waiting) ⊎ ((st ≡ pending) × A)
    → (st ≡ waiting) ⊎ (st ≡ pending)
first_status (inl w) = inl w
first_status (inr (p, a)) = inr p

-- How a new job starts: PENDING, with each of its parents there and COMPLETED, and announced; or
-- WAITING, and not announced.
abbrev pub Starts : JobStatus → Db → List ℕ → List OutboxEvent → List OutboxEvent → Type 0
Starts st db deps a b =
    ((st ≡ pending) × All (Done db) deps × Announces pending a b) ⊎ ((st ≡ waiting) × (b ≡ a))

starts :
    {A : Type 0} (st st' : JobStatus) (db : Db) (deps : List ℕ) (a b : List OutboxEvent)
    → (st ≡ waiting) ⊎ ((st ≡ pending) × A)
    → st' ≡ st
    → (A → All (Done db) deps)
    → Announces st' a b
    → Starts st' db deps a b
starts st st' db deps a b (inl w) e done h = inr (e ∙ w, subst (λ x. Announces x a b) (e ∙ w) h)
starts st st' db deps a b (inr (p, met)) e done h =
    inl (e ∙ p, done met, subst (λ x. Announces x a b) (e ∙ p) h)

-- A submission without a key that is accepted appends one row, its job. The job starts PENDING, and
-- then each of its parents is there and COMPLETED in the database that they were read from, and one
-- `job.submitted` event is appended; or it starts WAITING, and no event is appended.
pub create_job_announces :
    (env : Env) (others : Db → Db) (new : NewJob) (db db' : Db) (job : Job)
    → new.idempotency_key ≡ none
    → create_job env others new db ≡ ok (job, db')
    → (db'.jobs ≡ (others db).jobs ++ job ∷ [])
      × Starts job.status db new.dependencies (others db).outbox db'.outbox
unfolding create_job create_or_existing create_new
create_job_announces env others new db db' job k h =
    let h' : create_new env others new db ≡ ok (job, db') =
      subst
        (λ o.
          create_or_existing env others new (lookup_key (usable_key o) new.tenant_id db) db
          ≡ ok (job, db'))
        k h in
    let (parents, e, r) = bind_ok (load_parents new.dependencies db) _ (job, db') h' in
    let st = initial_status env parents db in
    let r' : insert_or_winner env new st none (others db) ≡ ok (job, db') =
      subst
        (λ o.
          insert_or_winner env new st (taken_key o new.tenant_id (others db)) (others db)
          ≡ ok (job, db'))
        k r in
    let cases = initial-cases env parents db in
    let (status, announces) =
      insert-Announces env new st (others db) db' job (first_status cases) r' in
    (
      inserted-jobs env new st (others db) db' job r',
      starts st job.status db new.dependencies (others db).outbox db'.outbox cases status
          (parents-Done new.dependencies db parents e) announces,
    )
