-- ===== src/JobService/Inserted.antt =====
-- `create_job` of services/job.py: everything that an accepted submission without a key writes.
use incident_platform.JobService.Create.{inserted}
use incident_platform.Prelude.{
  ◌<◌, ◌≤◌, subst₂, ℕ, ◌≡◌, refl, sym, ap, ◌∙◌, subst, false, none, List, [], ◌∷◌, ◌++◌, inl, inr,
  arith, Bool-cases, append-nil, map, Bool, true, not, if◌then◌else◌,
}
use incident_platform.JobService.Results.{bind_ok, ok_eq}
use incident_platform.JobService.{
  err, Result, runtime_error, integrity_error, has_repeat, Env, NewJob, ok, usable_key, create_job,
  create_or_existing, create_new, insert_or_winner, initial_status, load_parents, new_row,
  insert_job, add_dependencies, announce_created, lookup_key, taken_key,
}
use incident_platform.Store.{
  submitted, Edge, add_event, log, job_submitted, pending, Job, Db, OutboxEvent,
}
use incident_platform.Store.Events.{or_empty, job_submitted_payload}
use incident_platform.JobService.Start.{dependencies-outbox}

-- One event is appended, which announces the job to its workers.
abbrev pub Announced : Job → List OutboxEvent → List OutboxEvent → Type 0
Announced job a b =
    (e : OutboxEvent) × (b ≡ a ++ e ∷ [])
    × (e.topic ≡ job_submitted)
    × (e.tenant_id ≡ job.tenant_id)
    × (e.payload
        ≡ submitted job.tenant_id job.id job.user_id job.type (or_empty job.payload) job.priority
            job.trace_id)

announce-Announced :
    (env : Env) (job : Job) (a : List OutboxEvent) (db : Db)
    → db.outbox ≡ a
    → job.status ≡ pending
    → Announced job a (announce_created env job db).outbox
unfolding announce_created job_submitted_payload add_event log
announce-Announced env job a db o h = rw (h, o) (_, refl, refl, refl, refl)

-- The edges from a job to its parents.
abbrev pub edges_to : ℕ → List ℕ → List Edge
edges_to id deps = map (λ d. record { job_id = id; depends_on = d }) deps

only_ok :
    {A : Type 0} (a b : Bool) (x y : A)
    → ◌≡◌ {A = Result A}
        (if a then err runtime_error else if b then err integrity_error else ok x)
        (ok y)
    → x ≡ y
only_ok true b x y h = cc
only_ok false true x y h = cc
only_ok false false x y h = ok_eq x y h

dependencies-edges :
    (env : Env) (id : ℕ) (deps : List ℕ) (db db' : Db)
    → add_dependencies env id deps db ≡ ok db'
    → db'.edges ≡ db.edges ++ edges_to id deps
unfolding add_dependencies
dependencies-edges env id [] db db' h =
    sym (ap (λ (x : Db). x.edges) (ok_eq db db' h)) ∙ sym (append-nil db.edges)
dependencies-edges env id (d ∷ ds) db db' h =
    sym (ap (λ (x : Db). x.edges) (only_ok (not env.has_dep_repo) (has_repeat (d ∷ ds)) _ db' h))

announce-edges : (env : Env) (job : Job) (db : Db) → (announce_created env job db).edges ≡ db.edges
unfolding announce_created
announce-edges env job db = ground arith

announce-sagas : (env : Env) (job : Job) (db : Db) → (announce_created env job db).sagas ≡ db.sagas
unfolding announce_created
announce-sagas env job db = ground arith

dependencies-sagas :
    (env : Env) (id : ℕ) (deps : List ℕ) (db db' : Db)
    → add_dependencies env id deps db ≡ ok db'
    → db'.sagas ≡ db.sagas
unfolding add_dependencies
dependencies-sagas env id deps db db' h = ground arith

-- What a keyless submission that is accepted, with no commit by others, wrote: the row's id is the
-- next one, later ids are larger, and without parents the row is PENDING. The row is that of the
-- arguments, its edges are appended, and where it is PENDING it is announced.
pub record IsInserted (env : Env) (new : NewJob) (db db' : Db) (job : Job) : Type 0 where
  pub id : job.id ≡ db.next_id
  pub later : db.next_id < db'.next_id
  pub first : (new.dependencies ≡ []) → job.status ≡ pending
  pub row : job ≡ new_row env new job.status job.id
  pub edges : db'.edges ≡ db.edges ++ edges_to job.id new.dependencies
  pub event : job.status ≡ pending → Announced job db.outbox db'.outbox
  pub sagas : db'.sagas ≡ db.sagas

announce-next :
    (env : Env) (job : Job) (db : Db) → db.next_id ≤ (announce_created env job db).next_id
unfolding announce_created
announce-next env job db = ground arith

dependencies-next :
    (env : Env) (id : ℕ) (deps : List ℕ) (db db' : Db)
    → add_dependencies env id deps db ≡ ok db'
    → db'.next_id ≡ db.next_id
unfolding add_dependencies
dependencies-next env id deps db db' h = ground arith

no_parents : (env : Env) (db : Db) → initial_status env [] db ≡ pending
unfolding initial_status
no_parents env db = elim (Bool-cases env.has_dep_repo) [ inl e ↦ rw e refl | inr e ↦ rw e refl ]

pub create_job-IsInserted :
    (env : Env) (new : NewJob) (db db' : Db) (job : Job)
    → new.idempotency_key ≡ none
    → create_job env (λ d. d) new db ≡ ok (job, db')
    → IsInserted env new db db' job
unfolding create_job create_or_existing create_new new_row insert_job load_parents
create_job-IsInserted env new db db' job k h =
    let h' : create_new env (λ d. d) new db ≡ ok (job, db') =
      subst
        (λ o.
          create_or_existing env (λ d. d) new (lookup_key (usable_key o) new.tenant_id db) db
          ≡ ok (job, db'))
        k h in
    let (parents, e, r) = bind_ok (load_parents new.dependencies db) _ (job, db') h' in
    let st = initial_status env parents db in
    let r' : insert_or_winner env new st none db ≡ ok (job, db') =
      subst (λ o. insert_or_winner env new st (taken_key o new.tenant_id db) db ≡ ok (job, db')) k
        r in
    let (linked, j, d, a) = inserted env new st db db' job r' in
    let row = new_row env new st db.next_id in
    record {
      id = ap (λ (x : Job). x.id) (sym j);
      later = omega (
        arith,
        dependencies-next env row.id new.dependencies (insert_job row db) linked d,
        announce-next env row linked,
        ap (λ (x : Db). x.next_id) a,
      );
      first = λ none_given.
          let empty = ok_eq [] parents (subst (λ l. load_parents l db ≡ ok parents) none_given e) in
          ap (λ (x : Job). x.status) (sym j)
          ∙ ap (λ l. initial_status env l db) (sym empty)
          ∙ no_parents env db;
      sagas =
          sym (ap (λ (x : Db). x.sagas) a)
          ∙ announce-sagas env row linked
          ∙ dependencies-sagas env row.id new.dependencies (insert_job row db) linked d;
      row = subst (λ (x : Job). x ≡ new_row env new x.status x.id) j refl;
      edges =
          subst₂ (λ (r : Job) (x : Db). x.edges ≡ db.edges ++ edges_to r.id new.dependencies) j a
            (announce-edges env row linked
              ∙ dependencies-edges env row.id new.dependencies (insert_job row db) linked d);
      event =
          subst₂ (λ (r : Job) (x : Db). r.status ≡ pending → Announced r db.outbox x.outbox) j a
            (λ p.
              announce-Announced env row db.outbox linked
                (dependencies-outbox env row.id new.dependencies (insert_job row db) linked d) p);
    }
