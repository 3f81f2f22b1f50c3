-- ===== src/JobService/Create.antt =====
-- `create_job` of services/job.py: what a second submission with the same key gets.
use incident_platform.Prelude.{
  subst₂, ℕ, ◌≡◌, refl, sym, ap, ◌∙◌, subst, Bool, true, ◌&&◌, Option, none, some, List, [], ◌∷◌,
  ◌++◌, String, str_eq_iff, inl, inr, arith, ◌==◌, Bool-cases, ==_refl,
}
use incident_platform.JobService.Results.{bind_ok, ok_pair}
use incident_platform.JobService.{
  Env, NewJob, ok, usable_key, create_job, create_or_existing, create_new, insert_or_winner,
  initial_status, load_parents, new_row, insert_job, add_dependencies, announce_created, lookup_key,
  taken_key,
}
use incident_platform.Store.{JobStatus, Job, Db}
use incident_platform.JobRepo.{same_key, get_by_idempotency_key}
use incident_platform.Store.Table.{find_where}

-- A row appended to a table is what a search finds that found nothing before.
pub find-append {ℓ} :
    {A : Type ℓ} (p : A → Bool) (xs : List A) (x : A)
    → find_where p xs ≡ none
    → p x ≡ true
    → find_where p (xs ++ x ∷ []) ≡ some x
find-append p [] x h t = rw t
find-append p (y ∷ ys) x h t = elim (Bool-cases (p y)) [
  | inl e ↦ cc (rw e at h)
  | inr e ↦ rw e (find-append p ys x (rw e at h) t)
]

announce-jobs : (env : Env) (job : Job) (db : Db) → (announce_created env job db).jobs ≡ db.jobs
unfolding announce_created
announce-jobs env job db = ground arith

dependencies-jobs :
    (env : Env) (id : ℕ) (deps : List ℕ) (db db' : Db)
    → add_dependencies env id deps db ≡ ok db'
    → db'.jobs ≡ db.jobs
unfolding add_dependencies
dependencies-jobs env id deps db db' h = ground arith

-- What an accepted insert returns: the new row, which is at the end of the table, the edges, and
-- the announcement.
pub inserted :
    (env : Env) (new : NewJob) (st : JobStatus) (db db' : Db) (job : Job)
    → insert_or_winner env new st none db ≡ ok (job, db')
    → (linked : Db) × (new_row env new st db.next_id ≡ job)
      × (add_dependencies env
            (new_row env new st db.next_id).id
            new.dependencies
            (insert_job (new_row env new st db.next_id) db)
          ≡ ok linked)
      × (announce_created env (new_row env new st db.next_id) linked ≡ db')
unfolding insert_or_winner
inserted env new st db db' job h =
    let row = new_row env new st db.next_id in
    let (linked, e, r) =
      bind_ok (add_dependencies env row.id new.dependencies (insert_job row db)) _ (job, db') h in
    let (j, d) = ok_pair row job (announce_created env row linked) db' r in (linked, j, e, d)

pub inserted-jobs :
    (env : Env) (new : NewJob) (st : JobStatus) (db db' : Db) (job : Job)
    → insert_or_winner env new st none db ≡ ok (job, db')
    → db'.jobs ≡ db.jobs ++ job ∷ []
unfolding insert_job
inserted-jobs env new st db db' job h =
    let (linked, j, e, d) = inserted env new st db db' job h in
    let row = new_row env new st db.next_id in
    ap (λ (x : Db). x.jobs) (sym d)
    ∙ announce-jobs env row linked
    ∙ dependencies-jobs env row.id new.dependencies (insert_job row db) linked e
    ∙ ap (λ r. db.jobs ++ r ∷ []) j

abbrev by_key : String → ℕ → Job → Bool
by_key key tenant job = same_key key job.idempotency_key && job.tenant_id == tenant

new_row-key :
    (env : Env) (new : NewJob) (st : JobStatus) (id : ℕ) (k : String)
    → new.idempotency_key ≡ some k
    → by_key k new.tenant_id (new_row env new st id) ≡ true
unfolding new_row
new_row-key env new st id k h = ground (arith, str_eq_iff k k, ==_refl new.tenant_id)

module _ (env : Env) (others : Db → Db) (new : NewJob) (k : String)
    (keyed : new.idempotency_key ≡ some k) where
  insert-findable :
      (st : JobStatus) (o : Option Job) (db db' : Db) (job : Job)
      → get_by_idempotency_key k new.tenant_id db ≡ o
      → insert_or_winner env new st o db ≡ ok (job, db')
      → get_by_idempotency_key k new.tenant_id db' ≡ some job
  unfolding insert_or_winner get_by_idempotency_key
  insert-findable st (some winner) db db' job e h =
      let (w, d) = ok_pair winner job db db' h in
      subst₂ (λ (x : Db) j. get_by_idempotency_key k new.tenant_id x ≡ some j) d w e
  insert-findable st none db db' job e h =
      let (linked, j, e', d) = inserted env new st db db' job h in
      rw (inserted-jobs env new st db db' job h) (
        find-append (by_key k new.tenant_id) db.jobs job e (
          subst (λ r. by_key k new.tenant_id r ≡ true) j
            (new_row-key env new st db.next_id k keyed)))

  new-findable :
      (db db' : Db) (job : Job)
      → create_new env others new db ≡ ok (job, db')
      → get_by_idempotency_key k new.tenant_id db' ≡ some job
  unfolding create_new
  new-findable db db' job h =
      let (parents, e, r) = bind_ok (load_parents new.dependencies db) _ (job, db') h in
      insert-findable (initial_status env parents db)
        (get_by_idempotency_key k new.tenant_id (others db)) (others db) db' job refl
        (subst
          (λ o.
            insert_or_winner env new (initial_status env parents db) o (others db) ≡ ok (job, db'))
          (ap (λ key. taken_key key new.tenant_id (others db)) keyed) r)

  existing-findable :
      (o : Option Job) (db db' : Db) (job : Job)
      → get_by_idempotency_key k new.tenant_id db ≡ o
      → create_or_existing env others new o db ≡ ok (job, db')
      → get_by_idempotency_key k new.tenant_id db' ≡ some job
  unfolding create_or_existing
  existing-findable (some old) db db' job e h =
      let (w, d) = ok_pair old job db db' h in
      subst₂ (λ (x : Db) j. get_by_idempotency_key k new.tenant_id x ≡ some j) d w e
  existing-findable none db db' job e h = new-findable db db' job h

usable-eq : (o : Option String) (k : String) → usable_key o ≡ some k → o ≡ some k
usable-eq none k h = cc
usable-eq (some String.[]) k h = cc
usable-eq (some (String.◌∷◌ c s)) k h = h

-- Once a submission with a usable key has returned a job, any submission with the same key in the
-- same tenant returns that job and changes nothing, whatever else it asks for and whoever wins the
-- race between the first look-up and the insert.
pub create_job_idempotent :
    (env env' : Env) (others others' : Db → Db) (new new' : NewJob) (k : String) (db db' : Db)
    (job : Job)
    → usable_key new.idempotency_key ≡ some k
    → new'.idempotency_key ≡ new.idempotency_key
    → new'.tenant_id ≡ new.tenant_id
    → create_job env others new db ≡ ok (job, db')
    → create_job env' others' new' db' ≡ ok (job, db')
unfolding create_job
create_job_idempotent env env' others others' new new' k db db' job usable same_key' same_tenant h =
    let keyed = usable-eq new.idempotency_key k usable in
    let found : get_by_idempotency_key k new.tenant_id db' ≡ some job =
      existing-findable env others new k keyed (get_by_idempotency_key k new.tenant_id db) db db'
        job refl
        (subst (λ o. create_or_existing env others new o db ≡ ok (job, db'))
          (ap (λ key. lookup_key key new.tenant_id db) usable) h) in
    rw (same_key', same_tenant) (rw usable (rw (found, create_or_existing)))
