-- ===== src/Resolver/Child.antt =====
-- The loop body of `handle_message` in workers/dependency_resolver.py: what one child's turn does to
-- the rows, and to the test that the other children's turns make.

use incident_platform.Prelude.{
  some_eq, ℕ, ◌≡◌, refl, sym, ap, ◌∙◌, subst, Bool, true, false, not, ◌&&◌, Option, none, some,
  List, [], ◌∷◌, inl, inr, arith, ◌==◌, if◌then◌else◌, ==_iff, Bool-cases, Option-cases,
  count_where,
}
use incident_platform.Store.{Edge, waiting, pending, Job, Db, same_status, add_event}
use incident_platform.JobRepo.{
  unmet_row, has_id, get_by_id, promote_waiting_to_pending, promotable, unmet_count,
}
use incident_platform.JobRepo.Cascade.{found-has_id}
use incident_platform.JobRepo.Rows.{map_row}
use incident_platform.Store.Table.{find_where, update_where}
use incident_platform.Resolver.{
  announce_promoted, promote, ready_row, is_ready, promote_row, resolve_child,
}

-- The row that a promotion leaves.
unfoldable pub promoted : ℕ → Job → Job
promoted now job = record job { status = pending; error_message = none; updated_at = now }

-- The UPDATE of a promotion, seen by a SELECT by id.
pub find-promoted :
    (now k : ℕ) (p : Job → Bool) (jobs : List Job)
    → find_where (has_id k) (update_where p (promoted now) jobs)
      ≡ map_row (λ j. if p j then promoted now j else j) (find_where (has_id k) jobs)
unfolding promoted
find-promoted now k p [] = refl
find-promoted now k p (j ∷ js) = elim (Bool-cases (p j)) [
  | inl e ↦ rw e (elim (Bool-cases (has_id k j)) [
    | inl t ↦ rw (t, e)
    | inr n ↦ rw n (find-promoted now k p js)
  ])
  | inr e ↦ rw e (elim (Bool-cases (has_id k j)) [
    | inl t ↦ rw (t, e)
    | inr n ↦ rw n (find-promoted now k p js)
  ])
]

announce_promoted-jobs :
    (now : ℕ) (child : Job) (won : Bool) (db : Db)
    → (announce_promoted now child (won, db)).jobs ≡ db.jobs
unfolding add_event
announce_promoted-jobs now child true db = refl
announce_promoted-jobs now child false db = refl

announce_promoted-edges :
    (now : ℕ) (child : Job) (won : Bool) (db : Db)
    → (announce_promoted now child (won, db)).edges ≡ db.edges
unfolding add_event
announce_promoted-edges now child true db = refl
announce_promoted-edges now child false db = refl

pub promote-jobs :
    (now : ℕ) (child : Job) (db : Db)
    → (promote now child db).jobs ≡ update_where (promotable child.id) (promoted now) db.jobs
unfolding promote promote_waiting_to_pending promoted
promote-jobs now child db = announce_promoted-jobs now child _ _

pub promote-edges : (now : ℕ) (child : Job) (db : Db) → (promote now child db).edges ≡ db.edges
unfolding promote promote_waiting_to_pending
promote-edges now child db = announce_promoted-edges now child _ _

-- The row of a child that is ready.
pub ready-row :
    (paused : Option (ℕ → Bool)) (db : Db) (id : ℕ)
    → is_ready paused db id ≡ true
    → (child : Job) × (get_by_id id db ≡ some child) × (same_status child.status waiting ≡ true)
unfolding is_ready
ready-row paused db id h = elim (Option-cases (get_by_id id db)) [
  | inl gone ↦ cc (rw gone at h)
  | inr (child, there) ↦ (child, there, ground (arith, rw there at h))
]

promoted-test :
    (c k : ℕ) (j : Job)
    → j.id ≡ k
    → (k ≡ c → same_status j.status waiting ≡ true)
    → promotable c j ≡ (k == c)
promoted-test c k j e w = ground (arith, w)

pub and_true : (b : Bool) → (b && true) ≡ b
and_true true = refl
and_true false = refl

pub and_false : (b : Bool) → (b && false) ≡ false
and_false true = refl
and_false false = refl

pub map_row-id : (o : Option Job) → map_row (λ j. j) o ≡ o
map_row-id none = refl
map_row-id (some j) = refl

-- The row that the promotion of a waiting child leaves, at any id.
promoted-row :
    (now c k : ℕ) (o : Option Job) (child : Job) (jobs : List Job)
    → find_where (has_id c) jobs ≡ some child
    → same_status child.status waiting ≡ true
    → find_where (has_id k) jobs ≡ o
    → map_row (λ j. if promotable c j then promoted now j else j) o
      ≡ map_row (λ j. if k == c then promoted now j else j) o
promoted-row now c k none child jobs there waits e = refl
promoted-row now c k (some j) child jobs there waits e =
    let waits' = λ (same : k ≡ c).
      subst (λ (i : Job). same_status i.status waiting ≡ true)
        (some_eq child j (sym there ∙ subst (λ i. find_where (has_id i) jobs ≡ some j) same e))
        waits in
    ap (λ b. some (if b then promoted now j else j))
      (promoted-test c k j (found-has_id k jobs j e) waits')

-- What resolving one child does to any row.
pub child-get :
    (now : ℕ) (paused : Option (ℕ → Bool)) (c k : ℕ) (db : Db)
    → get_by_id k (resolve_child now paused c db)
      ≡ map_row (λ j. if k == c && is_ready paused db c then promoted now j else j) (get_by_id k db)
unfolding resolve_child
child-get now paused c k db = elim (Bool-cases (is_ready paused db c)) [
  | inl ready ↦
      let (child, there, waits) = ready-row paused db c ready in
      rw ready (
        rw (there, promote_row)
          (rw promote-jobs (
            find-promoted now k (promotable child.id) db.jobs
            ∙ rw (found-has_id c db.jobs child there, and_true)
                (promoted-row now c k (get_by_id k db) child db.jobs there waits refl))))
  | inr not_ready ↦ rw not_ready (rw (and_false (k == c)) (sym (map_row-id (get_by_id k db))))
]

pub child-edges :
    (now : ℕ) (paused : Option (ℕ → Bool)) (c : ℕ) (db : Db)
    → (resolve_child now paused c db).edges ≡ db.edges
unfolding resolve_child
child-edges now paused c db = elim (Bool-cases (is_ready paused db c)) [
  | inl ready ↦
      let (child, there, waits) = ready-row paused db c ready in
      rw ready (rw (there, promote_row) (promote-edges now child db))
  | inr not_ready ↦ rw not_ready refl
]

-- No promotion completes a job, or undoes a completion.
child-unmet :
    (now : ℕ) (paused : Option (ℕ → Bool)) (c k : ℕ) (db : Db)
    → unmet_row (get_by_id k (resolve_child now paused c db)) ≡ unmet_row (get_by_id k db)
unfolding promoted
child-unmet now paused c k db =
    rw child-get (go (k == c) (is_ready paused db c) refl refl (get_by_id k db) refl)
  where
    go :
        (a b : Bool)
        → (k == c) ≡ a
        → is_ready paused db c ≡ b
        → (o : Option Job) → get_by_id k db ≡ o
        → unmet_row (map_row (λ j. if a && b then promoted now j else j) o) ≡ unmet_row o
    go true true e ready none h = refl
    go true true e ready (some j) h =
        let (child, there, waits) = ready-row paused db c ready in
        let same =
          some_eq child j (sym there ∙ subst (λ i. get_by_id i db ≡ some j) ((==_iff k c).0 e) h) in
        let waits' = subst (λ (i : Job). same_status i.status waiting ≡ true) same waits in
        ground (arith, waits')
    go true false e ready none h = refl
    go true false e ready (some j) h = refl
    go false b e ready none h = refl
    go false b e ready (some j) h = refl

count_where-eq {ℓ} :
    {A : Type ℓ} (p q : A → Bool) (xs : List A)
    → ((x : A) → p x ≡ q x)
    → count_where p xs ≡ count_where q xs
count_where-eq p q [] h = refl
count_where-eq p q (x ∷ xs) h = rw (h x, count_where-eq p q xs h) refl

-- The rest of the readiness test reads nothing that a promotion changes.
child-ready_row :
    (now : ℕ) (paused : Option (ℕ → Bool)) (c : ℕ) (db : Db) (o : Option Job)
    → ready_row paused (resolve_child now paused c db) o ≡ ready_row paused db o
unfolding unmet_count
child-ready_row now paused c db none = refl
child-ready_row now paused c db (some j) = rw (
  child-edges,
  count_where-eq
      (λ (e : Edge).
        e.job_id == j.id && unmet_row (get_by_id e.depends_on (resolve_child now paused c db)))
      (λ (e : Edge). e.job_id == j.id && unmet_row (get_by_id e.depends_on db)) db.edges
      (λ e. ap (λ b. e.job_id == j.id && b) (child-unmet now paused c e.depends_on db)),
)

pending-ready_row :
    (now : ℕ) (paused : Option (ℕ → Bool)) (db : Db) (o : Option Job)
    → ready_row paused db (map_row (promoted now) o) ≡ false
unfolding promoted
pending-ready_row now paused db none = refl
pending-ready_row now paused db (some j) = refl

-- Resolving a child makes that child unready and leaves every other as it was.
pub child-ready :
    (now : ℕ) (paused : Option (ℕ → Bool)) (c k : ℕ) (db : Db)
    → is_ready paused (resolve_child now paused c db) k ≡ (is_ready paused db k && not (k == c))
unfolding is_ready promoted
child-ready now paused c k db =
    rw (child-get, child-ready_row) (go (k == c) (is_ready paused db c) refl refl)
  where
    go :
        (a b : Bool)
        → (k == c) ≡ a
        → is_ready paused db c ≡ b
        → ready_row paused db (map_row (λ j. if a && b then promoted now j else j) (get_by_id k db))
          ≡ (is_ready paused db k && not a)
    go true true e ready = rw and_false (pending-ready_row now paused db (get_by_id k db))
    go true false e unready =
        rw (map_row-id, and_false)
          (subst (λ i. is_ready paused db i ≡ false) (sym ((==_iff k c).0 e)) unready)
    go false b e r = rw (map_row-id, and_true) refl
