-- ===== src/SagaFlow/Order.antt =====
-- `completed_steps` of repositories/saga.py: which steps it lists, and in which order.
use incident_platform.Prelude.{
  ℕ, ◌≡◌, ◌≤◌, refl, ◌∙◌, Bool, true, false, ◌&&◌, Option, none, some, List, [], ◌∷◌, if◌then◌else◌,
  select, count_where, All, Bool-cases, inl, inr, arith, ◌+◌,
}
use incident_platform.Store.{Job, Db, completed, same_status}
use incident_platform.SagaFlow.{
  index_before, index_same, step_before, insert_step, step_order, in_saga, completed_steps,
}

-- The index of a step is up to that of another; a step without one comes last.
abbrev pub IndexLe : Option ℕ → Option ℕ → Type 0
IndexLe (some m) (some n) = m ≤ n
IndexLe (some m) none = Unit
IndexLe none (some n) = ⊥
IndexLe none none = Unit

abbrev pub InOrder : List Job → Type 0
InOrder [] = Unit
InOrder (x ∷ xs) = All (λ (y : Job). IndexLe x.saga_step_index y.saga_step_index) xs × InOrder xs

-- The steps of a list are the COMPLETED rows of the saga among `jobs`, as often as they are there, in
-- the order of their indices.
pub record AreCompleted (saga_id : ℕ) (jobs steps : List Job) : Type 0 where
  pub listed :
      (p : Job → Bool)
      → count_where p steps
        ≡ count_where
            (λ (j : Job). p j && (in_saga saga_id j.saga_id && same_status j.status completed))
            jobs
  pub ordered : InOrder steps

le_trans : (a b c : Option ℕ) → IndexLe a b → IndexLe b c → IndexLe a c
le_trans (some m) (some n) (some o) h k = omega (arith, h, k)
le_trans (some m) b none h k = tt
le_trans (some m) none (some o) h k = absurd k
le_trans none (some n) c h k = absurd h
le_trans none none c h k = k

before-le :
    (a b : Option ℕ) (rest : Bool)
    → (if index_before a b then true else if index_same a b then rest else false) ≡ true
    → IndexLe a b
before-le (some m) (some n) rest h = ground arith
before-le (some m) none rest h = tt
before-le none (some n) rest h = cc
before-le none none rest h = tt

after-le :
    (a b : Option ℕ) (rest : Bool)
    → (if index_before a b then true else if index_same a b then rest else false) ≡ false
    → IndexLe b a
after-le (some m) (some n) rest h = ground arith
after-le (some m) none rest h = cc
after-le none (some n) rest h = tt
after-le none none rest h = tt

later-All :
    (a b : Option ℕ) (xs : List Job)
    → IndexLe a b
    → All (λ (y : Job). IndexLe b y.saga_step_index) xs
    → All (λ (y : Job). IndexLe a y.saga_step_index) xs
later-All a b [] h k = tt
later-All a b (x ∷ xs) h (k, ks) = (le_trans a b x.saga_step_index h k, later-All a b xs h ks)

insert-All :
    (i : Option ℕ) (a : Job) (xs : List Job)
    → IndexLe i a.saga_step_index
    → All (λ (y : Job). IndexLe i y.saga_step_index) xs
    → All (λ (y : Job). IndexLe i y.saga_step_index) (insert_step a xs)
unfolding insert_step
insert-All i a [] h k = (h, tt)
insert-All i a (x ∷ xs) h (k, ks) = elim (Bool-cases (step_before a x)) [
  | inl e ↦ rw e (h, (k, ks))
  | inr e ↦ rw e (k, insert-All i a xs h ks)
]

insert-InOrder : (a : Job) (xs : List Job) → InOrder xs → InOrder (insert_step a xs)
unfolding insert_step
insert-InOrder a [] h = (tt, tt)
insert-InOrder a (x ∷ xs) (k, ks) = elim (Bool-cases (step_before a x)) [
  | inl e ↦
      let le = before-le a.saga_step_index x.saga_step_index _ e in
      rw e ((le, later-All a.saga_step_index x.saga_step_index xs le k), (k, ks))
  | inr e ↦
      let le = after-le a.saga_step_index x.saga_step_index _ e in
      rw e (insert-All x.saga_step_index a xs le k, insert-InOrder a xs ks)
]

step_order-InOrder : (xs : List Job) → InOrder (step_order xs)
unfolding step_order
step_order-InOrder [] = tt
step_order-InOrder (x ∷ xs) = insert-InOrder x (step_order xs) (step_order-InOrder xs)

insert-count :
    (p : Job → Bool) (a : Job) (xs : List Job)
    → count_where p (insert_step a xs) ≡ (if p a then 1 else 0) + count_where p xs
unfolding insert_step
insert-count p a [] = ground arith
insert-count p a (x ∷ xs) = ground (arith, insert-count p a xs)

step_order-count :
    (p : Job → Bool) (xs : List Job) → count_where p (step_order xs) ≡ count_where p xs
unfolding step_order
step_order-count p [] = refl
step_order-count p (x ∷ xs) =
    ground (arith, insert-count p x (step_order xs), step_order-count p xs)

select-count :
    (p q : Job → Bool) (xs : List Job)
    → count_where p (select q xs) ≡ count_where (λ j. p j && q j) xs
select-count p q [] = refl
select-count p q (x ∷ xs) = ground (arith, select-count p q xs)

pub completed_steps-AreCompleted :
    (id : ℕ) (db : Db) → AreCompleted id db.jobs (completed_steps id db)
unfolding completed_steps
completed_steps-AreCompleted id db =
    let q = λ (j : Job). in_saga id j.saga_id && same_status j.status completed in
    record {
      listed = λ p. step_order-count p (select q db.jobs) ∙ select-count p q db.jobs;
      ordered = step_order-InOrder (select q db.jobs);
    }
