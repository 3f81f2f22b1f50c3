-- ===== src/Sweep/Scanned.antt =====
-- The rows of a scan of `jobs`: found again by their ids, each once.
use incident_platform.Prelude.{
  ℕ, zero, suc, ◌≡◌, ◌≤◌, refl, ap, subst, Bool, true, false, none, some, List, [], ◌∷◌, inl, inr,
  arith, if◌then◌else◌, select, take, count_where, length, All, Bool-cases, ==_refl, ==_sym, ==_iff,
  some_eq,
}
use incident_platform.Store.{Job}
use incident_platform.Store.Table.{find_where}
use incident_platform.JobRepo.{has_id}
use incident_platform.JobRepo.Claim.{UniqueIds}

module _ (q : Job → Bool) where
  select-none :
      (id : ℕ) (jobs : List Job)
      → find_where (has_id id) jobs ≡ none
      → find_where (has_id id) (select q jobs) ≡ none
  select-none id [] h = refl
  select-none id (j ∷ js) h = ground (arith, select-none id js)

  select-UniqueIds : (jobs : List Job) → UniqueIds jobs → UniqueIds (select q jobs)
  select-UniqueIds [] u = tt
  select-UniqueIds (j ∷ js) u = elim (Bool-cases (q j)) [
    | inl t ↦ rw t (select-none j.id js u.0, select-UniqueIds js u.1)
    | inr t ↦ rw t (select-UniqueIds js u.1)
  ]

  -- A row that the table finds is found in a selection exactly when it passes the test.
  pub find-select :
      (id : ℕ) (jobs : List Job) (job : Job)
      → UniqueIds jobs
      → find_where (has_id id) jobs ≡ some job
      → find_where (has_id id) (select q jobs) ≡ (if q job then some job else none)
  find-select id [] job u h = cc
  find-select id (j ∷ js) job u h = elim (Bool-cases (has_id id j)) [
    | inl e ↦
        let same : j ≡ job = some_eq j job (rw e at h) in
        let gone : find_where (has_id id) (select q js) ≡ none =
          select-none id js
            (subst (λ k. find_where (has_id k) js ≡ none) ((==_iff j.id id).0 e) u.0) in
        subst (λ x. find_where (has_id id) (select q (j ∷ js)) ≡ (if q x then some x else none))
          same (elim (Bool-cases (q j)) [ inl t ↦ rw t (rw e refl) | inr t ↦ rw t gone ])
    | inr e ↦
        let rest = find-select id js job u.1 (rw e at h) in
        elim (Bool-cases (q j)) [ inl t ↦ rw t (rw e rest) | inr t ↦ rw t rest ]
  ]

take-none :
    (id n : ℕ) (jobs : List Job)
    → find_where (has_id id) jobs ≡ none
    → find_where (has_id id) (take n jobs) ≡ none
take-none id zero jobs h = refl
take-none id (suc n) [] h = refl
take-none id (suc n) (j ∷ js) h = ground (arith, take-none id n js)

take-UniqueIds : (n : ℕ) (jobs : List Job) → UniqueIds jobs → UniqueIds (take n jobs)
take-UniqueIds zero jobs u = tt
take-UniqueIds (suc n) [] u = tt
take-UniqueIds (suc n) (j ∷ js) u = (take-none j.id n js u.0, take-UniqueIds n js u.1)

take-whole : (n : ℕ) (jobs : List Job) → length jobs ≤ n → take n jobs ≡ jobs
take-whole zero [] h = refl
take-whole zero (j ∷ js) h = absurd (omega (arith, h))
take-whole (suc n) [] h = refl
take-whole (suc n) (j ∷ js) h = ap (λ l. j ∷ l) (take-whole n js (omega (arith, h)))

length-select : (q : Job → Bool) (jobs : List Job) → length (select q jobs) ≡ count_where q jobs
length-select q [] = refl
length-select q (j ∷ js) = ground (arith, length-select q js)

-- Every row of the list passes the test and is the one that `jobs` finds by its id.
abbrev pub Current : (Job → Bool) → List Job → List Job → Type 0
Current q jobs rows = All (λ r. (find_where (has_id r.id) jobs ≡ some r) × (q r ≡ true)) rows

some_eq_none : (r : Job) → some r ≡ none → ⊥
some_eq_none r h = grind arith

Current-cons :
    (q : Job → Bool) (j : Job) (js rows : List Job)
    → find_where (has_id j.id) rows ≡ none
    → Current q js rows
    → Current q (j ∷ js) rows
Current-cons q j js [] n c = tt
Current-cons q j js (r ∷ rows) n c = elim (Bool-cases (has_id j.id r)) [
  | inl e ↦ absurd (some_eq_none r (rw e at n))
  | inr e ↦ ((rw (==_sym false r.id j.id e) c.0.0, c.0.1), Current-cons q j js rows (rw e at n) c.1)
]

select-Current :
    (q : Job → Bool) (jobs : List Job) → UniqueIds jobs → Current q jobs (select q jobs)
select-Current q [] u = tt
select-Current q (j ∷ js) u =
    let rest =
      Current-cons q j js (select q js) (select-none q j.id js u.0) (select-Current q js u.1) in
    elim (Bool-cases (q j)) [ inl t ↦ rw t ((rw (==_refl j.id) refl, t), rest) | inr t ↦ rw t rest ]

take-All : (P : Job → Type 0) (n : ℕ) (jobs : List Job) → All P jobs → All P (take n jobs)
take-All P zero jobs h = tt
take-All P (suc n) [] h = tt
take-All P (suc n) (j ∷ js) h = (h.0, take-All P n js h.1)

module _ (q : Job → Bool) (n : ℕ) (jobs : List Job) (u : UniqueIds jobs) where
  pub scan-UniqueIds : UniqueIds (take n (select q jobs))
  scan-UniqueIds = take-UniqueIds n (select q jobs) (select-UniqueIds q jobs u)

  pub scan-Current : Current q jobs (take n (select q jobs))
  scan-Current = take-All _ n (select q jobs) (select-Current q jobs u)

  pub scan-misses :
      (id : ℕ) (job : Job)
      → find_where (has_id id) jobs ≡ some job
      → q job ≡ false
      → find_where (has_id id) (take n (select q jobs)) ≡ none
  scan-misses id job h t = take-none id n (select q jobs) (rw t at (find-select q id jobs job u h))

  pub scan-finds :
      (id : ℕ) (job : Job)
      → find_where (has_id id) jobs ≡ some job
      → q job ≡ true
      → count_where q jobs ≤ n
      → find_where (has_id id) (take n (select q jobs)) ≡ some job
  scan-finds id job h t few =
      rw (take-whole n (select q jobs) (rw (length-select q jobs) few))
        (rw t at (find-select q id jobs job u h))
