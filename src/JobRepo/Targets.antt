-- ===== src/JobRepo/Targets.antt =====
-- One round of the cascade of repositories/job.py: what it selects, what it writes, how many rows.
use incident_platform.Prelude.{
  ℕ, ◌+◌, ◌<◌, ◌≡◌, refl, sym, ap₂, subst, Bool, true, false, not, ◌&&◌, List, [], ◌∷◌, ◌++◌, inl,
  inr, arith, ◌==◌, if◌then◌else◌, member, count_where, Bool-cases, member-append, ==_iff, ==_refl,
}
use incident_platform.Store.{JobStatus, Job, Edge}
use incident_platform.Store.Table.{find_where, update_where}
use incident_platform.JobRepo.{
  has_id, cancellable, cancellable_row, cascade_targets, is_target, cascade_cancelled,
}

-- `c` depends on `p`.
pub data IsEdge : List Edge → ℕ → ℕ → Type 0 where
  here :
      {e : Edge} {es : List Edge} {p c : ℕ} → e.depends_on ≡ p → e.job_id ≡ c → IsEdge (e ∷ es) p c
  there : {e : Edge} {es : List Edge} {p c : ℕ} → IsEdge es p c → IsEdge (e ∷ es) p c

-- A job id that the round selects: an edge into the frontier leads to it, its row can be
-- cancelled, and it was not seen before.
pub record Selected (edges : List Edge) (jobs : List Job) (frontier seen : List ℕ) (c : ℕ)
    : Type 0 where
  pub row : cancellable_row (find_where (has_id c) jobs) ≡ true
  pub fresh : member c seen ≡ false
  pub edge : (p : ℕ) × (IsEdge edges p c) × (member p frontier ≡ true)

Selected-there :
    (e : Edge) (es : List Edge) (jobs : List Job) (frontier seen : List ℕ) (c : ℕ)
    → Selected es jobs frontier seen c
    → Selected (e ∷ es) jobs frontier seen c
Selected-there e es jobs frontier seen c h =
    let (p, edge, mp) = h.edge in
    record { row = h.row; fresh = h.fresh; edge = (p, there edge, mp) }

module _ (jobs : List Job) (frontier seen : List ℕ) where
  -- The test of the round's SELECT on one edge.
  abbrev chosen : Edge → Bool
  chosen e =
      member e.depends_on frontier
      && cancellable_row (find_where (has_id e.job_id) jobs)
      && not (member e.job_id seen)

  chosen-Selected :
      (e : Edge) (es : List Edge) → chosen e ≡ true → Selected (e ∷ es) jobs frontier seen e.job_id
  chosen-Selected e es h = record {
    row = ground arith;
    fresh = ground arith;
    edge = (e.depends_on, here refl refl, ground arith);
  }

  pub targets_sound :
      (edges : List Edge) (c : ℕ)
      → member c (cascade_targets edges jobs frontier seen) ≡ true
      → Selected edges jobs frontier seen c
  unfolding cascade_targets
  targets_sound [] c m = cc
  targets_sound (e ∷ es) c m = elim (Bool-cases (chosen e)) [
    | inr skip ↦ Selected-there e es jobs frontier seen c (targets_sound es c (rw skip at m))
    | inl take ↦ elim (Bool-cases (c == e.job_id)) [
      | inl same ↦
          subst (Selected (e ∷ es) jobs frontier seen) (sym ((==_iff c e.job_id).0 same))
            (chosen-Selected e es take)
      | inr other ↦
          Selected-there e es jobs frontier seen c (targets_sound es c (rw (take, other) at m))
    ]
  ]

  pub targets_complete :
      (edges : List Edge) (p c : ℕ)
      → IsEdge edges p c
      → member p frontier ≡ true
      → cancellable_row (find_where (has_id c) jobs) ≡ true
      → member c seen ≡ false
      → member c (cascade_targets edges jobs frontier seen) ≡ true
  unfolding cascade_targets
  targets_complete [] p c h mf row fresh = elim h [ ]
  targets_complete (e ∷ es) p c (here hp hc) mf row fresh =
      let take : chosen e ≡ true = rw (hp, hc) (rw (mf, row, fresh)) in rw take (rw (hc, ==_refl c))
  targets_complete (e ∷ es) p c (there h) mf row fresh = elim (Bool-cases (chosen e)) [
    | inl take ↦ rw take (ground (arith, targets_complete es p c h mf row fresh))
    | inr skip ↦ rw skip (targets_complete es p c h mf row fresh)
  ]

-- The rows that a round writes are no longer cancellable.
module _ (now parent : ℕ) (st : JobStatus) where
  abbrev pub cancel : Job → Job
  cancel = cascade_cancelled now parent st

  not_target_again : (targets : List ℕ) (job : Job) → is_target targets (cancel job) ≡ false
  unfolding cascade_cancelled
  not_target_again targets job = ground arith

  -- Two rounds are one UPDATE over the targets of both.
  pub update_twice :
      (done targets : List ℕ) (jobs : List Job)
      → update_where (is_target targets) cancel (update_where (is_target done) cancel jobs)
        ≡ update_where (is_target (done ++ targets)) cancel jobs
  unfolding cascade_cancelled
  update_twice done targets [] = refl
  update_twice done targets (j ∷ js) =
      ap₂ (λ x xs. x ∷ xs) (one_row j) (update_twice done targets js)
    where
      one_row :
          (j : Job)
          → (if is_target targets (if is_target done j then cancel j else j)
              then cancel (if is_target done j then cancel j else j)
              else (if is_target done j then cancel j else j))
            ≡ (if is_target (done ++ targets) j then cancel j else j)
      one_row j = ground (arith, member-append j.id done targets)

  -- Every row that a round writes leaves the cancellable ones.
  pub count_cancellable :
      (targets : List ℕ) (jobs : List Job)
      → count_where cancellable (update_where (is_target targets) cancel jobs)
          + count_where (is_target targets) jobs
        ≡ count_where cancellable jobs
  unfolding cascade_cancelled
  count_cancellable targets [] = refl
  count_cancellable targets (j ∷ js) = ground (arith, count_cancellable targets js)

-- A selected id has a row to write.
pub count-target :
    (targets : List ℕ) (c : ℕ) (jobs : List Job)
    → member c targets ≡ true
    → cancellable_row (find_where (has_id c) jobs) ≡ true
    → 0 < count_where (is_target targets) jobs
count-target targets c [] m h = cc
count-target targets c (j ∷ js) m h = elim (Bool-cases (has_id c j)) [
  | inl found ↦
      let e : j.id ≡ c = (==_iff j.id c).0 found in
      let t : is_target targets j ≡ true = rw e (rw m (rw found at h)) in rw t (omega arith)
  | inr other ↦
      let rest : 0 < count_where (is_target targets) js =
        count-target targets c js m (rw other at h) in
      ground arith
]
