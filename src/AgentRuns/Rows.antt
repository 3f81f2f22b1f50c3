-- ===== src/AgentRuns/Rows.antt =====
-- The table of runs: a row that is read, and the same row after it is written.
use incident_platform.Prelude.{
  some_eq, ℕ, ◌≡◌, refl, Bool, true, false, some, List, [], ◌∷◌, ◌==◌, arith, Bool-cases, inl, inr,
  subst,
}
use incident_platform.Store.Table.{find_where}
use incident_platform.AgentRuns.{AgentRun, owned_by, flush}

pub find-holds {ℓ} :
    {A : Type ℓ} (p : A → Bool) (xs : List A) (x : A) → find_where p xs ≡ some x → p x ≡ true
find-holds p [] x h = cc
find-holds p (y ∷ ys) x h = elim (Bool-cases (p y)) [
  | inl e ↦ subst (λ z. p z ≡ true) (some_eq y x (rw e at h)) e
  | inr e ↦ find-holds p ys x (rw e at h)
]

module _ {J : Type 0} where
  other_row :
      (id tenant : ℕ) (u x : AgentRun J)
      → owned_by id tenant u ≡ true
      → (x.id == u.id) ≡ false
      → owned_by id tenant x ≡ false
  other_row id tenant u x o n = ground arith

  pub find-flush :
      (id tenant : ℕ) (u run : AgentRun J) (runs : List (AgentRun J))
      → owned_by id tenant u ≡ true
      → find_where (owned_by id tenant) runs ≡ some run
      → find_where (owned_by id tenant) (flush u runs) ≡ some u
  find-flush id tenant u run [] o h = cc
  find-flush id tenant u run (x ∷ runs) o h = elim (Bool-cases (x.id == u.id)) [
    | inl e ↦ rw (e, o) refl
    | inr n ↦
        let other = other_row id tenant u x o n in
        rw (n, other) (find-flush id tenant u run runs o (rw other at h))
  ]
