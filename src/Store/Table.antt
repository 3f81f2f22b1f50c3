-- ===== src/Store/Table.antt =====
-- Tables with an `id` column: SELECT by key, and UPDATE … WHERE … with its row count.
use incident_platform.Prelude.{
  ◌≡◌, refl, Bool, false, Option, none, some, List, [], ◌∷◌, if◌then◌else◌, count_where, Bool-cases,
  inl, inr, ap, arith,
}

module _ {ℓ} {A : Type ℓ} where
  -- `scalar_one_or_none()` of a SELECT whose predicate holds of at most one row.
  abbrev pub find_where : (A → Bool) → List A → Option A
  find_where p [] = none
  find_where p (x ∷ xs) = let rest = find_where p xs in if p x then some x else rest

  -- `UPDATE … SET f WHERE p`.
  abbrev pub update_where : (A → Bool) → (A → A) → List A → List A
  update_where p f [] = []
  update_where p f (x ∷ xs) = (if p x then f x else x) ∷ update_where p f xs

module _ {ℓ} {A : Type ℓ} where
  -- When the new rows fail the predicate, a second UPDATE with it finds no row.
  pub count-update_where :
      (p : A → Bool) (f : A → A)
      → ((x : A) → p (f x) ≡ false)
      → (xs : List A) → count_where p (update_where p f xs) ≡ 0
  count-update_where p f h [] = refl
  count-update_where p f h (x ∷ xs) = elim (Bool-cases (p x)) [
    | inl e ↦ rw e (rw (h x) (count-update_where p f h xs))
    | inr e ↦ rw e (rw e (count-update_where p f h xs))
  ]

  -- An UPDATE that no row matches changes nothing.
  pub update_where-miss :
      (p : A → Bool) (f : A → A) (xs : List A) → count_where p xs ≡ 0 → update_where p f xs ≡ xs
  update_where-miss p f [] h = refl
  update_where-miss p f (x ∷ xs) h = elim (Bool-cases (p x)) [
    | inl e ↦ absurd (omega (arith, rw e at h))
    | inr e ↦ rw e (ap (λ l. x ∷ l) (update_where-miss p f xs (rw e at h)))
  ]
