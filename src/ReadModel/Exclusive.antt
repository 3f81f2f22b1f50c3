-- ===== src/ReadModel/Exclusive.antt =====
-- The first half of `_move`: the job is taken out of every other status of its tenant and of its
-- user.
use incident_platform.Prelude.{
  ℕ, ◌≡◌, ◌⊎◌, refl, Bool, true, false, ◌&&◌, List, [], ◌∷◌, any, arith, Bool-cases, inl, inr,
}
use incident_platform.ReadModel.{
  Status, running, completed, failed, dead_letter, cancelled, same_tracked, tracked_statuses, Scope,
  tenant, user, same_scope, Views, change, without, remove_others,
}
use incident_platform.ReadModel.Views.{times, Fewer, Fewer-refl, Fewer-trans, zrem-Fewer, zrem-gone}

abbrev pub AllFewer : Views → Views → Type 0
AllFewer views views' = (s : Scope) (st : Status) → Fewer (views s st).members (views' s st).members

change-AllFewer :
    (scope : Scope) (status : Status) (job : ℕ) (views : Views)
    → AllFewer views (change scope status (without job) views)
change-AllFewer scope status job views s st =
    elim (Bool-cases (same_scope scope s && same_tracked status st)) [
      | inl e ↦ rw e (zrem-Fewer job (views s st).members)
      | inr e ↦ rw e (Fewer-refl (views s st).members)
    ]

change-there :
    (scope : Scope) (status : Status) (job : ℕ) (views : Views) (s : Scope) (st : Status)
    → same_scope scope s ≡ true
    → same_tracked status st ≡ true
    → times job (change scope status (without job) views s st).members ≡ 0
change-there scope status job views s st a b = rw (a, b) (zrem-gone job (views s st).members)

abbrev pub listed_status : Status → List Status → Bool
listed_status st sts = any (λ x. same_tracked x st) sts

pub tracked : (st : Status) → listed_status st tracked_statuses ≡ true
tracked running = refl
tracked completed = refl
tracked failed = refl
tracked dead_letter = refl
tracked cancelled = refl

module _ (t u job : ℕ) (new_status : Status) where
  abbrev removed_at : Status → Views → Views
  removed_at st views = change (user u) st (without job) (change (tenant t) st (without job) views)

  removed_at-AllFewer : (st : Status) (views : Views) → AllFewer views (removed_at st views)
  removed_at-AllFewer st views s st' =
      let first = change (tenant t) st (without job) views in
      Fewer-trans (views s st').members (first s st').members (removed_at st views s st').members
        (change-AllFewer (tenant t) st job views s st')
        (change-AllFewer (user u) st job first s st')

  abbrev pub removed : List Status → Views → Views
  removed sts views = remove_others (tenant t) (user u) job new_status sts views

  pub removed-AllFewer : (sts : List Status) (views : Views) → AllFewer views (removed sts views)
  unfolding remove_others
  removed-AllFewer [] views s st = Fewer-refl (views s st).members
  removed-AllFewer (x ∷ sts) views s st = elim (Bool-cases (same_tracked x new_status)) [
    | inl e ↦ rw e (removed-AllFewer sts views s st)
    | inr e ↦ rw e (
        Fewer-trans (views s st).members (removed_at x views s st).members
          (removed sts (removed_at x views) s st).members (removed_at-AllFewer x views s st)
          (removed-AllFewer sts (removed_at x views) s st))
  ]

  -- The two scopes of the job.
  abbrev pub IsHit : Scope → Type 0
  IsHit s = (same_scope (tenant t) s ≡ true) ⊎ (same_scope (user u) s ≡ true)

  removed_at-gone :
      (st st' : Status) (views : Views) (s : Scope)
      → IsHit s
      → same_tracked st st' ≡ true
      → times job (removed_at st views s st').members ≡ 0
  removed_at-gone st st' views s (inr h) same =
      change-there (user u) st job (change (tenant t) st (without job) views) s st' h same
  removed_at-gone st st' views s (inl h) same =
      let first = change (tenant t) st (without job) views in
      omega (
        arith,
        (change-AllFewer (user u) st job first s st').0 job,
        change-there (tenant t) st job views s st' h same,
      )

  pub removed-gone :
      (sts : List Status) (st : Status) (views : Views) (s : Scope)
      → IsHit s
      → same_tracked new_status st ≡ false
      → listed_status st sts ≡ true
      → times job (removed sts views s st).members ≡ 0
  unfolding remove_others
  removed-gone [] st views s h n l = cc
  removed-gone (x ∷ sts) st views s h n l = elim (Bool-cases (same_tracked x st)) [
    | inl e ↦
        let other : same_tracked x new_status ≡ false = ground arith in
        rw other (
          omega (
            arith,
            (removed-AllFewer sts (removed_at x views) s st).0 job,
            removed_at-gone x st views s h e,
          ))
    | inr e ↦ elim (Bool-cases (same_tracked x new_status)) [
      | inl f ↦ rw f (removed-gone sts st views s h n (rw e at l))
      | inr f ↦ rw f (removed-gone sts st (removed_at x views) s h n (rw e at l))
    ]
  ]
