-- ===== src/ReadModel/Projected.antt =====
-- All the views: a job is in one status of its tenant, and of its user, whatever events arrive.
use incident_platform.Prelude.{
  both, ℕ, ◌+◌, ◌≤◌, ◌≡◌, ◌⊎◌, refl, subst, Bool, true, false, not, ◌&&◌, Option, none, some,
  String, List, [], ◌∷◌, ◌==◌, ==_iff, if◌then◌else◌, length, arith, Bool-cases, inl, inr,
}
use incident_platform.ReadModel.{
  Status, same_tracked, tracked_statuses, is_terminal, Entry, Scope, tenant, user, Views, project,
  read_model_window, move, in_terminal, settle, handle_fields, new_status_of, StatusEvent,
  project_event,
}
use incident_platform.ReadModel.Views.{times, project-itself, project-others, length-project}
use incident_platform.ReadModel.Exclusive.{tracked, removed, removed-AllFewer, IsHit, removed-gone}

-- A view holds a job once at most and keeps to its window, and no two views of a scope hold one job.
pub record IsExclusive (views : Views) : Type 0 where
  pub once : (s : Scope) (st : Status) (i : ℕ) → times i (views s st).members ≤ 1
  pub windowed : (s : Scope) (st : Status) → length (views s st).members ≤ read_model_window
  pub one_status :
      (s : Scope) (st st' : Status) (i : ℕ)
      → same_tracked st st' ≡ false
      → times i (views s st).members + times i (views s st').members ≤ 1

module _ (t u : ℕ) (e : Entry) (new_status : Status) (views : Views) where
  abbrev before : Views
  before = removed t u e.job_id new_status tracked_statuses views

  abbrev hit : Scope → Bool
  hit (tenant a) = t == a
  hit (user a) = u == a

  hit-IsHit : (s : Scope) → hit s ≡ true → IsHit t u e.job_id new_status s
  hit-IsHit (tenant a) h = inl h
  hit-IsHit (user a) h = inr h

  cell :
      (s : Scope) (st : Status)
      → move t u e new_status views s st
        ≡ (if hit s && same_tracked new_status st then project e (before s st) else before s st)
  unfolding move
  cell (tenant a) st = refl
  cell (user a) st = refl

  module _ (ok : IsExclusive views) where
    fewer :
        (s : Scope) (st : Status) (i : ℕ)
        → times i (before s st).members ≤ times i (views s st).members
    fewer s st i = (removed-AllFewer t u e.job_id new_status tracked_statuses views s st).0 i

    moved-windowed :
        (s : Scope) (st : Status)
        → length (move t u e new_status views s st).members ≤ read_model_window
    moved-windowed s st = rw (cell s st) (elim (Bool-cases (hit s && same_tracked new_status st)) [
      | inl h ↦ rw h (length-project e (before s st))
      | inr h ↦ rw h (
          omega (
            arith,
            (removed-AllFewer t u e.job_id new_status tracked_statuses views s st).1,
            ok.windowed s st,
          ))
    ])

    -- A view after the move: another job stands in it no more often than before, and the moved one
    -- once at most in its new status and nowhere else in its scopes.
    moved_times :
        (s : Scope) (st : Status) (i : ℕ)
        → (times i (move t u e new_status views s st).members ≤ times i (views s st).members)
          ⊎ ((e.job_id ≡ i)
              × (hit s ≡ true)
              × (same_tracked new_status st ≡ true)
              × (times i (move t u e new_status views s st).members ≤ 1))
    moved_times s st i = rw (cell s st) (elim (Bool-cases (hit s && same_tracked new_status st)) [
      | inr h ↦ rw h (inl (fewer s st i))
      | inl h ↦ rw h (elim (Bool-cases (e.job_id == i)) [
        | inr n ↦ inl (omega (arith, project-others e (before s st) i n, fewer s st i))
        | inl same ↦
            let is = (==_iff e.job_id i).0 same in
            let (a, b) = both (hit s) (same_tracked new_status st) h in
            inr (
              is,
              a,
              b,
              subst (λ j. times j (project e (before s st)).members ≤ 1) is
                  (project-itself e (before s st)),
            )
      ])
    ])

    elsewhere :
        (s : Scope) (st : Status)
        → hit s ≡ true
        → same_tracked new_status st ≡ false
        → times e.job_id (move t u e new_status views s st).members ≡ 0
    elsewhere s st h n = rw (cell s st) (
        rw (h, n)
          (removed-gone t u e.job_id new_status tracked_statuses st views s (hit-IsHit s h) n
            (tracked st)))

    moved_one :
        (s : Scope) (st st' : Status) (i : ℕ)
        → same_tracked st st' ≡ false
        → times i (move t u e new_status views s st).members
            + times i (move t u e new_status views s st').members
          ≤ 1
    moved_one s st st' i apart = elim (moved_times s st i) [
      | inr (is, h, new, le) ↦
          let other : same_tracked new_status st' ≡ false = ground arith in
          omega (
            arith,
            le,
            subst (λ j. times j (move t u e new_status views s st').members ≡ 0) is
                (elsewhere s st' h other),
          )
      | inl le ↦ elim (moved_times s st' i) [
        | inl le' ↦ omega (arith, le, le', ok.one_status s st st' i apart)
        | inr (is, h, new, le') ↦
            let other : same_tracked new_status st ≡ false = ground arith in
            omega (
              arith,
              le',
              subst (λ j. times j (move t u e new_status views s st).members ≡ 0) is
                  (elsewhere s st h other),
            )
      ]
    ]

    move-IsExclusive : IsExclusive (move t u e new_status views)
    move-IsExclusive = record {
      once = λ s st i. elim (moved_times s st i) [
        | inl le ↦ omega (arith, le, ok.once s st i)
        | inr (is, h, new, le) ↦ le
      ];
      windowed = moved-windowed;
      one_status = moved_one;
    }

settle-IsExclusive :
    (now job_id user_id tenant_id : ℕ) (status : Option Status) (views : Views)
    → IsExclusive views
    → IsExclusive (settle now job_id user_id tenant_id status views)
unfolding settle
settle-IsExclusive now job_id user_id tenant_id none views ok = ok
settle-IsExclusive now job_id user_id tenant_id (some st) views ok =
    elim (Bool-cases (not (is_terminal st) && in_terminal tenant_id job_id views)) [
      | inl h ↦ rw h ok
      | inr h ↦
          rw h (
            move-IsExclusive tenant_id user_id (record { job_id = job_id; score = now }) st views
              ok)
    ]

fields-IsExclusive :
    (now : ℕ) (job_id user_id tenant_id : Option ℕ) (event : Option String) (dead_lettered : Bool)
    (views : Views)
    → IsExclusive views
    → IsExclusive (handle_fields now job_id user_id tenant_id event dead_lettered views)
unfolding handle_fields
fields-IsExclusive now none u t e d views ok = ok
fields-IsExclusive now (some j) none t e d views ok = ok
fields-IsExclusive now (some j) (some u) none e d views ok = ok
fields-IsExclusive now (some j) (some u) (some t) none d views ok = ok
fields-IsExclusive now (some j) (some u) (some t) (some e) d views ok =
    settle-IsExclusive now j u t (new_status_of e d) views ok

abbrev pub project_events : List (ℕ × StatusEvent) → Views → Views
project_events [] views = views
project_events ((now, value) ∷ events) views = project_events events (project_event now value views)

-- After any events, late, repeated or malformed, no view holds a job twice or more than ten thousand
-- jobs, and no job is in two statuses of its tenant or of its user.
pub project_events-IsExclusive :
    (events : List (ℕ × StatusEvent)) (views : Views)
    → IsExclusive views
    → IsExclusive (project_events events views)
unfolding project_event
project_events-IsExclusive [] views ok = ok
project_events-IsExclusive ((now, value) ∷ events) views ok =
    project_events-IsExclusive events (project_event now value views) (
      fields-IsExclusive now value.job_id value.user_id value.tenant_id value.event
        value.dead_lettered views ok)

-- The views of an empty Redis.
abbrev pub no_views : Views
no_views s st = record { members = []; evicted = 0 }

pub no_views-IsExclusive : IsExclusive no_views
no_views-IsExclusive = record {
  once = λ s st i. omega arith;
  windowed = λ s st. omega arith;
  one_status = λ s st st' i h. omega arith;
}
