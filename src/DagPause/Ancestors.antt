-- ===== src/DagPause/Ancestors.antt =====
-- What the pause lookup finds: the flags on the job and on what it depends on, and no others.
use incident_platform.Prelude.{
  ℕ, ◌+◌, ◌≤◌, ◌<◌, ◌≡◌, ◌↔◌, suc, refl, sym, ap, Bool, true, false, none, some, List, [], ◌∷◌,
  arith, length, member, ==_refl, ==_iff, append-nil, subst,
}
use incident_platform.Store.{Edge}
use incident_platform.DagPause.{
  parents, walk, max_ancestor_nodes, collect_ancestors, first_paused, find_blocking_pause,
}
use incident_platform.DagPause.Walk.{
  unlisted, walk_total, length-walk-le, Ancestor, self, up, Listed, walk-Ancestor, walk_closed,
  walk_keeps,
}

unlisted-nil : (edges : List Edge) → unlisted edges [] ≡ length edges
unlisted-nil [] = refl
unlisted-nil (e ∷ es) = ap suc (unlisted-nil es)

module _ (edges : List Edge) (job : ℕ) where
  -- The `while` of `collect_ancestors` returns within as many steps as there are edges and two,
  -- whatever the edges, cycles included.
  pub collect_ancestors_total :
      walk (length edges + 2) edges (job ∷ []) [] ≡ some (collect_ancestors edges job)
  unfolding collect_ancestors
  collect_ancestors_total =
      let (r, e) =
        walk_total (length edges + 2) edges (job ∷ []) [] (omega (arith, unlisted-nil edges)) in
      rw e

  -- `collect_ancestors` lists at most 64 jobs.
  pub length-collect_ancestors-le : length (collect_ancestors edges job) ≤ max_ancestor_nodes
  length-collect_ancestors-le =
      length-walk-le (length edges + 2) edges (job ∷ []) [] (collect_ancestors edges job)
        (omega arith) collect_ancestors_total

  -- `collect_ancestors` lists only the job and its ancestors.
  pub collect_ancestors_sound : Listed (Ancestor edges job) (collect_ancestors edges job)
  collect_ancestors_sound =
      walk-Ancestor edges job (length edges + 2) (job ∷ []) [] (collect_ancestors edges job)
        (λ a m. subst (Ancestor edges job) (ground (arith, ==_iff a job)) self) (λ a m. cc)
        collect_ancestors_total

  lists_job : member job (collect_ancestors edges job) ≡ true
  unfolding walk
  lists_job =
      let e : length edges + 2 ≡ suc (length edges + 1) = omega arith in
      walk_keeps (length edges + 1) edges (parents edges job) (job ∷ [])
        (collect_ancestors edges job) job (ground (arith, ==_refl job))
        (rw e at collect_ancestors_total)

  -- Where `collect_ancestors` lists fewer than 64 jobs, it lists the job and every ancestor.
  pub collect_ancestors_complete :
      length (collect_ancestors edges job) < max_ancestor_nodes
      → (a : ℕ) → Ancestor edges job a
      → member a (collect_ancestors edges job) ≡ true
  collect_ancestors_complete b a self = lists_job
  collect_ancestors_complete b a (up {m = m} h p) =
      rw (sym (append-nil (collect_ancestors edges job))) (
        walk_closed edges job (length edges + 2) (job ∷ []) [] (collect_ancestors edges job)
          (λ n q x y. cc) collect_ancestors_total b m a (collect_ancestors_complete b m h) p)

first_paused-some :
    (paused : ℕ → Bool) (nodes : List ℕ) (a : ℕ)
    → first_paused paused nodes ≡ some a
    → (member a nodes ≡ true) × (paused a ≡ true)
unfolding first_paused
first_paused-some paused [] a h = cc
first_paused-some paused (x ∷ xs) a h = ground (arith, first_paused-some paused xs a, ==_iff a x)

first_paused-none :
    (paused : ℕ → Bool) (nodes : List ℕ) (a : ℕ)
    → first_paused paused nodes ≡ none
    → member a nodes ≡ true
    → paused a ≡ false
unfolding first_paused
first_paused-none paused [] a h m = cc
first_paused-none paused (x ∷ xs) a h m = ground (arith, first_paused-none paused xs a, ==_iff a x)

none_of :
    (paused : ℕ → Bool) (nodes : List ℕ)
    → Listed (λ a. paused a ≡ false) nodes
    → first_paused paused nodes ≡ none
unfolding first_paused
none_of paused [] h = refl
none_of paused (x ∷ xs) h =
    ground (arith, h x (ground (arith, ==_refl x)), none_of paused xs (λ a m. h a (ground arith)))

-- A reported pause is a flag that is set, on the job itself or on one of its ancestors.
pub find_blocking_pause-some :
    (paused : ℕ → Bool) (edges : List Edge) (job a : ℕ)
    → find_blocking_pause (some paused) edges job ≡ some a
    → Ancestor edges job a × (paused a ≡ true)
unfolding find_blocking_pause
find_blocking_pause-some paused edges job a h =
    let (m, p) = first_paused-some paused (collect_ancestors edges job) a h in
    (collect_ancestors_sound edges job a m, p)

-- Where `collect_ancestors` lists fewer than 64 jobs, no pause is reported exactly when no flag is
-- set on the job or on any of its ancestors.
pub find_blocking_pause-none :
    (paused : ℕ → Bool) (edges : List Edge) (job : ℕ)
    → length (collect_ancestors edges job) < max_ancestor_nodes
    → (find_blocking_pause (some paused) edges job ≡ none)
      ↔ ((a : ℕ) → Ancestor edges job a → paused a ≡ false)
unfolding find_blocking_pause
find_blocking_pause-none paused edges job b = (
  λ h a anc.
      first_paused-none paused (collect_ancestors edges job) a h
        (collect_ancestors_complete edges job b a anc),
  λ h.
      none_of paused (collect_ancestors edges job)
        (λ a m. h a (collect_ancestors_sound edges job a m)),
)
