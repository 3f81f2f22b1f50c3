-- ===== src/DagPause.antt =====
-- utils/dag_pause.py and `parents` of repositories/job_dependency.py: the walk up the dependency
-- edges, and the pause flag that holds a job back. A Redis read is `none` where it raises.
pub mod Walk
pub mod Ancestors
use incident_platform.Prelude.{
  true, false, ℕ, zero, suc, ◌+◌, Bool, Option, none, some, List, [], ◌∷◌, ◌++◌, map, ltb, ◌==◌,
  if◌then◌else◌, length, select, member,
}
use incident_platform.Store.{Edge}

-- `JobDependencyRepository.parents`.
abbrev pub parents : List Edge → ℕ → List ℕ
parents [] n = []
parents (e ∷ es) n = let rest = parents es n in if e.job_id == n then e.depends_on ∷ rest else rest

-- `JobDependencyRepository.children_of`.
abbrev pub children_of : List Edge → ℕ → List ℕ
children_of [] n = []
children_of (e ∷ es) n =
    let rest = children_of es n in if e.depends_on == n then e.job_id ∷ rest else rest

abbrev pub max_ancestor_nodes : ℕ
max_ancestor_nodes = 64

-- The `while` of `collect_ancestors`, on fuel. The set `seen` holds what the list `order` holds.
unfoldable pub walk : ℕ → List Edge → List ℕ → List ℕ → Option (List ℕ)
walk zero edges frontier order = none
walk (suc fuel) edges [] order = some order
walk (suc fuel) edges (node ∷ frontier) order =
    let rest =
      walk fuel edges (if member node order then frontier else frontier ++ parents edges node)
        (if member node order then order else order ++ node ∷ []) in
    if ltb (length order) max_ancestor_nodes then rest else some order

abbrev or_empty : Option (List ℕ) → List ℕ
or_empty none = []
or_empty (some order) = order

-- `collect_ancestors` with `include_self`: each edge is pushed at most once.
unfoldable pub collect_ancestors : List Edge → ℕ → List ℕ
collect_ancestors edges job = or_empty (walk (length edges + 2) edges (job ∷ []) [])

-- The `for node, value in zip(nodes, values)` of `find_blocking_pause`.
unfoldable pub first_paused : (ℕ → Bool) → List ℕ → Option ℕ
first_paused paused [] = none
first_paused paused (node ∷ nodes) =
    let rest = first_paused paused nodes in if paused node then some node else rest

-- `find_blocking_pause`; a failed lookup reads as unpaused.
unfoldable pub find_blocking_pause : Option (ℕ → Bool) → List Edge → ℕ → Option ℕ
unfolding first_paused
find_blocking_pause none edges job = none
find_blocking_pause (some paused) edges job = first_paused paused (collect_ancestors edges job)

-- What Redis's TTL says of a pause flag, -2 and -1 included, or that the lookup raised.
pub data Ttl : Type 0 where
  missing no_expiry lookup_raised : Ttl
  expires_in : (seconds : ℕ) → Ttl

-- `pause_state`: whether the job's own flag is set, and for how long.
unfoldable pub pause_state : Ttl → Bool × Option ℕ
pause_state missing = (false, none)
pause_state lookup_raised = (false, none)
pause_state no_expiry = (true, none)
pause_state (expires_in seconds) = (true, some seconds)
