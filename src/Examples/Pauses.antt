-- ===== src/Examples/Pauses.antt =====
-- The theorems on the walk up the dependencies, at concrete inputs.
use incident_platform.Examples.{db, paused_at}
use incident_platform.Prelude.{ℕ, ◌+◌, ◌≡◌, ◌↔◌, false, none, some, [], ◌∷◌, arith, length}
use incident_platform.DagPause.{collect_ancestors, walk, find_blocking_pause}
use incident_platform.DagPause.Walk.{Ancestor}
use incident_platform.DagPause.Ancestors.{collect_ancestors_total, find_blocking_pause-none}

collect_ancestors_total_example :
    walk (length db.edges + 2) db.edges (3 ∷ []) [] ≡ some (collect_ancestors db.edges 3)
collect_ancestors_total_example = collect_ancestors_total db.edges 3

find_blocking_pause-none_example :
    (find_blocking_pause (some (paused_at 9)) db.edges 3 ≡ none)
    ↔ ((a : ℕ) → Ancestor db.edges 3 a → paused_at 9 a ≡ false)
unfolding collect_ancestors walk
find_blocking_pause-none_example = find_blocking_pause-none (paused_at 9) db.edges 3 (omega arith)
