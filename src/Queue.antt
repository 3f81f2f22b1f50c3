-- ===== src/Queue.antt =====
-- workers/queue.py: the sorted set `jobs:delayed`, as the list of its members with their scores, in
-- the order of the scores. A `time.time()` is a number of seconds.
pub mod Due
use incident_platform.Prelude.{
  ℕ, zero, suc, ◌+◌, Bool, true, false, not, ◌&&◌, ◌||◌, List, [], ◌∷◌, ◌++◌, ◌==◌, ltb, leb,
  if◌then◌else◌, length,
}

pub record Delayed : Type 0 where
  pub member : ℕ
  pub score : ℕ

-- ZREM.
unfoldable pub remove : ℕ → List Delayed → List Delayed
remove id [] = []
remove id (d ∷ ds) = let rest = remove id ds in if d.member == id then rest else d ∷ rest

-- The place of a new member: by its score, and by its name among equal ones.
unfoldable pub place : Delayed → List Delayed → List Delayed
place new [] = new ∷ []
place new (d ∷ ds) =
    let rest = place new ds in
    if ltb new.score d.score || (new.score == d.score && leb new.member d.member)
    then new ∷ d ∷ ds
    else d ∷ rest

-- `push_delayed`: ZADD moves a member that is there already.
unfoldable pub push_delayed : ℕ → ℕ → ℕ → List Delayed → List Delayed
unfolding remove place
push_delayed now id delay_seconds set =
    place (record { member = id; score = now + delay_seconds }) (remove id set)

abbrev pub pop_limit : ℕ
pop_limit = 1000

-- The members that `_POP_READY_LUA` returns, at most `limit` of them, and the set that is left.
unfoldable pub take_due : ℕ → ℕ → List Delayed → List Delayed × List Delayed
take_due zero now set = ([], set)
take_due (suc n) now [] = ([], [])
take_due (suc n) now (d ∷ ds) =
    let (due, left) = take_due n now ds in if leb d.score now then (d ∷ due, left) else ([], d ∷ ds)

unfoldable pub pop_ready_delayed : ℕ → List Delayed → List Delayed × List Delayed
unfolding take_due
pop_ready_delayed now set = take_due pop_limit now set
