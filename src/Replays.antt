-- ===== src/Replays.antt =====
-- workers/dlq_replay_scheduler.py: the two sorted sets of delayed replays, each the list of its
-- members with their scores, in the order of the scores. A score is a number of seconds. How `uuid`
-- writes and reads an id are functions. The script and the ZREMs that follow it run with no other
-- command between them.
pub mod Members
pub mod Claims
pub mod Reclaims
use Prim.Native.Char.{Char}
use Prim.Native.String.{◌++◌ as ◌+++◌, ◌∷◌ as ◌∷∷◌, compare}
use incident_platform.Prelude.{
  ℕ, ◌+◌, ◌-◌, Bool, true, false, not, ◌&&◌, ◌||◌, Option, none, some, List, [], ◌∷◌, ◌++◌, String,
  str_eq, ◌==◌, ltb, leb, if◌then◌else◌, select, take, any, length, map,
}

pub record Armed : Type 0 where
  pub member : String
  pub score : ℕ

-- The two sets: `jobs:dlq_replay_delayed` and `jobs:dlq_replay_inflight`.
pub record Sets : Type 0 where
  pub scheduled : List Armed
  pub inflight : List Armed

abbrev pub claim_ttl_seconds : ℕ
claim_ttl_seconds = 60

abbrev pub claim_budget : ℕ
claim_budget = 1000

pub record Replay : Type 0 where
  pub tenant_id : ℕ
  pub principal_id : ℕ
  pub job_id : ℕ

abbrev pub is_member : String → Armed → Bool
is_member m a = str_eq m a.member

abbrev pub listed_text : String → List String → Bool
listed_text m ms = any (str_eq m) ms

-- ZREM of some members, and ZADD.
unfoldable pub zrem : List String → List Armed → List Armed
zrem ms set = select (λ a. not (listed_text a.member ms)) set

abbrev sorts_before : Armed → Armed → Bool
sorts_before new a =
    ltb new.score a.score
    || (new.score == a.score
        && elim (compare new.member a.member) [ Prim.Native.Nat.gt ↦ false | _ ↦ true ])

unfoldable pub insert : Armed → List Armed → List Armed
insert new [] = new ∷ []
insert new (a ∷ set) =
    let rest = insert new set in if sorts_before new a then new ∷ a ∷ set else a ∷ rest

unfoldable pub zadd : ℕ → String → List Armed → List Armed
unfolding zrem insert
zadd score m set = insert (record { member = m; score = score }) (zrem (m ∷ []) set)

unfoldable pub zadd_all : ℕ → List String → List Armed → List Armed
unfolding zadd
zadd_all score [] set = set
zadd_all score (m ∷ ms) set = zadd_all score ms (zadd score m set)

-- ZRANGEBYSCORE '-inf' now LIMIT 0 limit.
unfoldable pub range_by_score : ℕ → ℕ → List Armed → List String
range_by_score now limit set =
    take limit (map (λ (a : Armed). a.member) (select (λ (a : Armed). leb a.score now) set))

-- `_CLAIM_READY_LUA`: the members claimed, and the sets.
unfoldable pub claim_script : ℕ → ℕ → Sets → List String × Sets
unfolding range_by_score zrem zadd_all
claim_script now deadline sets =
    let lapsed = range_by_score now claim_budget sets.inflight in
    let due = range_by_score now (claim_budget - length lapsed) sets.scheduled in
    (
      lapsed ++ due,
      record {
        scheduled = zrem due sets.scheduled;
        inflight = zadd_all deadline (lapsed ++ due) sets.inflight;
      },
    )

-- `_member`.
unfoldable pub member : (ℕ → String) → Replay → String
member show r = show r.tenant_id +++ (":" +++ (show r.principal_id +++ (":" +++ show r.job_id)))

abbrev pub is_colon : Char → Bool
is_colon c = str_eq (c ∷∷ String.[]) ":"

abbrev behind : Char → Option (String × String) → Option (String × String)
behind c none = none
behind c (some (s, t)) = some (c ∷∷ s, t)

-- What stands before the first colon, and what stands after it.
unfoldable pub cut : String → Option (String × String)
cut String.[] = none
cut (c ∷∷ s) = let rest = cut s in if is_colon c then some (String.[], s) else behind c rest

infixl 5 ◌>>=◌
abbrev pub ◌>>=◌ : {A B : Type 0} → Option A → (A → Option B) → Option B
none >>= f = none
some a >>= f = f a

-- `uuid.UUID` of each of the three parts.
abbrev read_three : (String → Option ℕ) → String → String → String → Option Replay
read_three read t p j = do
  tenant ← read t
  principal ← read p
  job ← read j
  some (record { tenant_id = tenant; principal_id = principal; job_id = job })

-- `member.split(":", 2)`, and the unpacking of three parts.
abbrev read_last : (String → Option ℕ) → String → Option (String × String) → Option Replay
read_last read t none = none
read_last read t (some (p, j)) = read_three read t p j

abbrev read_rest : (String → Option ℕ) → Option (String × String) → Option Replay
read_rest read none = none
read_rest read (some (t, rest)) = read_last read t (cut rest)

-- `_parse`: `none` is its ValueError.
unfoldable pub parse : (String → Option ℕ) → String → Option Replay
unfolding cut
parse read m = read_rest read (cut m)

-- The loop over what the script returned: the replays read, and the members that read as none.
abbrev sort_read : String → Option Replay → List Replay × List String → List Replay × List String
sort_read m none (replays, bad) = (replays, m ∷ bad)
sort_read m (some r) (replays, bad) = (r ∷ replays, bad)

unfoldable pub read_all : (String → Option ℕ) → List String → List Replay × List String
unfolding parse
read_all read [] = ([], [])
read_all read (m ∷ ms) = sort_read m (parse read m) (read_all read ms)

-- `claim_ready`.
unfoldable pub claim_ready : ℕ → (String → Option ℕ) → Sets → List Replay × Sets
unfolding claim_script read_all zrem
claim_ready now read sets =
    let (claimed, sets') = claim_script now (now + claim_ttl_seconds) sets in
    let (replays, bad) = read_all read claimed in
    (replays, record sets' { inflight = zrem bad sets'.inflight })

-- `arm_replay`, `schedule_replay`, `cancel_scheduled_replay` and `ack_replay`.
unfoldable pub arm_replay : (ℕ → String) → Replay → ℕ → Sets → Sets
unfolding member zadd
arm_replay show r execute_at sets = record sets {
  scheduled = zadd execute_at (member show r) sets.scheduled;
}

unfoldable pub schedule_replay : ℕ → (ℕ → String) → Replay → ℕ → Sets → ℕ × Sets
unfolding arm_replay
schedule_replay now show r delay_seconds sets =
    (now + delay_seconds, arm_replay show r (now + delay_seconds) sets)

unfoldable pub cancel_scheduled_replay : (ℕ → String) → Replay → Sets → Sets
unfolding member zrem
cancel_scheduled_replay show r sets = record sets {
  scheduled = zrem (member show r ∷ []) sets.scheduled;
}

unfoldable pub ack_replay : (ℕ → String) → Replay → Sets → Sets
unfolding member zrem
ack_replay show r sets = record sets { inflight = zrem (member show r ∷ []) sets.inflight }
