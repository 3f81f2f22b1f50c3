-- ===== src/Consumer/Loop.antt =====
-- `run`: the consume loop, turn by turn. What a turn meets, in its order: the kill switch, the
-- injected latency, and how the fetch ends. A pause is in milliseconds.
use incident_platform.Prelude.{
  ℕ, ◌+◌, Bool, true, false, not, ◌&&◌, Option, none, some, List, [], ◌∷◌, if◌then◌else◌,
}
use incident_platform.Consumer.{Client, Outside, Records, process_batch, fetched}

pub data Fetch : Type 0 where
  got_records : (records : Records) (out : Outside) → Fetch
  timed_out : Fetch
  cancelled : Fetch
  raised : Fetch

pub record Turn : Type 0 where
  pub now : ℕ
  pub chaos_enabled : Bool
  pub killed : Bool
  pub latency_ms : ℕ
  pub fetch : Fetch

pub record Loop : Type 0 where
  pub running : Bool
  pub chaos_killed : Bool
  pub last_poll_at : Option ℕ
  pub client : Client

abbrev pub poll_retry_pause_ms : ℕ
poll_retry_pause_ms = 1000

abbrev pub after_batch : Option Bool × Client → Loop → Bool × ℕ × Loop
after_batch (none, k) l = (true, poll_retry_pause_ms, record l { client = k })
after_batch (some had_failure, k) l =
    (true, if had_failure then poll_retry_pause_ms else 0, record l { client = k })

-- Whether the loop goes on, the pause, and what the turn leaves.
unfoldable pub after_fetch : Fetch → Loop → Bool × ℕ × Loop
unfolding process_batch fetched
after_fetch (got_records records out) l =
    after_batch (process_batch out records false (fetched records l.client)) l
after_fetch timed_out l = (true, 0, l)
after_fetch cancelled l = (false, 0, l)
after_fetch raised l = (true, poll_retry_pause_ms, l)

unfoldable pub turn : Turn → Loop → Bool × ℕ × Loop
unfolding after_fetch
turn t l =
    if t.chaos_enabled && t.killed
    then (false, 0, record l { chaos_killed = true })
    else let (goes_on, pause, l') = after_fetch t.fetch (record l { last_poll_at = some t.now }) in
      (goes_on, (if t.chaos_enabled then t.latency_ms else 0) + pause, l')

-- The loop, over the turns that it is given: whether it is still running, how long it paused, and
-- what it leaves.
unfoldable pub on_turn : (Loop → Bool × ℕ × Loop) → Bool × ℕ × Loop → Bool × ℕ × Loop
on_turn rest (false, pause, l) = (false, pause, l)
on_turn rest (true, pause, l) = let (goes_on, later, l') = rest l in (goes_on, pause + later, l')

unfoldable pub consume : List Turn → Loop → Bool × ℕ × Loop
unfolding turn on_turn
consume [] l = (l.running, 0, l)
consume (t ∷ ts) l =
    if not l.running then (false, 0, l) else on_turn (λ l'. consume ts l') (turn t l)
