-- ===== src/Consumer/Sticky.antt =====
-- The kill switch of a group: the flag, by the time at which Redis lets it go, and the marker of a
-- sticky kill with its own. `reads` and `sets` say whether Redis takes the two calls, `deadline_of`
-- what `float` makes of a marker, in milliseconds, none where it is unreadable or not finite.
use incident_platform.Prelude.{
  ℕ, ◌≤◌, ◌<◌, ◌≡◌, refl, sym, ap, ◌∙◌, Bool, true, false, not, Option, none, some, String, List,
  [], ◌∷◌, if◌then◌else◌, leb, ltb, arith, Bool-cases, inl, inr, some_eq, subst, lt→ltb,
}

pub record KillKeys : Type 0 where
  pub flag : Option ℕ
  pub marker : Option (ℕ × String)

pub record Redis : Type 0 where
  pub reads : Bool
  pub sets : Bool
  pub chaos_enabled : Bool
  pub deadline_of : String → Option ℕ

abbrev pub flag_at : ℕ → Option ℕ → Bool
flag_at now none = false
flag_at now (some expires_at) = ltb now expires_at

abbrev pub marker_at : ℕ → Option (ℕ × String) → Option String
marker_at now none = none
marker_at now (some (expires_at, raw)) = if ltb now expires_at then some raw else none

unfoldable pub sticky_deadline : Redis → Option String → Option ℕ
sticky_deadline redis none = none
sticky_deadline redis (some raw) = redis.deadline_of raw

-- `_rearm_sticky_kill`, from the deadline on: none where the write raises.
unfoldable pub rearm_until : Redis → ℕ → Option ℕ → KillKeys → Option Bool × KillKeys
rearm_until redis now none keys = (some false, keys)
rearm_until redis now (some deadline) keys =
    if leb deadline now
    then (some false, keys)
    else if not redis.chaos_enabled
    then (some false, keys)
    else if redis.sets
    then (some true, record keys { flag = some deadline })
    else (none, keys)

unfoldable pub rearm_sticky_kill : Redis → ℕ → Option String → KillKeys → Option Bool × KillKeys
unfolding sticky_deadline rearm_until
rearm_sticky_kill redis now marker keys = rearm_until redis now (sticky_deadline redis marker) keys

-- `_read_kill_state`: none where it raises, which is what `_check_chaos_kill_strict` does too.
unfoldable pub read_kill_state : Redis → ℕ → KillKeys → Option Bool × KillKeys
unfolding rearm_sticky_kill
read_kill_state redis now keys =
    if not redis.reads
    then (none, keys)
    else if flag_at now keys.flag
    then (some true, keys)
    else rearm_sticky_kill redis now (marker_at now keys.marker) keys

-- `_check_chaos_kill`: fails open.
abbrev pub or_false : Option Bool → Bool
or_false none = false
or_false (some b) = b

unfoldable pub check_chaos_kill : Redis → ℕ → KillKeys → Bool × KillKeys
unfolding read_kill_state
check_chaos_kill redis now keys =
    let (killed, keys') = read_kill_state redis now keys in (or_false killed, keys')

-- What happens to a group's keys: a check, strict or not, which read Redis as `redis` at `now`, and a
-- deletion of the flag by a restart.
pub data Event : Type 0 where
  checked : (redis : Redis) (now : ℕ) → Event
  flag_deleted : Event

unfoldable pub keys_after : List Event → KillKeys → KillKeys
unfolding read_kill_state
keys_after [] keys = keys
keys_after (checked redis now ∷ events) keys = keys_after events (read_kill_state redis now keys).1
keys_after (flag_deleted ∷ events) keys = keys_after events (record keys { flag = none })

-- The flag is gone by `deadline`, and the checks of a list read markers as ending by then.
abbrev Ends : ℕ → KillKeys → Type 0
Ends deadline keys = (e : ℕ) → keys.flag ≡ some e → e ≤ deadline

abbrev pub ReadBy : ℕ → Option (ℕ × String) → List Event → Type 0
ReadBy deadline marker [] = Unit
ReadBy deadline marker (flag_deleted ∷ events) = ReadBy deadline marker events
ReadBy deadline marker (checked redis now ∷ events) =
    ((d : ℕ) → sticky_deadline redis (marker_at now marker) ≡ some d → d ≤ deadline)
    × ReadBy deadline marker events

rearm_until-Ends :
    (redis : Redis) (now deadline : ℕ) (d : Option ℕ) (keys : KillKeys)
    → ((n : ℕ) → d ≡ some n → n ≤ deadline)
    → Ends deadline keys
    → Ends deadline (rearm_until redis now d keys).1
      × ((rearm_until redis now d keys).1.marker ≡ keys.marker)
unfolding rearm_until
rearm_until-Ends redis now deadline none keys h ends = (ends, refl)
rearm_until-Ends redis now deadline (some n) keys h ends = elim (Bool-cases (leb n now)) [
  | inl l ↦ rw l (ends, refl)
  | inr l ↦ elim (Bool-cases redis.chaos_enabled) [
    | inr c ↦ rw (l, c) (ends, refl)
    | inl c ↦ elim (Bool-cases redis.sets) [
      | inr s ↦ rw (l, c, s) (ends, refl)
      | inl s ↦ rw (l, c, s) (λ e at. omega (arith, some_eq n e at, h n refl), refl)
    ]
  ]
]

read-Ends :
    (redis : Redis) (now deadline : ℕ) (keys : KillKeys)
    → ((d : ℕ) → sticky_deadline redis (marker_at now keys.marker) ≡ some d → d ≤ deadline)
    → Ends deadline keys
    → Ends deadline (read_kill_state redis now keys).1
      × ((read_kill_state redis now keys).1.marker ≡ keys.marker)
unfolding read_kill_state rearm_sticky_kill
read-Ends redis now deadline keys h ends = elim (Bool-cases redis.reads) [
  | inr r ↦ rw r (ends, refl)
  | inl r ↦ elim (Bool-cases (flag_at now keys.flag)) [
    | inl f ↦ rw (r, f) (ends, refl)
    | inr f ↦
        rw (r, f)
          (rearm_until-Ends redis now deadline (sticky_deadline redis (marker_at now keys.marker))
            keys h ends)
  ]
]

keys-Ends :
    (deadline : ℕ) (events : List Event) (keys : KillKeys)
    → ReadBy deadline keys.marker events
    → Ends deadline keys
    → Ends deadline (keys_after events keys) × ((keys_after events keys).marker ≡ keys.marker)
unfolding keys_after
keys-Ends deadline [] keys h ends = (ends, refl)
keys-Ends deadline (flag_deleted ∷ events) keys h ends =
    keys-Ends deadline events (record keys { flag = none }) h (λ e at. cc)
keys-Ends deadline (checked redis now ∷ events) keys (h, hs) ends =
    let (ends', same) = read-Ends redis now deadline keys h ends in
    let (last, kept) =
      keys-Ends deadline events (read_kill_state redis now keys).1
        (subst (λ m. ReadBy deadline m events) (sym same) hs) ends' in
    (last, kept ∙ same)

flag_over :
    (now deadline : ℕ) (flag : Option ℕ)
    → ((e : ℕ) → flag ≡ some e → e ≤ deadline)
    → deadline ≤ now
    → flag_at now flag ≡ false
flag_over now deadline none ends le = refl
flag_over now deadline (some e) ends le = ground (arith, ends e refl)

flag_holds :
    (now deadline : ℕ) (flag : Option ℕ)
    → ((e : ℕ) → flag ≡ some e → e ≤ deadline)
    → flag_at now flag ≡ true
    → ltb now deadline ≡ true
flag_holds now deadline none ends h = cc
flag_holds now deadline (some e) ends h = ground (arith, ends e refl)

module _ (redis : Redis) (now deadline : ℕ) (keys : KillKeys) (reads : redis.reads ≡ true)
    (ends : Ends deadline keys) where
  rearm-over :
      (d : Option ℕ)
      → ((n : ℕ) → d ≡ some n → n ≤ deadline)
      → deadline ≤ now
      → (rearm_until redis now d keys).0 ≡ some false
  unfolding rearm_until
  rearm-over none h le = refl
  rearm-over (some n) h le = ground (arith, h n refl)

  read-over :
      ((d : ℕ) → sticky_deadline redis (marker_at now keys.marker) ≡ some d → d ≤ deadline)
      → deadline ≤ now
      → (read_kill_state redis now keys).0 ≡ some false
  unfolding read_kill_state rearm_sticky_kill
  read-over h le =
      rw (reads, flag_over now deadline keys.flag ends le)
        (rearm-over (sticky_deadline redis (marker_at now keys.marker)) h le)

  read-within :
      redis.sets ≡ true
      → redis.chaos_enabled ≡ true
      → sticky_deadline redis (marker_at now keys.marker) ≡ some deadline
      → (read_kill_state redis now keys).0 ≡ some (ltb now deadline)
  unfolding read_kill_state rearm_sticky_kill rearm_until
  read-within sets chaos at = elim (Bool-cases (flag_at now keys.flag)) [
    | inl f ↦ rw (reads, f) (ap some (sym (flag_holds now deadline keys.flag ends f)))
    | inr f ↦
        rw (reads, f, at)
          (elim (Bool-cases (leb deadline now)) [
            | inl l ↦ rw l (ap some (over deadline now l))
            | inr l ↦ rw (l, chaos, sets) (ap some (within deadline now l))
          ])
  ]
    where
      over : (d n : ℕ) → leb d n ≡ true → false ≡ ltb n d
      over d n h = ground arith

      within : (d n : ℕ) → leb d n ≡ false → true ≡ ltb n d
      within d n h = ground arith

-- A sticky kill ends at its deadline and not before: whatever checks and deletions of the flag came
-- before, a group reads as killed up to the deadline while the marker stands, under chaos with Redis
-- answering, and as not killed from the deadline on.
pub sticky_window_exact :
    (redis : Redis) (now expires_at deadline : ℕ) (raw : String) (events : List Event)
    (keys : KillKeys)
    → redis.reads ≡ true
    → redis.sets ≡ true
    → redis.chaos_enabled ≡ true
    → redis.deadline_of raw ≡ some deadline
    → keys.marker ≡ some (expires_at, raw)
    → ReadBy deadline keys.marker (checked redis now ∷ events)
    → ((e : ℕ) → keys.flag ≡ some e → e ≤ deadline)
    → let killed = (read_kill_state redis now (keys_after events keys)).0 in
      (now < expires_at → killed ≡ some (ltb now deadline)) × (deadline ≤ now → killed ≡ some false)
unfolding sticky_deadline
sticky_window_exact redis now expires_at deadline raw events keys reads sets chaos parsed is (h, hs)
      ends =
    let (ends', same) = keys-Ends deadline events keys hs ends in
    (
      λ lt. read-within redis now deadline (keys_after events keys) reads ends' sets chaos (
          ap (λ m. sticky_deadline redis (marker_at now m)) (same ∙ is)
          ∙ rw (lt→ltb now expires_at lt) parsed),
      read-over redis now deadline (keys_after events keys) reads ends' (
          subst (λ m. (d : ℕ) → sticky_deadline redis (marker_at now m) ≡ some d → d ≤ deadline)
            (sym same) h),
    )
