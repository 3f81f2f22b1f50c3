-- ===== src/Consumer/Delivered.antt =====
-- At-least-once delivery, over every run of a group's consumers: polls, failures and restarts.
use incident_platform.Prelude.{
  not, if◌then◌else◌, List, ◌&&◌, inr, inl, Option-cases, ℕ, ◌<◌, ◌≡◌, refl, sym, ap, ◌∙◌, subst,
  Bool, true, false, ◌||◌, Option, none, some, [], ◌∷◌, ◌⊎◌, arith, Bool-cases,
}
use incident_platform.Consumer.Loop.{
  Fetch, got_records, timed_out, cancelled, raised, Turn, Loop, after_batch, after_fetch, turn,
  on_turn, consume,
}
use incident_platform.Consumer.{
  end_of, advance, fetched, from_committed, start, after_partition, TopicPartition, ConsumerRecord,
  same_tp, Client, Outside, process_partition, Records, process_batch,
}
use incident_platform.Consumer.Covered.{
  same_tp_sym, Log, same_tp_refl, same_tp_eq, listed_record, Follows, Covered,
}
use incident_platform.Consumer.Partitions.{Answers, partition-Step}

-- A partition that a batch holds no messages of.
abbrev pub Absent : TopicPartition → Records → Type 0
Absent q [] = Unit
Absent q ((tp, ms) ∷ rest) = (same_tp q tp ≡ false) × Absent q rest

-- What a fetch returns: distinct partitions, and of each the messages from the bound on, past which
-- the client has moved its position.
abbrev pub FetchedFrom : Log → (TopicPartition → ℕ) → Client → Records → Type 0
FetchedFrom log bound k [] = Unit
FetchedFrom log bound k ((tp, ms) ∷ rest) =
    Follows log tp (bound tp) ms
    × (k.position tp ≡ end_of (bound tp) ms)
    × Absent tp rest
    × FetchedFrom log bound k rest

module _ (valid : ConsumerRecord → Bool) (log : Log) where
  still_fetched :
      (tp : TopicPartition) (rest : Records) (bound after : TopicPartition → ℕ) (k k' : Client)
      → ((q : TopicPartition)
          → same_tp tp q ≡ false
          → (after q ≡ bound q) × (k'.position q ≡ k.position q))
      → Absent tp rest
      → FetchedFrom log bound k rest
      → FetchedFrom log after k' rest
  still_fetched tp [] bound after k k' same absent f = tt
  still_fetched tp ((tq, ms) ∷ rest) bound after k k' same absent (follows, at, apart, f) =
      let (b, p) = same tq absent.0 in
      (
        subst (λ n. Follows log tq n ms) (sym b) follows,
        p ∙ at ∙ ap (λ n. end_of n ms) (sym b),
        apart,
        still_fetched tp rest bound after k k' same absent.1 f,
      )

  same-Covered :
      (bound after : TopicPartition → ℕ) (k : Client)
      → ((q : TopicPartition) → after q ≡ bound q)
      → Covered valid log bound k
      → Covered valid log after k
  same-Covered bound after k same c = record {
    settled = λ tp o m below there. c.settled tp o m (rw (sym (same tp)) below) there;
    committed_below = λ tp n at. rw (same tp) (c.committed_below tp n at);
  }

  module _ (out : Outside) (ans : Answers valid log out) where
    batch-Covered :
        (records : Records) (had : Bool) (bound : TopicPartition → ℕ) (k : Client)
        → Covered valid log bound k
        → FetchedFrom log bound k records
        → ((q : TopicPartition) → Absent q records → k.position q ≡ bound q)
        → let (ended, k') = process_batch out records had k in
          ((b : Bool) × (ended ≡ some b)) × Covered valid log k'.position k'
    unfolding process_batch after_partition
    batch-Covered [] had bound k c f p =
        ((had, refl), same-Covered bound k.position k (λ q. p q tt) c)
    batch-Covered ((tp, ms) ∷ rest) had bound k c (follows, at, absent, f) p =
        let s = partition-Step valid log out ans tp ms bound k c follows in
        let k' = (process_partition out tp ms k).1 in
        let go : Bool → Client → Option Bool × Client =
          λ failed v. process_batch out rest failed v in
        let pair : process_partition out tp ms k ≡ (some s.ended, k') =
          ap (λ r. (r, k')) s.returns in
        let next : process_batch out ((tp, ms) ∷ rest) had k
            ≡ process_batch out rest (had || s.ended) k' =
          ap (after_partition go had) pair in
        rw next (
          batch-Covered rest (had || s.ended) s.after k' s.covered
            (still_fetched tp rest bound s.after k k' s.elsewhere absent f)
            (λ q gone. elim (Bool-cases (same_tp tp q)) [
              | inl e ↦
                  subst (λ t. k'.position t ≡ s.after t) (same_tp_eq tp q e) (s.position_at at)
              | inr n ↦
                  (s.elsewhere q n).1 ∙ p q (same_tp_sym tp q n, gone) ∙ sym (s.elsewhere q n).0
            ]))

-- A fetch: distinct partitions, and of each the messages from the position on.
abbrev pub Fetched : Log → (TopicPartition → ℕ) → Records → Type 0
Fetched log position [] = Unit
Fetched log position ((tp, ms) ∷ rest) =
    Follows log tp (position tp) ms × Absent tp rest × Fetched log position rest

-- What the turns of the loop meet: fetches of the log, from consumers that answer.
abbrev pub ServedTurn : (ConsumerRecord → Bool) → Log → Fetch → Client → Type 0
ServedTurn valid log (got_records records out) k =
    Answers valid log out × Fetched log k.position records
ServedTurn valid log timed_out k = Unit
ServedTurn valid log cancelled k = Unit
ServedTurn valid log raised k = Unit

abbrev pub Served : (ConsumerRecord → Bool) → Log → List Turn → Loop → Type 0
Served valid log [] l = Unit
Served valid log (t ∷ ts) l =
    ServedTurn valid log t.fetch l.client × Served valid log ts (turn t l).2

-- The runs of a group: a consumer loops, is stopped at any message, since a fetch may be cut short
-- anywhere, and another one starts.
pub data Polled (valid : ConsumerRecord → Bool) (log : Log) : Client → Type 0 where
  fresh : Polled valid log (record { position = λ tp. 0; committed = λ tp. none; handled = [] })
  ran :
      (turns : List Turn) (l : Loop)
      → Served valid log turns l
      → Polled valid log l.client
      → Polled valid log (consume turns l).2.client
  restarted : {k : Client} → Polled valid log k → Polled valid log (start k)

module _ (valid : ConsumerRecord → Bool) (log : Log) where
  fetched_from :
      (records : Records) (k : Client)
      → Fetched log k.position records
      → FetchedFrom log k.position (fetched records k) records
  unfolding advance fetched
  fetched_from [] k f = tt
  fetched_from ((tp, ms) ∷ rest) k (follows, absent, f) = (
    follows,
    rw (same_tp_refl tp) refl,
    absent,
    still_fetched valid log tp rest k.position k.position (fetched rest k)
        (fetched ((tp, ms) ∷ rest) k) (λ q n. (refl, rw n refl)) absent (fetched_from rest k f),
  )

  advance-Absent :
      (q : TopicPartition) (records : Records) (position : TopicPartition → ℕ)
      → Absent q records
      → advance records position q ≡ position q
  unfolding advance
  advance-Absent q [] position a = refl
  advance-Absent q ((tp, ms) ∷ rest) position (n, a) =
      rw (same_tp_sym q tp n) (advance-Absent q rest position a)

  start-Covered :
      (k : Client) → Covered valid log k.position k → Covered valid log (start k).position (start k)
  unfolding start
  start-Covered k c = record {
    settled = λ tp o m below there. elim (Option-cases (k.committed tp)) [
      | inl e ↦ absurd (omega (arith, below, ap from_committed e))
      | inr (n, e) ↦
          c.settled tp o m (omega (arith, below, ap from_committed e, c.committed_below tp n e))
            there
    ];
    committed_below = λ tp n at. rw at (omega arith);
  }

  abbrev Good : Loop → Type 0
  Good l = Covered valid log l.client.position l.client

  after_batch-Good :
      (ended : Option Bool × Client) (l : Loop)
      → Covered valid log ended.1.position ended.1
      → Good (after_batch ended l).2
  after_batch-Good (none, k) l c = c
  after_batch-Good (some had, k) l c = c

  fetch-Good :
      (f : Fetch) (l : Loop) → ServedTurn valid log f l.client → Good l → Good (after_fetch f l).2
  unfolding after_fetch fetched
  fetch-Good (got_records records out) l (ans, f) c =
      after_batch-Good (process_batch out records false (fetched records l.client)) l
        (batch-Covered valid log out ans records false l.client.position (fetched records l.client)
          (record { settled = c.settled; committed_below = c.committed_below })
          (fetched_from records l.client f) (λ q a. advance-Absent q records l.client.position a)).1
  fetch-Good timed_out l s c = c
  fetch-Good cancelled l s c = c
  fetch-Good raised l s c = c

  turn-Good :
      (t : Turn) (l : Loop) → ServedTurn valid log t.fetch l.client → Good l → Good (turn t l).2
  unfolding turn
  turn-Good t l s c = elim (Bool-cases (t.chaos_enabled && t.killed)) [
    | inl k ↦ rw k c
    | inr k ↦ rw k (fetch-Good t.fetch (record l { last_poll_at = some t.now }) s c)
  ]

  on_turn-Good :
      (rest : Loop → Bool × ℕ × Loop) (x : Bool × ℕ × Loop)
      → Good x.2
      → Good (rest x.2).2
      → Good (on_turn rest x).2
  unfolding on_turn
  on_turn-Good rest (false, pause, l) c d = c
  on_turn-Good rest (true, pause, l) c d = d

  either-Good :
      (b : Bool) (x y : Bool × ℕ × Loop) → Good x.2 → Good y.2 → Good (if b then x else y).2
  either-Good true x y c d = c
  either-Good false x y c d = d

  consume-Good :
      (ts : List Turn) (l : Loop) → Served valid log ts l → Good l → Good (consume ts l).2
  unfolding consume
  consume-Good [] l s c = c
  consume-Good (t ∷ ts) l (s, ss) c =
      let next = turn-Good t l s c in
      either-Good (not l.running) (false, 0, l) (on_turn (λ l'. consume ts l') (turn t l)) c
        (on_turn-Good (λ l'. consume ts l') (turn t l) next (consume-Good ts (turn t l).2 ss next))

  Polled-Covered : {k : Client} → Polled valid log k → Covered valid log k.position k
  Polled-Covered fresh = record {
    settled = λ tp o m below there. absurd (omega (arith, below));
    committed_below = λ tp n at. cc;
  }
  Polled-Covered (ran turns l s before) = consume-Good turns l s (Polled-Covered before)
  Polled-Covered (restarted {k} before) = start-Covered k (Polled-Covered before)

-- Over every run of a group's consumers (polls, handlers and commits that fail, stops at any message
-- and restarts), where a fetch leaves out no message, a poisoned message can be committed past and a
-- seek is taken: below a partition's committed offset, every message was handled or fits no schema.
pub Polled-delivers :
    (valid : ConsumerRecord → Bool) (log : Log) (k : Client) (tp : TopicPartition) (c o : ℕ)
    (m : ConsumerRecord)
    → Polled valid log k
    → k.committed tp ≡ some c
    → o < c
    → log tp o ≡ some m
    → (listed_record m k.handled ≡ true) ⊎ (valid m ≡ false)
Polled-delivers valid log k tp c o m p at below there =
    let covered = Polled-Covered valid log p in
    covered.settled tp o m (omega (arith, below, covered.committed_below tp c at)) there
