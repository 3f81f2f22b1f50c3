-- ===== src/Consumer/Isolated.antt =====
-- What one batch does to each of its partitions, against a description of a partition by itself.

use incident_platform.Prelude.{
  All, ℕ, ◌+◌, ◌≡◌, refl, ap, ◌∙◌, subst, Bool, true, false, not, ◌&&◌, ◌||◌, Option, some, List,
  [], ◌∷◌, if◌then◌else◌, arith, Bool-cases, inl, inr,
}
use incident_platform.Consumer.{
  TopicPartition, ConsumerRecord, same_tp, tp_of, set_at, Client, Outside, Processed, returned_true,
  returned_false, commit_past, handle, process_one, seek_back, after_one, after_partition,
  process_partition, Records, process_batch,
}
use incident_platform.Consumer.Covered.{same_tp_refl, same_tp_sym}
use incident_platform.Consumer.Delivered.{Absent}

or_assoc : (a b c : Bool) → ((a || b) || c) ≡ (a || (b || c))
or_assoc a b c = ground arith

-- Distinct partitions, each with messages of its own.
abbrev pub IsBatch : Records → Type 0
IsBatch [] = Unit
IsBatch ((tp, ms) ∷ rest) = All (λ m. tp_of m ≡ tp) ms × Absent tp rest × IsBatch rest

module _ (out : Outside) where
  -- A message that the loop goes past.
  abbrev pub goes_past : ConsumerRecord → Bool
  goes_past m = out.commits m && (not (out.schema_valid m) || out.handles m)

  -- The first message of a partition that the loop does not go past ends it: the offset committed,
  -- the position, and whether there is one.
  abbrev pub committed_after : Option ℕ → List ConsumerRecord → Option ℕ
  committed_after c [] = c
  committed_after c (m ∷ ms) =
      let on = committed_after (some (m.offset + 1)) ms in if goes_past m then on else c

  abbrev pub position_after : ℕ → List ConsumerRecord → ℕ
  position_after p [] = p
  position_after p (m ∷ ms) =
      let on = position_after p ms in
      if goes_past m then on else if out.seeks m then m.offset else p

  abbrev pub sticks : List ConsumerRecord → Bool
  sticks [] = false
  sticks (m ∷ ms) = let on = sticks ms in if goes_past m then on else true

  abbrev pub any_sticks : Records → Bool
  any_sticks [] = false
  any_sticks ((tp, ms) ∷ rest) = sticks ms || any_sticks rest

  abbrev pub AllExact : Client → Client → Records → Type 0
  AllExact k k' [] = Unit
  AllExact k k' ((tp, ms) ∷ rest) =
      (k'.committed tp ≡ committed_after (k.committed tp) ms)
      × (k'.position tp ≡ position_after (k.position tp) ms)
      × AllExact k k' rest

  module _ (passes : (m : ConsumerRecord) → out.schema_valid m ≡ false → out.commits m ≡ true) where
    abbrev EndsAs : ConsumerRecord → Client → Bool → Processed → Type 0
    EndsAs m k past ended =
        (k' : Client) × (process_one out m k ≡ (ended, k'))
        × (k'.position ≡ k.position)
        × (k'.committed
            ≡ (if past then set_at (tp_of m) (some (m.offset + 1)) k.committed else k.committed))

    past-EndsAs :
        (m : ConsumerRecord) (k : Client) → goes_past m ≡ true → EndsAs m k true returned_true
    unfolding process_one handle commit_past
    past-EndsAs m k g = elim (Bool-cases (out.schema_valid m)) [
      | inl v ↦ elim (Bool-cases (out.handles m)) [
        | inl h ↦ elim (Bool-cases (out.commits m)) [
          | inl t ↦ (commit_past m (handle m k), rw (v, h, t) refl, refl, refl)
          | inr t ↦ absurd (ground arith)
        ]
        | inr h ↦ absurd (ground arith)
      ]
      | inr v ↦ (commit_past m k, rw (v, passes m v) refl, refl, refl)
    ]

    stuck-EndsAs :
        (m : ConsumerRecord) (k : Client) → goes_past m ≡ false → EndsAs m k false returned_false
    unfolding process_one handle commit_past
    stuck-EndsAs m k g = elim (Bool-cases (out.schema_valid m)) [
      | inl v ↦ elim (Bool-cases (out.handles m)) [
        | inl h ↦ elim (Bool-cases (out.commits m)) [
          | inl t ↦ absurd (ground arith)
          | inr t ↦ (handle m k, rw (v, h, t) refl, refl, refl)
        ]
        | inr h ↦ (k, rw (v, h) refl, refl, refl)
      ]
      | inr v ↦ absurd (ground (arith, passes m v))
    ]

    -- What a partition's loop leaves, in terms of its messages.
    abbrev Exact : TopicPartition → List ConsumerRecord → Client → Client → Type 0
    Exact tp ms k k' =
        (k'.committed tp ≡ committed_after (k.committed tp) ms)
        × (k'.position tp ≡ position_after (k.position tp) ms)
        × ((q : TopicPartition)
            → same_tp tp q ≡ false
            → (k'.committed q ≡ k.committed q) × (k'.position q ≡ k.position q))

    stuck-Exact :
        (tp : TopicPartition) (m : ConsumerRecord) (ms : List ConsumerRecord) (k k1 : Client)
        → goes_past m ≡ false
        → k1.position ≡ k.position
        → k1.committed ≡ k.committed
        → Exact tp (m ∷ ms) k (seek_back out tp m k1)
    unfolding seek_back
    stuck-Exact tp m ms k k1 g p c = elim (Bool-cases (out.seeks m)) [
      | inl t ↦
          rw (g, t, same_tp_refl tp)
            (ap (λ f. f tp) c, refl, λ q n. (ap (λ f. f q) c, rw n (ap (λ f. f q) p)))
      | inr t ↦
          rw (g, t) (ap (λ f. f tp) c, ap (λ f. f tp) p, λ q n. (ap (λ f. f q) c, ap (λ f. f q) p))
    ]

    partition-Exact :
        (tp : TopicPartition) (ms : List ConsumerRecord) (k : Client)
        → All (λ m. tp_of m ≡ tp) ms
        → (k' : Client) × (process_partition out tp ms k ≡ (some (sticks ms), k'))
          × Exact tp ms k k'
    unfolding process_partition after_one seek_back
    partition-Exact tp [] k own = (k, refl, (refl, refl, λ q n. (refl, refl)))
    partition-Exact tp (m ∷ ms) k (at, own) = elim (Bool-cases (goes_past m)) [
      | inl g ↦
          let (k1, is, p, c) = past-EndsAs m k g in
          let (k', rest, (committed, position, others)) = partition-Exact tp ms k1 own in
          let c' : k1.committed ≡ set_at tp (some (m.offset + 1)) k.committed =
            subst (λ t. k1.committed ≡ set_at t (some (m.offset + 1)) k.committed) at c in
          (
            k',
            rw (is, g) rest,
            (
              rw g (committed ∙ ap (λ f. committed_after (f tp) ms) c' ∙ rw (same_tp_refl tp) refl),
              rw g (position ∙ ap (λ f. position_after (f tp) ms) p),
              λ q n.
                  ((others q n).0 ∙ ap (λ f. f q) c' ∙ rw n refl, (others q n).1 ∙ ap (λ f. f q) p),
            ),
          )
      | inr g ↦
          let (k1, is, p, c) = stuck-EndsAs m k g in
          (seek_back out tp m k1, rw (is, g) refl, stuck-Exact tp m ms k k1 g p c)
    ]

    abbrev Same : Client → Client → TopicPartition → Type 0
    Same k k' q = (k'.committed q ≡ k.committed q) × (k'.position q ≡ k.position q)

    still-AllExact :
        (tp : TopicPartition) (rest : Records) (k k1 k' : Client)
        → ((q : TopicPartition) → same_tp tp q ≡ false → Same k k1 q)
        → Absent tp rest
        → AllExact k1 k' rest
        → AllExact k k' rest
    still-AllExact tp [] k k1 k' same absent e = tt
    still-AllExact tp ((tq, ms) ∷ rest) k k1 k' same (n, absent) (c, p, e) = (
      c ∙ ap (λ o. committed_after o ms) (same tq n).0,
      p ∙ ap (λ o. position_after o ms) (same tq n).1,
      still-AllExact tp rest k k1 k' same absent e,
    )

    batch-AllExact :
        (records : Records) (had : Bool) (k : Client)
        → IsBatch records
        → (k' : Client) × (process_batch out records had k ≡ (some (had || any_sticks records), k'))
          × AllExact k k' records
          × ((q : TopicPartition) → Absent q records → Same k k' q)
    unfolding process_batch after_partition
    batch-AllExact [] had k b = (k, ap (λ h. (some h, k)) (ground arith), tt, λ q a. (refl, refl))
    batch-AllExact ((tp, ms) ∷ rest) had k (own, absent, b) =
        let (k1, is, (committed, position, others)) = partition-Exact tp ms k own in
        let (k', rest_is, e, same) = batch-AllExact rest (had || sticks ms) k1 b in
        (
          k',
          rw is (rest_is ∙ ap (λ h. (some h, k')) (or_assoc had (sticks ms) (any_sticks rest))),
          (
            (same tp absent).0 ∙ committed,
            (same tp absent).1 ∙ position,
            still-AllExact tp rest k k1 k' others absent e,
          ),
          λ q (n, a).
              let (c, p) = others q (same_tp_sym q tp n) in ((same q a).0 ∙ c, (same q a).1 ∙ p),
        )

-- Where a poisoned message can be committed past, a batch runs to its end and reports whether a
-- partition is stuck, and each of its partitions ends as it would by itself, whatever the other ones
-- do: the offset committed is the one after the last message before the first that is not gone past,
-- and the next fetch starts at that message, where a seek is taken.
pub process_batch_exact :
    (out : Outside) (records : Records) (k : Client)
    (passes : (m : ConsumerRecord) → out.schema_valid m ≡ false → out.commits m ≡ true)
    → IsBatch records
    → let (ended, k') = process_batch out records false k in
      (ended ≡ some (any_sticks out records)) × AllExact out k k' records
process_batch_exact out records k passes b =
    let (k', is, e, same) = batch-AllExact out passes records false k b in rw is (refl, e)
