-- ===== src/Consumer/Covered.antt =====
-- What a group's position and committed offset say of the messages below them. `log` is the log of a
-- partition on the broker, by offset; none where an offset holds no message.

use incident_platform.Prelude.{
  both, ℕ, ◌+◌, ◌≤◌, ◌<◌, ◌≡◌, refl, sym, ap, ap₂, ◌∙◌, subst, Bool, true, false, ◌&&◌, ◌||◌,
  Option, none, some, List, [], ◌∷◌, ◌++◌, str_eq, str_eq_iff, ◌==◌, ==_iff, ==_refl, ◌⊎◌, inl, inr,
  arith, Bool-cases, some_eq,
}
use incident_platform.Consumer.{
  TopicPartition, ConsumerRecord, same_tp, tp_of, set_at, Client, commit_past, handle,
}
use incident_platform.Idempotency.Keys.{str_eq_refl}

abbrev pub Log : Type 0
Log = TopicPartition → ℕ → Option ConsumerRecord

pub same_tp_refl : (p : TopicPartition) → same_tp p p ≡ true
same_tp_refl p = rw (str_eq_refl p.topic, ==_refl p.partition) refl

pub same_tp_eq : (p q : TopicPartition) → same_tp p q ≡ true → p ≡ q
same_tp_eq p q h =
    let (t, n) = both (str_eq p.topic q.topic) (p.partition == q.partition) h in
    ap₂ (λ a b. record { topic = a; partition = b }) ((str_eq_iff p.topic q.topic).0 t)
      ((==_iff p.partition q.partition).0 n)

pub same_tp_sym : (p q : TopicPartition) → same_tp p q ≡ false → same_tp q p ≡ false
same_tp_sym p q h = elim (Bool-cases (same_tp q p)) [
  | inl e ↦
      let bad = sym (subst (λ t. same_tp p t ≡ false) (same_tp_eq q p e) h) ∙ same_tp_refl p in cc
  | inr n ↦ n
]

abbrev pub same_record : ConsumerRecord → ConsumerRecord → Bool
same_record m n = same_tp (tp_of m) (tp_of n) && m.offset == n.offset

abbrev pub listed_record : ConsumerRecord → List ConsumerRecord → Bool
listed_record m [] = false
listed_record m (n ∷ ns) = same_record m n || listed_record m ns

-- A message that the group is done with: its handler returned, or its value fits no schema.
abbrev pub Settled : (ConsumerRecord → Bool) → Client → ConsumerRecord → Type 0
Settled schema_valid k m = (listed_record m k.handled ≡ true) ⊎ (schema_valid m ≡ false)

or_right : (a b : Bool) → b ≡ true → (a || b) ≡ true
or_right a b h = ground arith

listed-left :
    (m : ConsumerRecord) (xs ys : List ConsumerRecord)
    → listed_record m xs ≡ true
    → listed_record m (xs ++ ys) ≡ true
listed-left m [] ys h = cc
listed-left m (x ∷ xs) ys h = elim (Bool-cases (same_record m x)) [
  | inl e ↦ rw e refl
  | inr e ↦ rw e (listed-left m xs ys (rw e at h))
]

pub listed-last :
    (m : ConsumerRecord) (xs : List ConsumerRecord) → listed_record m (xs ++ m ∷ []) ≡ true
listed-last m [] = rw (same_tp_refl (tp_of m), ==_refl m.offset) refl
listed-last m (x ∷ xs) =
    or_right (same_record m x) (listed_record m (xs ++ m ∷ [])) (listed-last m xs)

-- What a fetch of a partition returns from an offset on: the log's messages, in order, none left out.
abbrev pub Follows : Log → TopicPartition → ℕ → List ConsumerRecord → Type 0
Follows log tp from [] = Unit
Follows log tp from (m ∷ ms) =
    (tp_of m ≡ tp)
    × (from ≤ m.offset)
    × (log tp m.offset ≡ some m)
    × ((o : ℕ) → from ≤ o → o < m.offset → log tp o ≡ none)
    × Follows log tp (m.offset + 1) ms

-- Below its bound, a partition holds settled messages only, and the committed offset is not past it.
pub record Covered (valid : ConsumerRecord → Bool) (log : Log) (bound : TopicPartition → ℕ)
    (k : Client) : Type 0 where
  pub settled :
      (tp : TopicPartition) (o : ℕ) (m : ConsumerRecord)
      → o < bound tp
      → log tp o ≡ some m
      → Settled valid k m
  pub committed_below : (tp : TopicPartition) (c : ℕ) → k.committed tp ≡ some c → c ≤ bound tp

pub le_or_lt : (a b : ℕ) → (a ≤ b) ⊎ (b < a)
le_or_lt a b = omega arith

three : (o from n : ℕ) → o < n + 1 → (o < from) ⊎ ((from ≤ o) × (o < n) ⊎ (o ≡ n))
three o from n h = omega arith

module _ (valid : ConsumerRecord → Bool) (log : Log) where
  pub handle-Covered :
      (bound : TopicPartition → ℕ) (n : ConsumerRecord) (k : Client)
      → Covered valid log bound k
      → Covered valid log bound (handle n k)
  unfolding handle
  handle-Covered bound n k c = record {
    settled = λ tp o m below there. elim (c.settled tp o m below there) [
      | inl l ↦ inl (listed-left m k.handled (n ∷ []) l)
      | inr d ↦ inr d
    ];
    committed_below = c.committed_below;
  }

  below-Settled :
      (tp : TopicPartition) (from : ℕ) (m x : ConsumerRecord) (k : Client) (o : ℕ)
      → log tp m.offset ≡ some m
      → ((i : ℕ) → from ≤ i → i < m.offset → log tp i ≡ none)
      → Settled valid k m
      → (o < from → Settled valid k x)
      → o < m.offset + 1
      → log tp o ≡ some x
      → Settled valid k x
  below-Settled tp from m x k o here gap done before lt there = elim (three o from m.offset lt) [
    | inl b ↦ before b
    | inr (inl (a, b)) ↦ let bad = sym (gap o a b) ∙ there in cc
    | inr (inr e) ↦
        subst (Settled valid k) (some_eq m x (sym here ∙ ap (log tp) (sym e) ∙ there)) done
  ]

  -- Committing past the next message of a partition.
  pub commit-Covered :
      (bound : TopicPartition → ℕ) (m : ConsumerRecord) (k : Client)
      → Covered valid log bound k
      → log (tp_of m) m.offset ≡ some m
      → ((i : ℕ) → bound (tp_of m) ≤ i → i < m.offset → log (tp_of m) i ≡ none)
      → Settled valid k m
      → Covered valid log (set_at (tp_of m) (m.offset + 1) bound) (commit_past m k)
  unfolding commit_past
  commit-Covered bound m k c here gap done = record {
    settled = λ tq o x below there. elim (Bool-cases (same_tp (tp_of m) tq)) [
      | inl e ↦
          let same = same_tp_eq (tp_of m) tq e in
          below-Settled tq (bound tq) m x k o (subst (λ t. log t m.offset ≡ some m) same here)
            (subst (λ t. (i : ℕ) → bound t ≤ i → i < m.offset → log t i ≡ none) same gap) done
            (λ b. c.settled tq o x b there) (rw e at below) there
      | inr e ↦ c.settled tq o x (rw e at below) there
    ];
    committed_below = λ tq n at. elim (Bool-cases (same_tp (tp_of m) tq)) [
      | inl e ↦ rw e (omega (arith, some_eq (m.offset + 1) n (rw e at at)))
      | inr e ↦ rw e (c.committed_below tq n (rw e at at))
    ];
  }
