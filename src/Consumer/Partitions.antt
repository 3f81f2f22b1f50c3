-- ===== src/Consumer/Partitions.antt =====
-- One partition of a batch: how far its bound moves, and where the next fetch starts.
use incident_platform.Consumer.{end_of}
use incident_platform.Consumer.{
  after_one, TopicPartition, ConsumerRecord, same_tp, tp_of, set_at, Client, Outside, returned_true,
  returned_false, commit_past, handle, process_one, seek_back, process_partition,
}
use incident_platform.Prelude.{
  ℕ, ◌+◌, ◌≤◌, ◌<◌, ◌≡◌, refl, sym, ap, ◌∙◌, subst, Bool, true, false, none, some, List, [], ◌∷◌,
  ◌⊎◌, inl, inr, arith, Bool-cases,
}
use incident_platform.Consumer.Covered.{
  Log, same_tp_refl, same_tp_eq, Settled, listed-last, Follows, le_or_lt, Covered, handle-Covered,
  commit-Covered,
}

module _ (valid : ConsumerRecord → Bool) (log : Log) where
  -- A batch from which a partition takes `ms` starts where the fetch did; elsewhere the position is
  -- within the bound.
  pub record Step (out : Outside) (tp : TopicPartition) (ms : List ConsumerRecord)
      (bound : TopicPartition → ℕ) (k : Client) : Type 0 where
    pub after : TopicPartition → ℕ
    pub ended : Bool
    pub returns : (process_partition out tp ms k).0 ≡ some ended
    pub covered : Covered valid log after (process_partition out tp ms k).1
    pub position_at :
        k.position tp ≡ end_of (bound tp) ms
        → (process_partition out tp ms k).1.position tp ≡ after tp
    pub elsewhere :
        (q : TopicPartition)
        → same_tp tp q ≡ false
        → (after q ≡ bound q) × ((process_partition out tp ms k).1.position q ≡ k.position q)

  -- What a consumer of this log answers: its schemas are those of the log, a poisoned message is
  -- committed past and a seek is taken.
  pub record Answers (out : Outside) : Type 0 where
    pub same_schemas : (m : ConsumerRecord) → out.schema_valid m ≡ valid m
    pub commits_past_poison : (m : ConsumerRecord) → valid m ≡ false → out.commits m ≡ true
    pub seeks_back : (m : ConsumerRecord) → out.seeks m ≡ true

  module _ (out : Outside) (ans : Answers out) where
    -- One message, the next of its partition: done with and committed past, or to be sought again.
    abbrev Taken : TopicPartition → ConsumerRecord → (TopicPartition → ℕ) → Client → Type 0
    Taken tp m bound k =
        ((k' : Client) × (process_one out m k ≡ (returned_true, k'))
          × Covered valid log (set_at tp (m.offset + 1) bound) k'
          × (k'.position ≡ k.position))
        ⊎ ((k' : Client) × (process_one out m k ≡ (returned_false, k'))
            × Covered valid log bound k'
            × (k'.position ≡ k.position))

    passed :
        (tp : TopicPartition) (m : ConsumerRecord) (bound : TopicPartition → ℕ) (k : Client)
        → Covered valid log bound k
        → tp_of m ≡ tp
        → log tp m.offset ≡ some m
        → ((o : ℕ) → bound tp ≤ o → o < m.offset → log tp o ≡ none)
        → Settled valid k m
        → Covered valid log (set_at tp (m.offset + 1) bound) (commit_past m k)
    passed tp m bound k c at here gap done =
        subst (λ t. Covered valid log (set_at t (m.offset + 1) bound) (commit_past m k)) at
          (commit-Covered valid log bound m k c (subst (λ t. log t m.offset ≡ some m) (sym at) here)
            (subst (λ t. (o : ℕ) → bound t ≤ o → o < m.offset → log t o ≡ none) (sym at) gap) done)

    process_one-Taken :
        (tp : TopicPartition) (m : ConsumerRecord) (bound : TopicPartition → ℕ) (k : Client)
        → Covered valid log bound k
        → tp_of m ≡ tp
        → log tp m.offset ≡ some m
        → ((o : ℕ) → bound tp ≤ o → o < m.offset → log tp o ≡ none)
        → Taken tp m bound k
    unfolding process_one handle commit_past
    process_one-Taken tp m bound k c at here gap = elim (Bool-cases (valid m)) [
      | inl v ↦ elim (Bool-cases (out.handles m)) [
        | inl h ↦ elim (Bool-cases (out.commits m)) [
          | inl t ↦ inl (
            commit_past m (handle m k),
            rw (ans.same_schemas m, v, h, t) refl,
            passed tp m bound (handle m k) (handle-Covered valid log bound m k c) at here gap
                (inl (listed-last m k.handled)),
            refl,
          )
          | inr t ↦ inr (
            handle m k,
            rw (ans.same_schemas m, v, h, t) refl,
            handle-Covered valid log bound m k c,
            refl,
          )
        ]
        | inr h ↦ inr (k, rw (ans.same_schemas m, v, h) refl, c, refl)
      ]
      | inr v ↦ inl (
        commit_past m k,
        rw (ans.same_schemas m, v, ans.commits_past_poison m v) refl,
        passed tp m bound k c at here gap (inr v),
        refl,
      )
    ]

    seek-Covered :
        (tp : TopicPartition) (m : ConsumerRecord) (bound : TopicPartition → ℕ) (k : Client)
        → Covered valid log bound k
        → Covered valid log bound (seek_back out tp m k)
    unfolding seek_back
    seek-Covered tp m bound k c =
        rw (ans.seeks_back m) (record { settled = c.settled; committed_below = c.committed_below })

    -- No message stands between a partition's bound and the next one.
    skip-Covered :
        (tp : TopicPartition) (m : ConsumerRecord) (bound : TopicPartition → ℕ) (k : Client)
        → Covered valid log bound k
        → bound tp ≤ m.offset
        → ((o : ℕ) → bound tp ≤ o → o < m.offset → log tp o ≡ none)
        → Covered valid log (set_at tp m.offset bound) k
    skip-Covered tp m bound k c low gap = record {
      settled = λ tq o x below there. elim (Bool-cases (same_tp tp tq)) [
        | inl e ↦ elim (le_or_lt (bound tq) o) [
          | inl a ↦
              let bad =
                sym (
                  subst (λ t. (i : ℕ) → bound t ≤ i → i < m.offset → log t i ≡ none)
                    (same_tp_eq tp tq e) gap o a (rw e at below))
                ∙ there in
              cc
          | inr b ↦ c.settled tq o x b there
        ]
        | inr e ↦ c.settled tq o x (rw e at below) there
      ];
      committed_below = λ tq n at. elim (Bool-cases (same_tp tp tq)) [
        | inl e ↦ rw e (
            omega (
              arith,
              c.committed_below tq n at,
              subst (λ t. bound t ≤ m.offset) (same_tp_eq tp tq e) low,
            ))
        | inr e ↦ rw e (c.committed_below tq n at)
      ];
    }

    pub partition-Step :
        (tp : TopicPartition) (ms : List ConsumerRecord) (bound : TopicPartition → ℕ) (k : Client)
        → Covered valid log bound k
        → Follows log tp (bound tp) ms
        → Step out tp ms bound k
    unfolding process_partition after_one
    partition-Step tp [] bound k c f = record {
      after = bound;
      ended = false;
      returns = refl;
      covered = c;
      position_at = λ h. h;
      elsewhere = λ q n. (refl, refl);
    }
    partition-Step tp (m ∷ ms) bound k c (at, low, here, gap, rest) =
        elim (process_one-Taken tp m bound k c at here gap) [
          | inl (k', is, c', same) ↦
              let next : process_partition out tp (m ∷ ms) k ≡ process_partition out tp ms k' =
                rw is refl in
              let bound' = set_at tp (m.offset + 1) bound in
              let there : bound' tp ≡ m.offset + 1 = rw (same_tp_refl tp) refl in
              let ih =
                partition-Step tp ms bound' k' c'
                  (subst (λ b. Follows log tp b ms) (sym there) rest) in
              record {
                after = ih.after;
                ended = ih.ended;
                returns = rw next ih.returns;
                covered = rw next ih.covered;
                position_at = λ h. rw next (ih.position_at (rw (same, there) h));
                elsewhere = λ q n. (
                  (ih.elsewhere q n).0 ∙ rw n refl,
                  rw next ((ih.elsewhere q n).1 ∙ ap (λ f. f q) same),
                );
              }
          | inr (k', is, c', same) ↦
              let now : process_partition out tp (m ∷ ms) k ≡ (some true, seek_back out tp m k') =
                rw is refl in
              record {
                after = set_at tp m.offset bound;
                ended = true;
                returns = rw now refl;
                covered = rw now (
                    seek-Covered tp m (set_at tp m.offset bound) k'
                      (skip-Covered tp m bound k' c' low gap));
                position_at = λ h. rw (now, seek_back, ans.seeks_back m, same_tp_refl tp) refl;
                elsewhere = λ q n.
                    (rw n refl, rw (now, seek_back, ans.seeks_back m, n) (ap (λ f. f q) same));
              }
        ]
