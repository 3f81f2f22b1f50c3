-- ===== src/Consumer/Skipped.antt =====
-- workers/kafka_consumer.py: what a commit past a poisoned message that raises does to the messages
-- after it.
use incident_platform.Prelude.{
  ℕ, ◌+◌, ◌≤◌, ◌<◌, ◌≡◌, refl, sym, subst, true, false, none, some, List, [], ◌∷◌, ◌++◌, arith,
}
use incident_platform.Consumer.{
  TopicPartition, ConsumerRecord, tp_of, set_at, Client, Outside, commit_past, handle, process_one,
  after_one, after_partition, process_partition, Records, process_batch, end_of, fetched, advance,
}
use incident_platform.Consumer.Covered.{Log, Follows, listed_record, same_tp_refl}
use incident_platform.Consumer.Delivered.{Fetched}

end_of-later :
    (log : Log) (tp : TopicPartition) (from : ℕ) (ms : List ConsumerRecord)
    → Follows log tp from ms
    → from ≤ end_of from ms
end_of-later log tp from [] h = omega arith
end_of-later log tp from (m ∷ ms) (at, le, there, gap, h) =
    omega (arith, le, end_of-later log tp (m.offset + 1) ms h)

other_record :
    (m n : ConsumerRecord) (xs : List ConsumerRecord)
    → listed_record m xs ≡ false
    → m.offset < n.offset
    → listed_record m (xs ++ n ∷ []) ≡ false
other_record m n [] h l = ground (arith, l)
other_record m n (x ∷ xs) h l = ground (arith, other_record m n xs, l)

-- Of a poisoned message and the message after it, fetched from a partition's position: the second
-- one is on the log and below whatever the next fetch returns.
below_next :
    (log : Log) (tp : TopicPartition) (from : ℕ) (poison m next : ConsumerRecord)
    (ms : List ConsumerRecord)
    → Follows log tp from (poison ∷ m ∷ ms)
    → Follows log tp (end_of from (poison ∷ m ∷ ms)) (next ∷ [])
    → (log tp m.offset ≡ some m) × (m.offset < next.offset) × (tp_of next ≡ tp)
below_next log tp from poison m next ms (at, le, there, gap, (at', le', there', gap', h))
      (at'', le'', there'', gap'', done) =
    (there', omega (arith, end_of-later log tp (m.offset + 1) ms h, le''), at'')

-- A consumer fetches a batch in which a partition begins with a poisoned message whose commit raises,
-- and a message `m` that fits its schema and was not handled follows it. The exception ends the
-- batch, and no position is sought back. When the next fetch of the partition, at its position,
-- returns a message that is handled and committed, the offset committed is past `m`, which is on the
-- log and is still handled by nobody.
pub raised_commit_skips :
    (log : Log) (out out' : Outside) (tp : TopicPartition) (poison m next : ConsumerRecord)
    (ms : List ConsumerRecord) (rest : Records) (k : Client)
    → Fetched log k.position ((tp, poison ∷ m ∷ ms) ∷ rest)
    → out.schema_valid poison ≡ false
    → out.commits poison ≡ false
    → out.schema_valid m ≡ true
    → listed_record m k.handled ≡ false
    → let got = (tp, poison ∷ m ∷ ms) ∷ rest in
      let (ended, k1) = process_batch out got false (fetched got k) in
      Fetched log k1.position ((tp, next ∷ []) ∷ [])
      → out'.schema_valid next ≡ true
      → out'.handles next ≡ true
      → out'.commits next ≡ true
      → let (ended', k2) =
          process_batch out' ((tp, next ∷ []) ∷ []) false (fetched ((tp, next ∷ []) ∷ []) k1) in
        (ended ≡ none)
        × (k2.committed tp ≡ some (next.offset + 1))
        × (m.offset < next.offset + 1)
        × (log tp m.offset ≡ some m)
        × (listed_record m k2.handled ≡ false)
unfolding process_batch process_partition process_one after_one after_partition handle commit_past
    fetched advance
raised_commit_skips log out out' tp poison m next ms rest k got bad refused fits new again v h t =
    let got_next = rw (bad, refused, same_tp_refl tp) at again.0 in
    let (there, below, at) = below_next log tp (k.position tp) poison m next ms got.0 got_next in
    rw (bad, refused, v, h, t)
      (
        refl,
        subst (λ t. set_at t (some (next.offset + 1)) k.committed tp ≡ some (next.offset + 1))
            (sym at) (rw (same_tp_refl tp) refl),
        omega (arith, below),
        there,
        other_record m next k.handled new below,
      )
