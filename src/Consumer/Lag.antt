-- ===== src/Consumer/Lag.antt =====
-- `consumer_lag` and `_sum_partition_lag`. `end_offsets` answers none for a partition that it does
-- not list; how the query ends enters as a value.
use incident_platform.Prelude.{
  ℕ, ◌+◌, ◌-◌, ◌≤◌, ◌≡◌, ◌↔◌, refl, ap, Bool, true, false, not, ◌||◌, Option, none, some, List, [],
  ◌∷◌, if◌then◌else◌, is_nil, arith, All, some_eq,
}
use incident_platform.Consumer.{TopicPartition}

abbrev pub end_or_zero : Option ℕ → ℕ
end_or_zero none = 0
end_or_zero (some n) = n

-- A subtraction on the natural numbers stops at 0, which is the `max`.
unfoldable pub partition_lag : ℕ → Option ℕ → ℕ
partition_lag end_offset none = end_offset
partition_lag end_offset (some committed) = end_offset - committed

unfoldable pub sum_partition_lag :
    (TopicPartition → Option ℕ) → (TopicPartition → Option ℕ) → List TopicPartition → ℕ
unfolding partition_lag
sum_partition_lag ends committed [] = 0
sum_partition_lag ends committed (tp ∷ assignment) =
    partition_lag (end_or_zero (ends tp)) (committed tp)
    + sum_partition_lag ends committed assignment

pub data Query : Type 0 where
  answered : (ends committed : TopicPartition → Option ℕ) → Query
  timed_out : Query
  raised : Query

abbrev pub queried : List TopicPartition → Query → Option ℕ
queried assignment (answered ends committed) = some (sum_partition_lag ends committed assignment)
queried assignment timed_out = none
queried assignment raised = none

-- `consumer_lag`.
unfoldable pub consumer_lag : (started restarting : Bool) → List TopicPartition → Query → Option ℕ
unfolding sum_partition_lag
consumer_lag started restarting assignment query =
    if not started || restarting
    then none
    else if is_nil assignment
    then none
    else queried assignment query

-- Nothing is left of a partition: it is empty, or its committed offset is its end.
abbrev pub CaughtUp :
    (TopicPartition → Option ℕ) → (TopicPartition → Option ℕ) → TopicPartition → Type 0
CaughtUp ends committed tp = end_or_zero (ends tp) ≤ end_or_zero (committed tp)

partition_lag-zero : (n : ℕ) (c : Option ℕ) → (partition_lag n c ≡ 0) ↔ (n ≤ end_or_zero c)
unfolding partition_lag
partition_lag-zero n none = ground arith
partition_lag-zero n (some c) = ground arith

no_lag :
    (ends committed : TopicPartition → Option ℕ) (tps : List TopicPartition)
    → (sum_partition_lag ends committed tps ≡ 0) ↔ All (CaughtUp ends committed) tps
unfolding sum_partition_lag
no_lag ends committed [] = (λ h. tt, λ h. refl)
no_lag ends committed (tp ∷ tps) =
    let first = partition_lag-zero (end_or_zero (ends tp)) (committed tp) in
    let rest = no_lag ends committed tps in
    (
      λ h. (first.0 (omega (arith, h)), rest.0 (omega (arith, h))),
      λ (c, cs). omega (arith, first.1 c, rest.1 cs),
    )

-- What a query that answers says where nothing is left; one that does not says nothing of the kind.
abbrev pub NothingOwed : List TopicPartition → Query → Type 0
NothingOwed assignment (answered ends committed) = All (CaughtUp ends committed) assignment
NothingOwed assignment timed_out = ⊥
NothingOwed assignment raised = ⊥

-- A lag of zero is only ever read off an answer: the consumer is started and not restarting, it has
-- partitions, the query answered, and each of them is consumed to its end; and then it is read.
pub consumer_lag_zero :
    (started restarting : Bool) (assignment : List TopicPartition) (query : Query)
    → (consumer_lag started restarting assignment query ≡ some 0) ↔ (
        (started ≡ true)
        × (restarting ≡ false)
        × (is_nil assignment ≡ false)
        × NothingOwed assignment query)
unfolding consumer_lag
consumer_lag_zero false restarting assignment query = (λ h. cc, λ h. cc)
consumer_lag_zero true true assignment query = (λ h. cc, λ h. cc)
consumer_lag_zero true false [] query = (λ h. cc, λ h. cc)
consumer_lag_zero true false (tp ∷ tps) timed_out = (λ h. cc, λ h. absurd h.3)
consumer_lag_zero true false (tp ∷ tps) raised = (λ h. cc, λ h. absurd h.3)
consumer_lag_zero true false (tp ∷ tps) (answered ends committed) =
    let exact = no_lag ends committed (tp ∷ tps) in
    (
      λ h. (refl, refl, refl, exact.0 (some_eq _ 0 h)),
      λ (a, b, c, caught). ap some (exact.1 caught),
    )
