-- ===== src/Consumer.antt =====
-- workers/kafka_consumer.py: the base class of the consumers. The Kafka client is seen through what
-- it keeps for a group: the position that the next fetch of a partition starts at, and the offset
-- committed. `handled` lists the messages whose handler returned, the earliest first. What the schema
-- registry, the handler and the client answer for a message enters as functions of the message. A
-- marker is read by `float` as a number of milliseconds, none where it is unreadable or not finite.
pub mod Covered
pub mod Partitions
pub mod Delivered
pub mod Isolated
pub mod Skipped
pub mod Sticky
pub mod Lag
pub mod Loop
use incident_platform.Prelude.{
  ℕ, ◌+◌, ◌-◌, Bool, true, false, ◌&&◌, ◌||◌, Option, none, some, List, [], ◌∷◌, ◌++◌, String,
  str_eq, ◌==◌, leb, ltb, if◌then◌else◌, is_none,
}

pub record TopicPartition : Type 0 where
  pub topic : String
  pub partition : ℕ

pub record ConsumerRecord : Type 0 where
  pub topic : String
  pub partition : ℕ
  pub offset : ℕ

abbrev pub same_tp : TopicPartition → TopicPartition → Bool
same_tp p q = str_eq p.topic q.topic && p.partition == q.partition

-- `TopicPartition(message.topic, message.partition)`.
abbrev pub tp_of : ConsumerRecord → TopicPartition
tp_of m = record { topic = m.topic; partition = m.partition }

abbrev pub set_at {ℓ} :
    {A : Type ℓ} → TopicPartition → A → (TopicPartition → A) → TopicPartition → A
set_at tp a f q = if same_tp tp q then a else f q

pub record Client : Type 0 where
  pub position : TopicPartition → ℕ
  pub committed : TopicPartition → Option ℕ
  pub handled : List ConsumerRecord

pub record Outside : Type 0 where
  pub schema_valid : ConsumerRecord → Bool
  pub handles : ConsumerRecord → Bool
  pub commits : ConsumerRecord → Bool
  pub seeks : ConsumerRecord → Bool

-- How `_process_one` ends: what it returns, or an exception that leaves it.
pub data Processed : Type 0 where
  returned_true returned_false commit_raised : Processed

-- `commit({tp: message.offset + 1})`.
unfoldable pub commit_past : ConsumerRecord → Client → Client
commit_past m k = record k { committed = set_at (tp_of m) (some (m.offset + 1)) k.committed }

unfoldable pub handle : ConsumerRecord → Client → Client
handle m k = record k { handled = k.handled ++ m ∷ [] }

unfoldable pub process_one : Outside → ConsumerRecord → Client → Processed × Client
unfolding commit_past handle
process_one out m k =
    if out.schema_valid m
    then (if out.handles m
        then (if out.commits m
            then (returned_true, commit_past m (handle m k))
            else (returned_false, handle m k))
        else (returned_false, k))
    else if out.commits m
    then (returned_true, commit_past m k)
    else (commit_raised, k)

-- `seek`, and the exception that it may raise, which is logged.
unfoldable pub seek_back : Outside → TopicPartition → ConsumerRecord → Client → Client
seek_back out tp m k =
    if out.seeks m then record k { position = set_at tp m.offset k.position } else k

-- The inner loop of `_process_batch`: none where an exception leaves it, and else whether the
-- partition failed. `rest` is the loop over the messages that follow.
unfoldable pub after_one :
    Outside
    → TopicPartition
    → ConsumerRecord
    → (Client → Option Bool × Client)
    → Processed × Client
    → Option Bool × Client
unfolding seek_back
after_one out tp m rest (returned_true, k) = rest k
after_one out tp m rest (returned_false, k) = (some true, seek_back out tp m k)
after_one out tp m rest (commit_raised, k) = (none, k)

unfoldable pub process_partition :
    Outside → TopicPartition → List ConsumerRecord → Client → Option Bool × Client
unfolding process_one after_one
process_partition out tp [] k = (some false, k)
process_partition out tp (m ∷ ms) k =
    after_one out tp m (λ k'. process_partition out tp ms k') (process_one out m k)

abbrev pub Records : Type 0
Records = List (TopicPartition × List ConsumerRecord)

-- `_process_batch`: none where it raises, and else `had_failure`.
unfoldable pub after_partition :
    (Bool → Client → Option Bool × Client) → Bool → Option Bool × Client → Option Bool × Client
after_partition rest had_failure (none, k) = (none, k)
after_partition rest had_failure (some failed, k) = rest (had_failure || failed) k

unfoldable pub process_batch : Outside → Records → Bool → Client → Option Bool × Client
unfolding process_partition after_partition
process_batch out [] had_failure k = (some had_failure, k)
process_batch out ((tp, ms) ∷ rest) had_failure k =
    after_partition (λ failed k'. process_batch out rest failed k') had_failure
      (process_partition out tp ms k)

-- The position after a fetch.
abbrev pub end_of : ℕ → List ConsumerRecord → ℕ
end_of from [] = from
end_of from (m ∷ ms) = end_of (m.offset + 1) ms

-- `getmany` moves the position of each partition past what it returns.
unfoldable pub advance : Records → (TopicPartition → ℕ) → TopicPartition → ℕ
advance [] position = position
advance ((tp, ms) ∷ rest) position = set_at tp (end_of (position tp) ms) (advance rest position)

unfoldable pub fetched : Records → Client → Client
unfolding advance
fetched records k = record k { position = advance records k.position }

-- A new consumer of the group starts at the committed offset, at the earliest one where there is
-- none.
abbrev pub from_committed : Option ℕ → ℕ
from_committed none = 0
from_committed (some c) = c

unfoldable pub start : Client → Client
start k = record k { position = λ tp. from_committed (k.committed tp) }
