-- ===== src/Examples/Streams.antt =====
-- The theorems on the Kafka consumers and the supervisor, at concrete inputs: a partition of three
-- messages, of which the second fits no schema and the third fails.
use incident_platform.Prelude.{
  is_some, ◌≤◌, some_eq, ℕ, ◌≡◌, ◌<◌, ◌⊎◌, refl, Bool, true, false, not, none, some, [], ◌∷◌, ◌==◌,
  ltb, if◌then◌else◌, arith,
}
use incident_platform.Consumer.Sticky.{
  sticky_deadline, KillKeys, Redis, read_kill_state, keys_after, checked, flag_deleted,
  sticky_window_exact,
}
use incident_platform.Consumer.{
  Records, TopicPartition, ConsumerRecord, same_tp, Client, Outside, process_batch, start, fetched,
  advance, process_partition, process_one, after_one, after_partition,
}
use incident_platform.Consumer.Covered.{Log, listed_record}
use incident_platform.Consumer.Loop.{Turn, Loop, got_records, consume}
use incident_platform.Consumer.Partitions.{Answers}
use incident_platform.Consumer.Delivered.{fresh, ran, restarted, Served, Polled-delivers}
use incident_platform.Consumer.Isolated.{any_sticks, AllExact, process_batch_exact}
use incident_platform.Consumer.Skipped.{raised_commit_skips}
use incident_platform.Supervisor.{
  Worker, running, task, worker_status, restart, backoff_for, next_attempt,
}
use incident_platform.Supervisor.Wedged.{beat, watched, happen_all, wedged_restart_reported}

abbrev submitted : TopicPartition
submitted = record { topic = "job.submitted"; partition = 0 }

abbrev message : ℕ → ConsumerRecord
message offset = record { topic = "job.submitted"; partition = 0; offset = offset }

abbrev log : Log
log tp o = if same_tp submitted tp then (if ltb o 3 then some (message o) else none) else none

abbrev valid : ConsumerRecord → Bool
valid m = not (m.offset == 1)

abbrev outside : Outside
outside = record {
  schema_valid = valid;
  handles = λ m. not (m.offset == 2);
  commits = λ m. true;
  seeks = λ m. true;
}

abbrev client : Client
client = record { position = λ tp. 0; committed = λ tp. none; handled = [] }

abbrev loop : Loop
loop = record { running = true; chaos_killed = false; last_poll_at = none; client = client }

abbrev poll : Turn
poll = record {
  now = 5;
  chaos_enabled = false;
  killed = false;
  latency_ms = 0;
  fetch = got_records ((submitted, message 0 ∷ message 1 ∷ message 2 ∷ []) ∷ []) outside;
}

outside-Answers : Answers valid log outside
outside-Answers = record {
  same_schemas = λ m. refl;
  commits_past_poison = λ m h. refl;
  seeks_back = λ m. refl;
}

poll-Served : Served valid log (poll ∷ []) loop
poll-Served = (
  (
    outside-Answers,
    (
      (
        refl,
        omega arith,
        refl,
        (λ o a b. absurd (omega arith)),
        (
          refl,
          omega arith,
          refl,
          (λ o a b. absurd (omega arith)),
          (refl, omega arith, refl, (λ o a b. absurd (omega arith)), tt),
        ),
      ),
      tt,
      tt,
    ),
  ),
  tt,
)

Polled-delivers_example :
    (listed_record (message 0) (start (consume (poll ∷ []) loop).2.client).handled ≡ true)
    ⊎ (valid (message 0) ≡ false)
unfolding start consume process_batch
Polled-delivers_example =
    Polled-delivers valid log (start (consume (poll ∷ []) loop).2.client) submitted 2 0 (message 0)
      (restarted (ran (poll ∷ []) loop poll-Served fresh)) refl (omega arith) refl

abbrev progress : TopicPartition
progress = record { topic = "job.progress"; partition = 4 }

abbrev progressed : ConsumerRecord
progressed = record { topic = "job.progress"; partition = 4; offset = 7 }

abbrev two_partitions : Records
two_partitions =
    (submitted, message 0 ∷ message 2 ∷ message 3 ∷ []) ∷ (progress, progressed ∷ []) ∷ []

process_batch_exact_example :
    ((process_batch outside two_partitions false client).0
      ≡ some (any_sticks outside two_partitions))
    × AllExact outside client (process_batch outside two_partitions false client).1 two_partitions
process_batch_exact_example =
    process_batch_exact outside two_partitions client (λ m h. refl)
      ((refl, (refl, (refl, tt))), (refl, tt), ((refl, tt), tt, tt))

abbrev refusing : Outside
refusing = record outside { commits = λ m. false }

-- A client whose next fetch is the second message of the partition.
abbrev at_second : Client
at_second = record client { position = λ tp. 1 }

-- The log with four messages.
abbrev longer : Log
longer tp o = if same_tp submitted tp then (if ltb o 4 then some (message o) else none) else none

raised_commit_skips_example :
    let got : Records = (submitted, message 1 ∷ message 2 ∷ []) ∷ [] in
    let next : Records = (submitted, message 3 ∷ []) ∷ [] in
    let (ended, k1) = process_batch refusing got false (fetched got at_second) in
    let (ended', k2) = process_batch outside next false (fetched next k1) in
    (ended ≡ none)
    × (k2.committed submitted ≡ some 4)
    × (2 < 4)
    × (longer submitted 2 ≡ some (message 2))
    × (listed_record (message 2) k2.handled ≡ false)
unfolding process_batch process_partition process_one after_one after_partition fetched advance
raised_commit_skips_example =
    raised_commit_skips longer refusing outside submitted (message 1) (message 2) (message 3) [] []
      at_second
      (
        (
          refl,
          omega arith,
          refl,
          (λ o a b. absurd (omega arith)),
          (refl, omega arith, refl, (λ o a b. absurd (omega arith)), tt),
        ),
        tt,
        tt,
      )
      refl refl refl refl ((refl, omega arith, refl, (λ o a b. absurd (omega arith)), tt), tt, tt)
      refl refl refl

abbrev answering : Redis
answering = record { reads = true; sets = true; chaos_enabled = true; deadline_of = λ raw. some 60 }

abbrev killed : KillKeys
killed = record { flag = some 60; marker = some (60, "0.060") }

sticky_window_exact_example :
    let read =
      (read_kill_state answering 30
        (keys_after (flag_deleted ∷ checked answering 20 ∷ flag_deleted ∷ []) killed)).0 in
    (30 < 60 → read ≡ some (ltb 30 60)) × (60 ≤ 30 → read ≡ some false)
unfolding sticky_deadline
sticky_window_exact_example =
    sticky_window_exact answering 30 60 60 "0.060"
      (flag_deleted ∷ checked answering 20 ∷ flag_deleted ∷ []) killed refl refl refl refl refl
      ((λ d h. omega (arith, some_eq 60 d h)), ((λ d h. omega (arith, some_eq 60 d h)), tt))
      (λ e h. omega (arith, some_eq 60 e h))

abbrev ticked : Worker
ticked = record {
  health = record {
    state = running;
    last_alive = some 90;
    last_tick = some 10;
    restarts = 0;
    last_error = none;
  };
  worker_task = task true;
  tick_seen = true;
}

wedged_restart_reported_example :
    is_some
      (worker_status 30 140 (happen_all (beat 120 ∷ watched 139 ∷ []) (restart 100 70 2 ticked).1))
    ≡ true
unfolding backoff_for next_attempt
wedged_restart_reported_example =
    wedged_restart_reported 30 140 100 70 2 ticked (beat 120 ∷ watched 139 ∷ []) refl (omega arith)
