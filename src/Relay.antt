-- ===== src/Relay.antt =====
-- `_outbox_relay_tick` of workers/dispatcher.py, and the reads and writes of repositories/outbox.py
-- that it makes. How the publish of a row ends enters as a function of the row. Of rows with one
-- `created_at` the fetch takes the earlier inserted first, an order that the database leaves open.
pub mod Order
pub mod Marks
pub mod Tick
pub mod Drain
use incident_platform.Prelude.{
  ℕ, ◌+◌, Bool, true, false, ◌&&◌, Option, none, some, List, [], ◌∷◌, ltb, leb, if◌then◌else◌,
  is_none, select, take, member, map,
}
use incident_platform.Store.{Message, schema_failed, abandoned, clipped, OutboxEvent, Db}
use incident_platform.Store.Table.{update_where}

abbrev pub outbox_relay_batch : ℕ
outbox_relay_batch = 100

abbrev pub error_message_max_chars : ℕ
error_message_max_chars = 900

-- How `publish_raw` ends: a return, a `SchemaValidationError`, or any other exception.
pub data Publish : Type 0 where
  delivered : Publish
  schema_error : Message → Publish
  refused : Message → Publish

-- The WHERE of `fetch_unpublished`.
abbrev pub fetchable : ℕ → OutboxEvent → Bool
fetchable max_attempts e = is_none e.published_at && ltb e.attempts max_attempts

-- ORDER BY created_at.
unfoldable pub insert_oldest : OutboxEvent → List OutboxEvent → List OutboxEvent
insert_oldest e [] = e ∷ []
insert_oldest e (f ∷ fs) =
    let rest = insert_oldest e fs in if leb e.created_at f.created_at then e ∷ f ∷ fs else f ∷ rest

unfoldable pub oldest_first : List OutboxEvent → List OutboxEvent
unfolding insert_oldest
oldest_first [] = []
oldest_first (e ∷ es) = insert_oldest e (oldest_first es)

unfoldable pub fetch_unpublished : ℕ → ℕ → Db → List OutboxEvent
unfolding oldest_first
fetch_unpublished max_attempts limit db =
    take limit (oldest_first (select (fetchable max_attempts) db.outbox))

-- `mark_published`, `increment_attempts` and `mark_failed`.
abbrev pub listed : List ℕ → OutboxEvent → Bool
listed ids e = member e.id ids

abbrev pub as_published : ℕ → OutboxEvent → OutboxEvent
as_published now e = record e { published_at = some now }

abbrev pub as_retried : OutboxEvent → OutboxEvent
as_retried e = record e { attempts = e.attempts + 1 }

abbrev pub as_failed : ℕ → Message → OutboxEvent → OutboxEvent
as_failed now error e = record e {
  published_at = some now;
  failed_at = some now;
  error_message = some (clipped error_message_max_chars error);
}

unfoldable pub mark_published : ℕ → List ℕ → List OutboxEvent → List OutboxEvent
mark_published now ids outbox = update_where (listed ids) (as_published now) outbox

unfoldable pub increment_attempts : List ℕ → List OutboxEvent → List OutboxEvent
increment_attempts ids outbox = update_where (listed ids) as_retried outbox

unfoldable pub mark_failed : ℕ → List ℕ → Message → List OutboxEvent → List OutboxEvent
mark_failed now ids error outbox = update_where (listed ids) (as_failed now error) outbox

-- What the publish loop collects.
pub record Batch : Type 0 where
  pub published_ids : List ℕ
  pub retry_ids : List ℕ
  pub dead_lettered : List (ℕ × Message)

-- One turn of the loop, put in front of the turns that follow it.
unfoldable pub collect : ℕ → OutboxEvent → Publish → Batch → Batch
collect max_attempts e delivered b = record b { published_ids = e.id ∷ b.published_ids }
collect max_attempts e (schema_error exc) b = record b {
  dead_lettered = (e.id, schema_failed exc) ∷ b.dead_lettered;
}
collect max_attempts e (refused exc) b =
    if leb max_attempts (e.attempts + 1)
    then record b { dead_lettered = (e.id, abandoned (e.attempts + 1) exc) ∷ b.dead_lettered }
    else record b { retry_ids = e.id ∷ b.retry_ids }

unfoldable pub publish_all : ℕ → (OutboxEvent → Publish) → List OutboxEvent → Batch
unfolding collect
publish_all max_attempts publish [] = record {
  published_ids = [];
  retry_ids = [];
  dead_lettered = [];
}
publish_all max_attempts publish (e ∷ es) =
    collect max_attempts e (publish e) (publish_all max_attempts publish es)

unfoldable pub mark_all_failed : ℕ → List (ℕ × Message) → List OutboxEvent → List OutboxEvent
unfolding mark_failed
mark_all_failed now [] outbox = outbox
mark_all_failed now ((id, error) ∷ dead) outbox =
    mark_all_failed now dead (mark_failed now (id ∷ []) error outbox)

-- The second transaction.
unfoldable pub mark_batch : ℕ → Batch → List OutboxEvent → List OutboxEvent
unfolding mark_published increment_attempts mark_all_failed
mark_batch now b outbox =
    mark_all_failed now b.dead_lettered
      (increment_attempts b.retry_ids (mark_published now b.published_ids outbox))

unfoldable pub relay_tick : ℕ → ℕ → (OutboxEvent → Publish) → Db → Db
unfolding fetch_unpublished publish_all mark_batch
relay_tick now max_attempts publish db =
    let events = fetch_unpublished max_attempts outbox_relay_batch db in
    record db { outbox = mark_batch now (publish_all max_attempts publish events) db.outbox }
