-- ===== src/Examples/Relays.antt =====
-- The theorems on the outbox relay, at a table of three rows.
use incident_platform.Examples.{db}
use incident_platform.Prelude.{
  ℕ, ◌≡◌, refl, none, some, [], ◌∷◌, arith, length, min, count_where, member, map, All,
  if◌then◌else◌, true,
}
use incident_platform.Store.{Db, OutboxEvent, job_submitted, submitted, text}
use incident_platform.Relay.{
  Publish, delivered, refused, fetchable, fetch_unpublished, relay_tick, outbox_relay_batch,
}
use incident_platform.Relay.Marks.{outcome}
use incident_platform.Relay.Tick.{ids, relay_tick_exact}
use incident_platform.Relay.Drain.{backlog, relay_passes, relay_drains}

abbrev event : ℕ → ℕ → OutboxEvent
event id created_at = record {
  id = id;
  tenant_id = 100;
  topic = job_submitted;
  key = (100, 7);
  payload = submitted 100 1 7 "csv_upload" [] 5 none;
  attempts = 0;
  created_at = created_at;
  published_at = none;
  failed_at = none;
  error_message = none;
}

abbrev table : Db
table = record db {
  outbox = event 60 12 ∷ event 61 11 ∷ record (event 62 10) { published_at = some 13 } ∷ [];
}

abbrev broken : OutboxEvent → Publish
broken e = refused (text "timeout")

relay_tick_exact_example :
    (length (fetch_unpublished 2 outbox_relay_batch table)
      ≡ min 100 (count_where (fetchable 2) table.outbox))
    × All (λ e. fetchable 2 e ≡ true) (fetch_unpublished 2 outbox_relay_batch table)
    × ((relay_tick 20 2 broken table).outbox
        ≡ map
            (λ e.
              if member e.id (ids (fetch_unpublished 2 outbox_relay_batch table))
              then outcome 20 2 (broken e) e
              else e)
            table.outbox)
relay_tick_exact_example =
    relay_tick_exact 20 2 broken table ((refl, (refl, tt)), ((refl, tt), (tt, tt)))

relay_drains_example : backlog 2 (relay_passes 2 (λ e. delivered) (20 ∷ []) table) ≡ 0
relay_drains_example =
    relay_drains 2 (λ e. delivered) (20 ∷ []) table ((refl, (refl, tt)), ((refl, tt), (tt, tt)))
      (λ e. refl) (omega arith)
