-- ===== src/Relay/Tick.antt =====
-- One pass of the outbox relay: which rows it takes, and what becomes of every row of the table.
use incident_platform.Prelude.{
  ℕ, suc, ◌≡◌, refl, ap, ◌∙◌, Bool, true, List, [], ◌∷◌, inl, inr, arith, min, leb, if◌then◌else◌,
  All, Bool-cases, select, count_where, length, length-take, member, map,
}
use incident_platform.Store.{OutboxEvent, Db}
use incident_platform.Relay.{
  Publish, fetchable, insert_oldest, oldest_first, fetch_unpublished, outbox_relay_batch,
  relay_tick,
}
use incident_platform.Relay.Order.{
  DistinctIds, oldest-All, take-All, rows-FoundIn, fetch-DistinctIds, fetch-FoundIn,
}
use incident_platform.Relay.Marks.{outcome, batch-rows}

abbrev pub ids : List OutboxEvent → List ℕ
ids es = map (λ (e : OutboxEvent). e.id) es

length-insert :
    (e : OutboxEvent) (es : List OutboxEvent) → length (insert_oldest e es) ≡ suc (length es)
unfolding insert_oldest
length-insert e [] = refl
length-insert e (f ∷ fs) = elim (Bool-cases (leb e.created_at f.created_at)) [
  | inl t ↦ rw t refl
  | inr t ↦ rw t (ap suc (length-insert e fs))
]

length-oldest : (es : List OutboxEvent) → length (oldest_first es) ≡ length es
unfolding oldest_first
length-oldest [] = refl
length-oldest (e ∷ es) = length-insert e (oldest_first es) ∙ ap suc (length-oldest es)

length-select :
    (q : OutboxEvent → Bool) (es : List OutboxEvent) → length (select q es) ≡ count_where q es
length-select q [] = refl
length-select q (e ∷ es) = ground (arith, length-select q es)

selected : (q : OutboxEvent → Bool) (es : List OutboxEvent) → All (λ e. q e ≡ true) (select q es)
selected q [] = tt
selected q (e ∷ es) = elim (Bool-cases (q e)) [
  | inl t ↦ rw t (t, selected q es)
  | inr t ↦ rw t (selected q es)
]

module _ (max_attempts limit : ℕ) (db : Db) where
  pub length-fetch :
      length (fetch_unpublished max_attempts limit db)
      ≡ min limit (count_where (fetchable max_attempts) db.outbox)
  unfolding fetch_unpublished
  length-fetch =
      let chosen = select (fetchable max_attempts) db.outbox in
      length-take limit (oldest_first chosen)
      ∙ ap (min limit) (length-oldest chosen ∙ length-select (fetchable max_attempts) db.outbox)

  pub fetch-fetchable :
      All (λ e. fetchable max_attempts e ≡ true) (fetch_unpublished max_attempts limit db)
  unfolding fetch_unpublished
  fetch-fetchable =
      take-All (λ e. fetchable max_attempts e ≡ true) limit _
        (oldest-All (λ e. fetchable max_attempts e ≡ true) _
          (selected (fetchable max_attempts) db.outbox))

-- On a table with a primary key, a pass takes as many rows as there are to publish, a hundred at
-- most, each neither published nor out of attempts. Every row that it takes is marked by the end of
-- its own publish: published after a delivery, dead-lettered after a schema error or a last attempt,
-- and otherwise one attempt further; every other row is as it was.
pub relay_tick_exact :
    (now max_attempts : ℕ) (publish : OutboxEvent → Publish) (db : Db)
    → DistinctIds db.outbox
    → let taken = fetch_unpublished max_attempts outbox_relay_batch db in
      (length taken ≡ min 100 (count_where (fetchable max_attempts) db.outbox))
      × All (λ e. fetchable max_attempts e ≡ true) taken
      × ((relay_tick now max_attempts publish db).outbox
          ≡ map
              (λ e. if member e.id (ids taken) then outcome now max_attempts (publish e) e else e)
              db.outbox)
unfolding relay_tick
relay_tick_exact now max_attempts publish db d =
    let taken = fetch_unpublished max_attempts outbox_relay_batch db in
    (
      length-fetch max_attempts outbox_relay_batch db,
      fetch-fetchable max_attempts outbox_relay_batch db,
      batch-rows now max_attempts publish db.outbox taken db.outbox (rows-FoundIn db.outbox d)
          (fetch-FoundIn max_attempts outbox_relay_batch db d)
          (fetch-DistinctIds max_attempts outbox_relay_batch db d),
    )
