-- ===== src/Relay/Order.antt =====
-- The fetch of the relay: what it takes is in the table, with no id twice.
use incident_platform.Prelude.{
  ℕ, zero, suc, ◌≡◌, refl, Bool, false, some, List, [], ◌∷◌, inl, inr, ◌==◌, leb, select, take, All,
  Bool-cases, ==_sym, ==_refl,
}
use incident_platform.Store.{OutboxEvent, Db}
use incident_platform.Store.Table.{find_where}
use incident_platform.Relay.{insert_oldest, oldest_first, fetch_unpublished}

abbrev pub event_id : ℕ → OutboxEvent → Bool
event_id id e = e.id == id

abbrev pub Apart : OutboxEvent → OutboxEvent → Type 0
Apart e f = (e.id == f.id) ≡ false

-- The primary key of `outbox_events`.
abbrev pub DistinctIds : List OutboxEvent → Type 0
DistinctIds [] = Unit
DistinctIds (e ∷ es) = All (Apart e) es × DistinctIds es

module _ (P : OutboxEvent → Type 0) where
  insert-All :
      (e : OutboxEvent) (es : List OutboxEvent) → P e → All P es → All P (insert_oldest e es)
  unfolding insert_oldest
  insert-All e [] p h = (p, tt)
  insert-All e (f ∷ fs) p h = elim (Bool-cases (leb e.created_at f.created_at)) [
    | inl t ↦ rw t (p, h)
    | inr t ↦ rw t (h.0, insert-All e fs p h.1)
  ]

  pub oldest-All : (es : List OutboxEvent) → All P es → All P (oldest_first es)
  unfolding oldest_first
  oldest-All [] h = tt
  oldest-All (e ∷ es) h = insert-All e (oldest_first es) h.0 (oldest-All es h.1)

  pub select-All : (q : OutboxEvent → Bool) (es : List OutboxEvent) → All P es → All P (select q es)
  select-All q [] h = tt
  select-All q (e ∷ es) h = elim (Bool-cases (q e)) [
    | inl t ↦ rw t (h.0, select-All q es h.1)
    | inr t ↦ rw t (select-All q es h.1)
  ]

  pub take-All : (n : ℕ) (es : List OutboxEvent) → All P es → All P (take n es)
  take-All zero es h = tt
  take-All (suc n) [] h = tt
  take-All (suc n) (e ∷ es) h = (h.0, take-All n es h.1)

insert-DistinctIds :
    (e : OutboxEvent) (es : List OutboxEvent)
    → All (Apart e) es
    → DistinctIds es
    → DistinctIds (insert_oldest e es)
unfolding insert_oldest
insert-DistinctIds e [] h d = (tt, tt)
insert-DistinctIds e (f ∷ fs) h d = elim (Bool-cases (leb e.created_at f.created_at)) [
  | inl t ↦ rw t (h, d)
  | inr t ↦
      rw t (
        insert-All (Apart f) e fs (==_sym false e.id f.id h.0) d.0,
        insert-DistinctIds e fs h.1 d.1,
      )
]

oldest-DistinctIds : (es : List OutboxEvent) → DistinctIds es → DistinctIds (oldest_first es)
unfolding oldest_first
oldest-DistinctIds [] d = tt
oldest-DistinctIds (e ∷ es) d =
    insert-DistinctIds e (oldest_first es) (oldest-All (Apart e) es d.0) (oldest-DistinctIds es d.1)

select-DistinctIds :
    (q : OutboxEvent → Bool) (es : List OutboxEvent) → DistinctIds es → DistinctIds (select q es)
select-DistinctIds q [] d = tt
select-DistinctIds q (e ∷ es) d = elim (Bool-cases (q e)) [
  | inl t ↦ rw t (select-All (Apart e) q es d.0, select-DistinctIds q es d.1)
  | inr t ↦ rw t (select-DistinctIds q es d.1)
]

take-DistinctIds : (n : ℕ) (es : List OutboxEvent) → DistinctIds es → DistinctIds (take n es)
take-DistinctIds zero es d = tt
take-DistinctIds (suc n) [] d = tt
take-DistinctIds (suc n) (e ∷ es) d = (take-All (Apart e) n es d.0, take-DistinctIds n es d.1)

-- A row that its id finds.
abbrev pub FoundIn : List OutboxEvent → OutboxEvent → Type 0
FoundIn outbox e = find_where (event_id e.id) outbox ≡ some e

pub rows-FoundIn : (es : List OutboxEvent) → DistinctIds es → All (FoundIn es) es
rows-FoundIn [] d = tt
rows-FoundIn (e ∷ es) d = (rw (==_refl e.id) refl, later es d.0 (rows-FoundIn es d.1))
  where
    later :
        (fs : List OutboxEvent) → All (Apart e) fs → All (FoundIn es) fs → All (FoundIn (e ∷ es)) fs
    later [] a h = tt
    later (f ∷ fs) a h = (rw a.0 h.0, later fs a.1 h.1)

module _ (max_attempts limit : ℕ) (db : Db) (d : DistinctIds db.outbox) where
  pub fetch-DistinctIds : DistinctIds (fetch_unpublished max_attempts limit db)
  unfolding fetch_unpublished
  fetch-DistinctIds =
      take-DistinctIds limit _ (oldest-DistinctIds _ (select-DistinctIds _ db.outbox d))

  pub fetch-FoundIn : All (FoundIn db.outbox) (fetch_unpublished max_attempts limit db)
  unfolding fetch_unpublished
  fetch-FoundIn = take-All (FoundIn db.outbox) limit _ (
      oldest-All (FoundIn db.outbox) _
        (select-All (FoundIn db.outbox) _ db.outbox (rows-FoundIn db.outbox d)))
