-- ===== src/Relay/Drain.antt =====
-- A relay whose publishes are delivered empties the outbox.
use incident_platform.Prelude.{ap₂}
use incident_platform.Prelude.{
  ℕ, ◌+◌, ◌*◌, ◌≤◌, ◌≡◌, refl, sym, ap, ◌∙◌, subst, Bool, true, false, not, ◌&&◌, ◌||◌, List, [],
  ◌∷◌, inl, inr, arith, min, ◌==◌, if◌then◌else◌, All, Bool-cases, ==_iff, ==_sym, some_eq,
  count_where, length, member, map,
}
use incident_platform.Store.{OutboxEvent, Db}
use incident_platform.Relay.{
  Publish, delivered, as_published, fetchable, fetch_unpublished, outbox_relay_batch, relay_tick,
}
use incident_platform.Relay.Order.{Apart, DistinctIds, FoundIn, fetch-DistinctIds, fetch-FoundIn}
use incident_platform.Relay.Marks.{outcome}
use incident_platform.Relay.Tick.{ids, relay_tick_exact}

Apart-ids :
    (f : OutboxEvent) (fs : List OutboxEvent) → All (Apart f) fs → member f.id (ids fs) ≡ false
Apart-ids f [] h = refl
Apart-ids f (g ∷ gs) h = rw h.0 (Apart-ids f gs h.1)

-- Leaving out a row that no other row has the id of.
none_named :
    (r : OutboxEvent → Bool) (id : ℕ) (x : OutboxEvent) (xs : List OutboxEvent)
    → (x.id == id) ≡ true
    → All (Apart x) xs
    → count_where (λ e. r e && not (e.id == id)) xs ≡ count_where r xs
none_named r id x [] t h = refl
none_named r id x (y ∷ ys) t h =
    let apart : (y.id == id) ≡ false =
      rw (sym ((==_iff x.id id).0 t)) (==_sym false x.id y.id h.0) in
    ground (arith, none_named r id x ys t h.1, apart)

leave_one :
    (r : OutboxEvent → Bool) (f : OutboxEvent) (xs : List OutboxEvent)
    → r f ≡ true
    → FoundIn xs f
    → DistinctIds xs
    → count_where (λ e. r e && not (e.id == f.id)) xs + 1 ≡ count_where r xs
leave_one r f [] t h d = cc
leave_one r f (x ∷ xs) t h d = elim (Bool-cases (x.id == f.id)) [
  | inl e ↦
      let same : x ≡ f = some_eq x f (rw e at h) in
      let yes' : r x ≡ true = subst (λ g. r g ≡ true) (sym same) t in
      ground (arith, none_named r f.id x xs e d.0)
  | inr n ↦ ground (arith, leave_one r f xs t (rw n at h) d.1)
]

split_out :
    (q : OutboxEvent → Bool) (a m : ℕ → Bool) (xs : List OutboxEvent)
    → count_where (λ e. q e && not (a e.id || m e.id)) xs
      ≡ count_where (λ e. (q e && not (m e.id)) && not (a e.id)) xs
split_out q a m [] = refl
split_out q a m (x ∷ xs) = ground (arith, split_out q a m xs)

leave_none :
    (q : OutboxEvent → Bool) (xs : List OutboxEvent)
    → count_where (λ e. q e && true) xs ≡ count_where q xs
leave_none q [] = refl
leave_none q (x ∷ xs) = ground (arith, leave_none q xs)

leave_whole :
    (q : OutboxEvent → Bool) (es xs : List OutboxEvent)
    → All (λ e. q e ≡ true) es
    → All (FoundIn xs) es
    → DistinctIds es
    → DistinctIds xs
    → count_where (λ e. q e && not (member e.id (ids es))) xs + length es ≡ count_where q xs
leave_whole q [] xs t h d dx = omega (arith, leave_none q xs)
leave_whole q (f ∷ fs) xs t h d dx =
    let r : OutboxEvent → Bool = λ e. q e && not (member e.id (ids fs)) in
    let hit : r f ≡ true = rw (t.0, Apart-ids f fs d.0) refl in
    omega (
      arith,
      leave_whole q fs xs t.1 h.1 d.1 dx,
      leave_one r f xs hit h.0 dx,
      split_out q (λ i. i == f.id) (λ i. member i (ids fs)) xs,
    )

published_count :
    (now max_attempts : ℕ) (m : ℕ → Bool) (xs : List OutboxEvent)
    → count_where (fetchable max_attempts) (map (λ e. if m e.id then as_published now e else e) xs)
      ≡ count_where (λ e. fetchable max_attempts e && not (m e.id)) xs
published_count now max_attempts m [] = refl
published_count now max_attempts m (x ∷ xs) = ground (arith, published_count now max_attempts m xs)

map-Apart :
    (now : ℕ) (m : ℕ → Bool) (e : OutboxEvent) (xs : List OutboxEvent)
    → All (Apart e) xs
    → All (Apart e) (map (λ e'. if m e'.id then as_published now e' else e') xs)
map-Apart now m e [] h = tt
map-Apart now m e (x ∷ xs) h =
    (elim (Bool-cases (m x.id)) [ inl t ↦ rw t h.0 | inr t ↦ rw t h.0 ], map-Apart now m e xs h.1)

map-DistinctIds :
    (now : ℕ) (m : ℕ → Bool) (xs : List OutboxEvent)
    → DistinctIds xs
    → DistinctIds (map (λ e. if m e.id then as_published now e else e) xs)
map-DistinctIds now m [] d = tt
map-DistinctIds now m (x ∷ xs) d = (
  elim (Bool-cases (m x.id)) [
    | inl t ↦ rw t (map-Apart now m x xs d.0)
    | inr t ↦ rw t (map-Apart now m x xs d.0)
  ],
  map-DistinctIds now m xs d.1,
)

outcomes :
    (now max_attempts : ℕ) (publish : OutboxEvent → Publish) (m : ℕ → Bool) (xs : List OutboxEvent)
    → ((e : OutboxEvent) → publish e ≡ delivered)
    → map (λ e. if m e.id then outcome now max_attempts (publish e) e else e) xs
      ≡ map (λ e. if m e.id then as_published now e else e) xs
outcomes now max_attempts publish m [] up = refl
outcomes now max_attempts publish m (x ∷ xs) up =
    ap₂ (λ a l. a ∷ l) (ap (λ p. if m x.id then outcome now max_attempts p x else x) (up x))
      (outcomes now max_attempts publish m xs up)

-- The rows that the relay still owes a publish.
abbrev pub backlog : ℕ → Db → ℕ
backlog max_attempts db = count_where (fetchable max_attempts) db.outbox

tick_drains :
    (now max_attempts : ℕ) (publish : OutboxEvent → Publish) (db : Db)
    → DistinctIds db.outbox
    → ((e : OutboxEvent) → publish e ≡ delivered)
    → let db' = relay_tick now max_attempts publish db in
      DistinctIds db'.outbox
      × (backlog max_attempts db' + min 100 (backlog max_attempts db) ≡ backlog max_attempts db)
tick_drains now max_attempts publish db d up =
    let taken = fetch_unpublished max_attempts outbox_relay_batch db in
    let (few, open_rows, rows) = relay_tick_exact now max_attempts publish db d in
    let m : ℕ → Bool = λ i. member i (ids taken) in
    let rows' = rows ∙ outcomes now max_attempts publish m db.outbox up in
    (
      subst DistinctIds (sym rows') (map-DistinctIds now m db.outbox d),
      rw rows' (
          omega (
            arith,
            few,
            published_count now max_attempts m db.outbox,
            leave_whole (fetchable max_attempts) taken db.outbox open_rows
                (fetch-FoundIn max_attempts outbox_relay_batch db d)
                (fetch-DistinctIds max_attempts outbox_relay_batch db d) d,
          )),
    )

-- Passes of the relay at the given times.
unfoldable pub relay_passes : ℕ → (OutboxEvent → Publish) → List ℕ → Db → Db
relay_passes max_attempts publish [] db = db
relay_passes max_attempts publish (now ∷ times) db =
    relay_passes max_attempts publish times (relay_tick now max_attempts publish db)

-- On a table with a primary key, where every publish is delivered and nobody adds a row, so many
-- passes as there are hundreds of rows to publish leave none.
pub relay_drains :
    (max_attempts : ℕ) (publish : OutboxEvent → Publish) (times : List ℕ) (db : Db)
    → DistinctIds db.outbox
    → ((e : OutboxEvent) → publish e ≡ delivered)
    → backlog max_attempts db ≤ 100 * length times
    → backlog max_attempts (relay_passes max_attempts publish times db) ≡ 0
unfolding relay_passes
relay_drains max_attempts publish [] db d up h = omega arith
relay_drains max_attempts publish (now ∷ times) db d up h =
    let (d', less) = tick_drains now max_attempts publish db d up in
    relay_drains max_attempts publish times (relay_tick now max_attempts publish db) d' up
      (omega (arith, less))
