-- ===== src/Relay/Marks.antt =====
-- The second transaction of the relay, row by row: what the marks of a batch do to one row.
use incident_platform.Prelude.{ap₂}
use incident_platform.Prelude.{
  ℕ, ◌+◌, ◌≡◌, refl, sym, ap, ◌∙◌, subst, false, some, List, [], ◌∷◌, inl, inr, arith, ◌==◌, leb,
  if◌then◌else◌, All, Bool-cases, ==_refl, ==_iff, some_eq, member, map,
}
use incident_platform.Store.{Message, schema_failed, abandoned, OutboxEvent}
use incident_platform.Store.Table.{find_where}
use incident_platform.Relay.{
  Publish, delivered, schema_error, refused, listed, as_published, as_retried, as_failed, Batch,
  collect, publish_all, mark_all_failed, mark_batch,
}
use incident_platform.Relay.Order.{event_id, Apart, DistinctIds, FoundIn}

-- What the tick owes a row that it took, by the end of its publish.
abbrev pub outcome : ℕ → ℕ → Publish → OutboxEvent → OutboxEvent
outcome now max_attempts delivered e = as_published now e
outcome now max_attempts (schema_error exc) e = as_failed now (schema_failed exc) e
outcome now max_attempts (refused exc) e =
    if leb max_attempts (e.attempts + 1)
    then as_failed now (abandoned (e.attempts + 1) exc) e
    else as_retried e

row_failed : ℕ → List (ℕ × Message) → OutboxEvent → OutboxEvent
row_failed now [] e = e
row_failed now ((id, error) ∷ dead) e =
    row_failed now dead (if listed (id ∷ []) e then as_failed now error e else e)

row_published : ℕ → List ℕ → OutboxEvent → OutboxEvent
row_published now ids e = if listed ids e then as_published now e else e

row_retried : List ℕ → OutboxEvent → OutboxEvent
row_retried ids e = if listed ids e then as_retried e else e

row_mark : ℕ → Batch → OutboxEvent → OutboxEvent
unfolding row_failed row_published row_retried
row_mark now b e =
    row_failed now b.dead_lettered (row_retried b.retry_ids (row_published now b.published_ids e))

all_failed-cons :
    (now : ℕ) (dead : List (ℕ × Message)) (e : OutboxEvent) (es : List OutboxEvent)
    → mark_all_failed now dead (e ∷ es) ≡ row_failed now dead e ∷ mark_all_failed now dead es
unfolding mark_all_failed row_failed
all_failed-cons now [] e es = refl
all_failed-cons now ((id, error) ∷ dead) e es = all_failed-cons now dead _ _

all_failed-nil : (now : ℕ) (dead : List (ℕ × Message)) → mark_all_failed now dead [] ≡ []
unfolding mark_all_failed
all_failed-nil now [] = refl
all_failed-nil now ((id, error) ∷ dead) = all_failed-nil now dead

mark_batch-map :
    (now : ℕ) (b : Batch) (es : List OutboxEvent) → mark_batch now b es ≡ map (row_mark now b) es
unfolding mark_batch row_mark
mark_batch-map now b [] = all_failed-nil now b.dead_lettered
mark_batch-map now b (e ∷ es) =
    all_failed-cons now b.dead_lettered _ _
    ∙ ap (λ l. row_mark now b e ∷ l) (mark_batch-map now b es)

row_published-id : (now : ℕ) (ids : List ℕ) (e : OutboxEvent) → (row_published now ids e).id ≡ e.id
unfolding row_published
row_published-id now ids e = ground arith

row_retried-id : (ids : List ℕ) (e : OutboxEvent) → (row_retried ids e).id ≡ e.id
unfolding row_retried
row_retried-id ids e = ground arith

-- The marks of a batch that does not name the row's id.
record Absent (now : ℕ) (b : Batch) (e : OutboxEvent) : Type 0 where
  pub published : listed b.published_ids e ≡ false
  pub retried : listed b.retry_ids e ≡ false
  pub failed : (f : OutboxEvent) → f.id ≡ e.id → row_failed now b.dead_lettered f ≡ f

failed-skip :
    (now id : ℕ) (error : Message) (dead : List (ℕ × Message)) (f : OutboxEvent)
    → (f.id == id) ≡ false
    → row_failed now ((id, error) ∷ dead) f ≡ row_failed now dead f
unfolding row_failed
failed-skip now id error dead f n = rw n refl

module _ (now max_attempts : ℕ) (publish : OutboxEvent → Publish) where
  dead-Absent :
      (e f : OutboxEvent) (error : Message) (b : Batch)
      → (e.id == f.id) ≡ false
      → Absent now b e
      → Absent now (record b { dead_lettered = (f.id, error) ∷ b.dead_lettered }) e
  dead-Absent e f error b n h = record {
    published = h.published;
    retried = h.retried;
    failed = λ g same.
        failed-skip now f.id error b.dead_lettered g (subst (λ i. (i == f.id) ≡ false) (sym same) n)
        ∙ h.failed g same;
  }

  collect-Absent :
      (e f : OutboxEvent) (p : Publish) (b : Batch)
      → (e.id == f.id) ≡ false
      → Absent now b e
      → Absent now (collect max_attempts f p b) e
  unfolding collect
  collect-Absent e f delivered b n h = record {
    published = rw n h.published;
    retried = h.retried;
    failed = h.failed;
  }
  collect-Absent e f (schema_error exc) b n h = dead-Absent e f (schema_failed exc) b n h
  collect-Absent e f (refused exc) b n h = elim (Bool-cases (leb max_attempts (f.attempts + 1))) [
    | inl t ↦ rw t (dead-Absent e f (abandoned (f.attempts + 1) exc) b n h)
    | inr t ↦ rw t (record { published = h.published; retried = rw n h.retried; failed = h.failed })
  ]

  All-Absent :
      (e : OutboxEvent) (es : List OutboxEvent)
      → All (Apart e) es
      → Absent now (publish_all max_attempts publish es) e
  unfolding publish_all row_failed
  All-Absent e [] h = record { published = refl; retried = refl; failed = λ f same. refl }
  All-Absent e (f ∷ fs) h = collect-Absent e f (publish f) _ h.0 (All-Absent e fs h.1)

  Absent-row_mark : (e : OutboxEvent) (b : Batch) → Absent now b e → row_mark now b e ≡ e
  unfolding row_mark
  Absent-row_mark e b h = rw h.published (rw h.retried (h.failed e refl))

  dead-hit :
      (e : OutboxEvent) (error : Message) (b : Batch)
      → Absent now b e
      → row_mark now (record b { dead_lettered = (e.id, error) ∷ b.dead_lettered }) e
        ≡ as_failed now error e
  unfolding row_mark
  dead-hit e error b h =
      rw h.published (rw h.retried (rw (==_refl e.id) (h.failed (as_failed now error e) refl)))

  collect-hit :
      (e : OutboxEvent) (p : Publish) (b : Batch)
      → Absent now b e
      → row_mark now (collect max_attempts e p b) e ≡ outcome now max_attempts p e
  unfolding collect row_mark
  collect-hit e delivered b h =
      rw (==_refl e.id) (rw h.retried (h.failed (as_published now e) refl))
  collect-hit e (schema_error exc) b h = dead-hit e (schema_failed exc) b h
  collect-hit e (refused exc) b h = elim (Bool-cases (leb max_attempts (e.attempts + 1))) [
    | inl t ↦ rw t ((dead-hit e (abandoned (e.attempts + 1) exc) b h))
    | inr t ↦ rw t ((rw h.published (rw (==_refl e.id) (h.failed (as_retried e) refl))))
  ]

  dead-skip :
      (e : OutboxEvent) (id : ℕ) (error : Message) (b : Batch)
      → (e.id == id) ≡ false
      → row_mark now (record b { dead_lettered = (id, error) ∷ b.dead_lettered }) e
        ≡ row_mark now b e
  unfolding row_mark
  dead-skip e id error b n =
      let published = row_published now b.published_ids e in
      let same = row_retried-id b.retry_ids published ∙ row_published-id now b.published_ids e in
      failed-skip now id error b.dead_lettered (row_retried b.retry_ids published)
        (subst (λ i. (i == id) ≡ false) (sym same) n)

  retry-skip :
      (e : OutboxEvent) (id : ℕ) (b : Batch)
      → (e.id == id) ≡ false
      → row_mark now (record b { retry_ids = id ∷ b.retry_ids }) e ≡ row_mark now b e
  unfolding row_mark row_retried
  retry-skip e id b n =
      let same = row_published-id now b.published_ids e in
      let apart : ((row_published now b.published_ids e).id == id) ≡ false =
        subst (λ i. (i == id) ≡ false) (sym same) n in
      rw apart refl

  collect-skip :
      (e f : OutboxEvent) (p : Publish) (b : Batch)
      → (e.id == f.id) ≡ false
      → row_mark now (collect max_attempts f p b) e ≡ row_mark now b e
  unfolding collect row_mark row_published
  collect-skip e f delivered b n = rw n refl
  collect-skip e f (schema_error exc) b n = dead-skip e f.id (schema_failed exc) b n
  collect-skip e f (refused exc) b n = elim (Bool-cases (leb max_attempts (f.attempts + 1))) [
    | inl t ↦ rw t (dead-skip e f.id (abandoned (f.attempts + 1) exc) b n)
    | inr t ↦ rw t (retry-skip e f.id b n)
  ]

  -- The marks of a batch, on a row of the table.
  batch-row :
      (e : OutboxEvent) (outbox es : List OutboxEvent)
      → FoundIn outbox e
      → All (FoundIn outbox) es
      → DistinctIds es
      → row_mark now (publish_all max_attempts publish es) e ≡ (
          if member e.id (map (λ (f : OutboxEvent). f.id) es)
          then outcome now max_attempts (publish e) e
          else e)
  unfolding publish_all
  batch-row e outbox [] h hs d = Absent-row_mark e _ (All-Absent e [] tt)
  batch-row e outbox (f ∷ fs) h hs d = elim (Bool-cases (e.id == f.id)) [
    | inl t ↦
        let same = some_eq e f (
          sym h
          ∙ subst (λ i. find_where (event_id i) outbox ≡ some f) (sym ((==_iff e.id f.id).0 t))
              hs.0) in
        rw t (
          subst
            (λ g.
              row_mark now
                (collect max_attempts g (publish g) (publish_all max_attempts publish fs)) e
              ≡ outcome now max_attempts (publish e) e)
            same
            (collect-hit e (publish e) (publish_all max_attempts publish fs)
              (All-Absent e fs (subst (λ g. All (Apart g) fs) (sym same) d.0))))
    | inr n ↦ rw n (
        collect-skip e f (publish f) (publish_all max_attempts publish fs) n
        ∙ batch-row e outbox fs h hs.1 d.1)
  ]

  pub batch-rows :
      (outbox es rows : List OutboxEvent)
      → All (FoundIn outbox) rows
      → All (FoundIn outbox) es
      → DistinctIds es
      → mark_batch now (publish_all max_attempts publish es) rows
        ≡ map
            (λ e.
              if member e.id (map (λ (f : OutboxEvent). f.id) es)
              then outcome now max_attempts (publish e) e
              else e)
            rows
  batch-rows outbox es rows hr hs d =
      mark_batch-map now (publish_all max_attempts publish es) rows ∙ go rows hr
    where
      go :
          (rs : List OutboxEvent)
          → All (FoundIn outbox) rs
          → map (row_mark now (publish_all max_attempts publish es)) rs
            ≡ map
                (λ e.
                  if member e.id (map (λ (f : OutboxEvent). f.id) es)
                  then outcome now max_attempts (publish e) e
                  else e)
                rs
      go [] h = refl
      go (r ∷ rs) h = ap₂ (λ a l. a ∷ l) (batch-row r outbox es h.0 hs d) (go rs h.1)
