-- ===== src/Cache/Fresh.antt =====
-- What readers find in a slot after a commit and its invalidation, whatever other readers write.
use incident_platform.Prelude.{
  ℕ, ◌+◌, ◌≤◌, ◌<◌, ◌≡◌, Bool, true, false, none, some, List, [], ◌∷◌, ltb, arith, Bool-cases, inl,
  inr, some_eq, subst, Option-cases,
}
use incident_platform.Cache.{
  row, tombstone, unreadable, Slot, job_ttl, no_cache_ttl, live, read_back, get, set, delete,
  invalidate,
}

-- What happens to a slot: a reader writes back the row that it read at `read_at`, a later mutation
-- invalidates it, or a caller of `delete` (`resolve_incident`) empties it.
pub data Event (V : Type 0) : Type 0 where
  written_back : (reaches : Bool) (read_at now : ℕ) (v : V) → Event V
  invalidated : (reaches : Bool) (now : ℕ) → Event V
  deleted : (reaches : Bool) (now : ℕ) → Event V

over : (i e now : ℕ) → i + 30 ≤ e → ltb now e ≡ false → i + 30 ≤ now
over i e now g t = ground arith

module _ {V : Type 0} where
  abbrev pub happen : Event V → Slot V → Slot V
  happen (written_back reaches read_at now v) slot = set reaches now v job_ttl slot
  happen (invalidated reaches now) slot = invalidate reaches now no_cache_ttl slot
  happen (deleted reaches now) slot = delete reaches slot

  abbrev pub happen_all : List (Event V) → Slot V → Slot V
  happen_all [] slot = slot
  happen_all (e ∷ es) slot = happen_all es (happen e slot)

  module _ (is_fresh : V → Bool) (committed_at invalidated_at : ℕ) where
    -- In the order of time from `last` on: a reader writes back within the thirty seconds, and one that
    -- read after the commit read a fresh row; nothing is deleted while the tombstone has to stand.
    abbrev pub Timely : ℕ → List (Event V) → Type 0
    Timely last [] = Unit
    Timely last (written_back reaches read_at now v ∷ es) =
        (last ≤ now)
        × (now < read_at + no_cache_ttl)
        × (committed_at ≤ read_at → is_fresh v ≡ true)
        × Timely now es
    Timely last (invalidated reaches now ∷ es) = (last ≤ now) × Timely now es
    Timely last (deleted reaches now ∷ es) =
        (last ≤ now) × (invalidated_at + no_cache_ttl ≤ now) × Timely now es

    -- At `last`: a tombstone or a fresh row, which stands for the thirty seconds at least, or nothing
    -- any more once they are over.
    abbrev Guarded : ℕ → Slot V → Type 0
    Guarded last none = invalidated_at + no_cache_ttl ≤ last
    Guarded last (some (row v, e)) = (is_fresh v ≡ true) × (invalidated_at + no_cache_ttl ≤ e)
    Guarded last (some (tombstone, e)) = invalidated_at + no_cache_ttl ≤ e
    Guarded last (some (unreadable, e)) = ⊥

    Guarded-later :
        (slot : Slot V) (last now : ℕ) → last ≤ now → Guarded last slot → Guarded now slot
    Guarded-later none last now le g = omega (arith, le, g)
    Guarded-later (some (row v, e)) last now le g = g
    Guarded-later (some (tombstone, e)) last now le g = g
    Guarded-later (some (unreadable, e)) last now le g = g

    Guarded-late :
        (slot : Slot V) (now : ℕ)
        → Guarded now slot
        → live now slot ≡ none
        → invalidated_at + no_cache_ttl ≤ now
    Guarded-late none now g free = g
    Guarded-late (some (row v, e)) now g free = elim (Bool-cases (ltb now e)) [
      | inl t ↦ let bad : some (row v) ≡ none = rw t at free in cc
      | inr t ↦ over invalidated_at e now g.1 t
    ]
    Guarded-late (some (tombstone, e)) now g free = elim (Bool-cases (ltb now e)) [
      | inl t ↦ let bad : some tombstone ≡ none = rw t at free in cc
      | inr t ↦ over invalidated_at e now g t
    ]
    Guarded-late (some (unreadable, e)) now g free = absurd g

    set-Guarded :
        (reaches : Bool) (read_at now : ℕ) (v : V) (slot : Slot V)
        → committed_at ≤ invalidated_at
        → now < read_at + no_cache_ttl
        → (committed_at ≤ read_at → is_fresh v ≡ true)
        → Guarded now slot
        → Guarded now (set reaches now v job_ttl slot)
    unfolding set
    set-Guarded false read_at now v slot c soon fresh g = g
    set-Guarded true read_at now v slot c soon fresh g = elim (Option-cases (live now slot)) [
      | inl free ↦
          let late = Guarded-late slot now g free in
          rw free (fresh (omega (arith, c, soon, late)), omega (arith, late))
      | inr (held, is) ↦ rw is g
    ]

    invalidate-Guarded :
        (reaches : Bool) (now : ℕ) (slot : Slot V)
        → invalidated_at ≤ now
        → Guarded now slot
        → Guarded now (invalidate reaches now no_cache_ttl slot)
    unfolding invalidate
    invalidate-Guarded true now slot le g = omega (arith, le)
    invalidate-Guarded false now slot le g = g

    delete-Guarded :
        (reaches : Bool) (now : ℕ) (slot : Slot V)
        → invalidated_at + no_cache_ttl ≤ now
        → Guarded now slot
        → Guarded now (delete reaches slot)
    unfolding delete
    delete-Guarded true now slot le g = le
    delete-Guarded false now slot le g = g

    -- The slot after the events, at the time of the last of them.
    happen_all-Guarded :
        committed_at ≤ invalidated_at
        → (es : List (Event V)) (last : ℕ) (slot : Slot V) → invalidated_at ≤ last
        → Timely last es
        → Guarded last slot
        → (now : ℕ) × Guarded now (happen_all es slot)
    happen_all-Guarded c [] last slot le t g = (last, g)
    happen_all-Guarded c (written_back reaches read_at now v ∷ es) last slot le
          (later, soon, fresh, t) g =
        happen_all-Guarded c es now (set reaches now v job_ttl slot) (omega (arith, le, later)) t (
          set-Guarded reaches read_at now v slot c soon fresh (Guarded-later slot last now later g))
    happen_all-Guarded c (invalidated reaches now ∷ es) last slot le (later, t) g =
        happen_all-Guarded c es now (invalidate reaches now no_cache_ttl slot)
          (omega (arith, le, later)) t
          (invalidate-Guarded reaches now slot (omega (arith, le, later))
            (Guarded-later slot last now later g))
    happen_all-Guarded c (deleted reaches now ∷ es) last slot le (later, over_, t) g =
        happen_all-Guarded c es now (delete reaches slot) (omega (arith, le, later)) t
          (delete-Guarded reaches now slot over_ (Guarded-later slot last now later g))

    Guarded-read :
        (slot : Slot V) (last now : ℕ) (v : V)
        → Guarded last slot
        → read_back (live now slot) ≡ some v
        → is_fresh v ≡ true
    Guarded-read none last now v g h = cc
    Guarded-read (some (row w, e)) last now v g h = elim (Bool-cases (ltb now e)) [
      | inl t ↦ subst (λ x. is_fresh x ≡ true) (some_eq w v (rw t at h)) g.0
      | inr t ↦ let bad : none ≡ some v = rw t at h in cc
    ]
    Guarded-read (some (tombstone, e)) last now v g h = elim (Bool-cases (ltb now e)) [
      | inl t ↦ let bad : none ≡ some v = rw t at h in cc
      | inr t ↦ let bad : none ≡ some v = rw t at h in cc
    ]
    Guarded-read (some (unreadable, e)) last now v g h = absurd g

-- Once an invalidation that follows the commit has reached Redis, no reader finds a row from before
-- the commit in the slot, whatever was cached before and whatever readers write back and later
-- mutations invalidate or delete since, in the order of time: provided that a reader writes back
-- within thirty seconds of its read, and reads the committed row where it reads after the commit, and
-- that nothing deletes the slot within the thirty seconds after the invalidation.
pub invalidated_never_stale :
    {V : Type 0} (is_fresh : V → Bool) (committed_at invalidated_at now : ℕ) (es : List (Event V))
    (before : Slot V) (reaches : Bool) (v : V)
    → committed_at ≤ invalidated_at
    → Timely is_fresh committed_at invalidated_at invalidated_at es
    → get reaches now (happen_all es (invalidate true invalidated_at no_cache_ttl before)) ≡ some v
    → is_fresh v ≡ true
unfolding get invalidate
invalidated_never_stale is_fresh committed_at invalidated_at now es before false v c t h = cc
invalidated_never_stale is_fresh committed_at invalidated_at now es before true v c t h =
    let slot = happen_all es (invalidate true invalidated_at no_cache_ttl before) in
    let (last, guarded) =
      happen_all-Guarded is_fresh committed_at invalidated_at c es invalidated_at
        (invalidate true invalidated_at no_cache_ttl before) (omega arith) t (omega arith) in
    Guarded-read is_fresh committed_at invalidated_at slot last now v guarded h
