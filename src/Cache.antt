-- ===== src/Cache.antt =====
-- utils/cache.py: one job's slot of the cache. Redis holds a value until its expiry, after which the
-- slot is free. `V` is the type of the rows that a reader caches; `reaches` says whether Redis takes
-- a command, where the code ignores the error.
pub mod Fresh
pub mod Hooks
use incident_platform.Prelude.{
  ℕ, ◌+◌, Bool, true, false, Option, none, some, List, [], ◌∷◌, if◌then◌else◌, ltb,
}

-- What a slot holds: a row, the tombstone, or a text that is no JSON object.
pub data Cached (V : Type 0) : Type 0 where
  row : (data_ : V) → Cached V
  tombstone : Cached V
  unreadable : Cached V

abbrev pub Slot : Type 0 → Type 0
Slot V = Option (Cached V × ℕ)

abbrev pub job_ttl : ℕ
job_ttl = 10

abbrev pub no_cache_ttl : ℕ
no_cache_ttl = 30

module _ {V : Type 0} where
  -- What Redis finds in a slot.
  abbrev pub live : ℕ → Slot V → Option (Cached V)
  live now none = none
  live now (some (c, expires_at)) = if ltb now expires_at then some c else none

  -- `get`, past the read.
  abbrev pub read_back : Option (Cached V) → Option V
  read_back none = none
  read_back (some tombstone) = none
  read_back (some unreadable) = none
  read_back (some (row v)) = some v

  unfoldable pub get : Bool → ℕ → Slot V → Option V
  get reaches now slot = if reaches then read_back (live now slot) else none

  -- A `SET … NX`: it writes a free slot only.
  abbrev pub set_nx : Cached V → ℕ → Option (Cached V) → Slot V → Slot V
  set_nx c expires_at none slot = some (c, expires_at)
  set_nx c expires_at (some held) slot = slot

  unfoldable pub set : Bool → ℕ → V → ℕ → Slot V → Slot V
  set reaches now v ttl slot =
      if reaches then set_nx (row v) (now + ttl) (live now slot) slot else slot

  unfoldable pub delete : Bool → Slot V → Slot V
  delete reaches slot = if reaches then none else slot

  unfoldable pub invalidate : Bool → ℕ → ℕ → Slot V → Slot V
  invalidate reaches now ttl slot = if reaches then some (tombstone, now + ttl) else slot
