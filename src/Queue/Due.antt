-- ===== src/Queue/Due.antt =====
-- `push_delayed` and `pop_ready_delayed` of workers/queue.py: the set keeps its order, and a pop
-- takes what is due, no more.
use incident_platform.Prelude.{
  ◌⊎◌, ℕ, zero, suc, ◌≡◌, ◌≤◌, ◌<◌, refl, ap, true, false, ◌&&◌, ◌||◌, List, [], ◌∷◌, ◌++◌, inl,
  inr, arith, ◌==◌, ltb, leb, Bool-cases, length, All,
}
use incident_platform.Queue.{
  Delayed, remove, place, push_delayed, pop_limit, take_due, pop_ready_delayed,
}

-- The order of the sorted set.
unfoldable pub Sorted : List Delayed → Type 0
Sorted [] = Unit
Sorted (d ∷ ds) = All (λ (e : Delayed). d.score ≤ e.score) ds × Sorted ds

abbrev pub IsDue : ℕ → Delayed → Type 0
IsDue now d = d.score ≤ now

later_All :
    (now : ℕ) (d : Delayed) (ds : List Delayed)
    → now < d.score
    → All (λ (e : Delayed). d.score ≤ e.score) ds
    → All (λ (e : Delayed). now < e.score) ds
later_All now d [] l h = tt
later_All now d (e ∷ es) l h = (omega (arith, l, h.0), later_All now d es l h.1)

not_due : (now : ℕ) (d : Delayed) → leb d.score now ≡ false → now < d.score
not_due now d h = ground arith

due : (now : ℕ) (d : Delayed) → leb d.score now ≡ true → IsDue now d
due now d h = ground arith

-- What the script takes and leaves, for any limit.
take_due_lem :
    (limit now : ℕ) (set : List Delayed)
    → Sorted set
    → let (taken, left) = take_due limit now set in
      (taken ++ left ≡ set)
      × All (IsDue now) taken
      × (length taken ≤ limit)
      × ((length taken ≡ limit) ⊎ All (λ (e : Delayed). now < e.score) left)
      × Sorted left
unfolding take_due Sorted
take_due_lem zero now set h = (refl, tt, omega arith, inl refl, h)
take_due_lem (suc n) now [] h = (refl, tt, omega arith, inr tt, tt)
take_due_lem (suc n) now (d ∷ ds) h =
    let (whole, ready, few, rest, order) = take_due_lem n now ds h.1 in
    elim (Bool-cases (leb d.score now)) [
      | inl e ↦ rw e (
        ap (λ l. d ∷ l) whole,
        (due now d e, ready),
        omega (arith, few),
        elim rest [ inl full ↦ inl (ap suc full) | inr done ↦ inr done ],
        order,
      )
      | inr e ↦ rw e (
        refl,
        tt,
        omega arith,
        inr (not_due now d e, later_All now d ds (not_due now d e) h.0),
        h,
      )
    ]

-- One pop of an ordered set of delayed jobs splits it in two: what it returns, in order, is due and
-- at most a thousand members; what is left keeps its order; and the pop returned the full thousand or
-- left nothing that is due.
pub pop_ready_delayed_exact :
    (now : ℕ) (set : List Delayed)
    → Sorted set
    → let (taken, left) = pop_ready_delayed now set in
      (taken ++ left ≡ set)
      × All (IsDue now) taken
      × (length taken ≤ pop_limit)
      × ((length taken ≡ pop_limit) ⊎ All (λ (e : Delayed). now < e.score) left)
      × Sorted left
unfolding pop_ready_delayed
pop_ready_delayed_exact now set h = take_due_lem pop_limit now set h

remove-All : (P : Delayed → Type 0) (id : ℕ) (ds : List Delayed) → All P ds → All P (remove id ds)
unfolding remove
remove-All P id [] h = tt
remove-All P id (d ∷ ds) h = elim (Bool-cases (d.member == id)) [
  | inl e ↦ rw e (remove-All P id ds h.1)
  | inr e ↦ rw e (h.0, remove-All P id ds h.1)
]

remove-Sorted : (id : ℕ) (ds : List Delayed) → Sorted ds → Sorted (remove id ds)
unfolding remove Sorted
remove-Sorted id [] h = tt
remove-Sorted id (d ∷ ds) h = elim (Bool-cases (d.member == id)) [
  | inl e ↦ rw e (remove-Sorted id ds h.1)
  | inr e ↦
      rw e (remove-All (λ (x : Delayed). d.score ≤ x.score) id ds h.0, remove-Sorted id ds h.1)
]

place-All :
    (P : Delayed → Type 0) (new : Delayed) (ds : List Delayed)
    → P new
    → All P ds
    → All P (place new ds)
unfolding place
place-All P new [] p h = (p, tt)
place-All P new (d ∷ ds) p h =
    elim (Bool-cases (ltb new.score d.score || (new.score == d.score && leb new.member d.member))) [
      | inl e ↦ rw e (p, h)
      | inr e ↦ rw e (h.0, place-All P new ds p h.1)
    ]

raise_All :
    (a b : ℕ) (ds : List Delayed)
    → a ≤ b
    → All (λ (e : Delayed). b ≤ e.score) ds
    → All (λ (e : Delayed). a ≤ e.score) ds
raise_All a b [] l h = tt
raise_All a b (e ∷ es) l h = (omega (arith, l, h.0), raise_All a b es l h.1)

before_le :
    (new d : Delayed)
    → (ltb new.score d.score || (new.score == d.score && leb new.member d.member)) ≡ true
    → new.score ≤ d.score
before_le new d h = ground arith

after_le :
    (new d : Delayed)
    → (ltb new.score d.score || (new.score == d.score && leb new.member d.member)) ≡ false
    → d.score ≤ new.score
after_le new d h = ground arith

place-Sorted : (new : Delayed) (ds : List Delayed) → Sorted ds → Sorted (place new ds)
unfolding place Sorted
place-Sorted new [] h = (tt, tt)
place-Sorted new (d ∷ ds) h =
    elim (Bool-cases (ltb new.score d.score || (new.score == d.score && leb new.member d.member))) [
      | inl e ↦
          rw e ((before_le new d e, raise_All new.score d.score ds (before_le new d e) h.0), h)
      | inr e ↦ rw e (
        place-All (λ (x : Delayed). d.score ≤ x.score) new ds (after_le new d e) h.0,
        place-Sorted new ds h.1,
      )
    ]

-- A push onto an ordered set of delayed jobs leaves it ordered.
pub push_delayed-Sorted :
    (now id delay : ℕ) (set : List Delayed) → Sorted set → Sorted (push_delayed now id delay set)
unfolding push_delayed
push_delayed-Sorted now id delay set h = place-Sorted _ (remove id set) (remove-Sorted id set h)
