-- ===== src/AgentRuns/Ledger.antt =====
-- What every row of the table keeps: its timeline, its two bounded ledgers and its end.
use incident_platform.Prelude.{
  drop, length-drop, ℕ, suc, zero, ◌-◌, ◌≤◌, ◌≡◌, refl, sym, ap, ◌∙◌, Bool, false, ◌||◌, Option,
  none, some, List, [], ◌∷◌, ◌++◌, String, str_eq, ◌==◌, ltb, length, arith, Bool-cases,
  Option-cases, inl, inr,
}
use incident_platform.AgentRuns.{Phase, Step, capped, same_seq, has_seq}

-- The states of a timeline, of which the last is `state` and none follows itself.
abbrev pub IsTimeline : String → List Phase → Type 0
IsTimeline state [] = ⊥
IsTimeline state (p ∷ []) = p.state ≡ state
IsTimeline state (p ∷ q ∷ ps) = (str_eq p.state q.state ≡ false) × IsTimeline state (q ∷ ps)

pub IsTimeline-append :
    (state next : String) (at : ℕ) (ps : List Phase)
    → IsTimeline state ps
    → str_eq state next ≡ false
    → IsTimeline next (ps ++ record { state = next; at = at } ∷ [])
IsTimeline-append state next at [] h n = absurd h
IsTimeline-append state next at (p ∷ []) h n = (ap (λ s. str_eq s next) h ∙ n, refl)
IsTimeline-append state next at (p ∷ q ∷ ps) (d, h) n =
    (d, IsTimeline-append state next at (q ∷ ps) h n)

pub length-capped {ℓ} : {A : Type ℓ} (xs : List A) (cap : ℕ) → length (capped xs cap) ≤ cap
unfolding capped
length-capped xs cap = ground (arith, length-drop (length xs - cap) xs)

neither : {a b : Bool} → a ≡ false → b ≡ false → (a || b) ≡ false
neither h k = cc

flipped : (m n : ℕ) → ((n == m) || false) ≡ false → ((m == n) || false) ≡ false
flipped m n h = ground arith

module _ {J : Type 0} where
  -- No two steps have one `seq`.
  abbrev pub DistinctSeqs : List (Step J) → Type 0
  DistinctSeqs [] = Unit
  DistinctSeqs (s ∷ ss) = (has_seq s.seq ss ≡ false) × DistinctSeqs ss

  drop-DistinctSeqs : (n : ℕ) (ss : List (Step J)) → DistinctSeqs ss → DistinctSeqs (drop n ss)
  drop-DistinctSeqs zero ss d = d
  drop-DistinctSeqs (suc n) [] d = tt
  drop-DistinctSeqs (suc n) (s ∷ ss) d = drop-DistinctSeqs n ss d.1

  pub capped-DistinctSeqs :
      (ss : List (Step J)) (cap : ℕ) → DistinctSeqs ss → DistinctSeqs (capped ss cap)
  unfolding capped
  capped-DistinctSeqs ss cap d = elim (Bool-cases (ltb cap (length ss))) [
    | inl e ↦ rw e (drop-DistinctSeqs (length ss - cap) ss d)
    | inr e ↦ rw e d
  ]

  has_seq-last :
      (a : Option ℕ) (ss : List (Step J)) (s : Step J)
      → has_seq a (ss ++ s ∷ []) ≡ (has_seq a ss || has_seq a (s ∷ []))
  has_seq-last none ss s = refl
  has_seq-last (some n) [] s = refl
  has_seq-last (some n) (x ∷ ss) s = ground (arith, has_seq-last (some n) ss s)

  fresh-rest :
      (a : Option ℕ) (x : Step J) (ss : List (Step J))
      → has_seq a (x ∷ ss) ≡ false
      → has_seq a ss ≡ false
  fresh-rest none x ss h = refl
  fresh-rest (some n) x ss h = ground (arith, h)

  fresh-first :
      (a : Option ℕ) (x : Step J) (ss : List (Step J))
      → has_seq a (x ∷ ss) ≡ false
      → has_seq a (x ∷ []) ≡ false
  fresh-first none x ss h = refl
  fresh-first (some n) x ss h = ground (arith, h)

  fresh-sym : (s x : Step J) → has_seq s.seq (x ∷ []) ≡ false → has_seq x.seq (s ∷ []) ≡ false
  fresh-sym s x h = elim (Option-cases x.seq) [
    | inl e ↦ ap (λ q. has_seq q (s ∷ [])) e
    | inr (n, e) ↦ ap (λ q. has_seq q (s ∷ [])) e ∙ elim (Option-cases s.seq) [
      | inl e' ↦ ap (λ q. same_seq n q || false) e'
      | inr (m, e') ↦
          ap (λ q. same_seq n q || false) e'
          ∙ flipped m n
              (sym (ap (λ q. has_seq q (x ∷ [])) e' ∙ ap (λ q. same_seq m q || false) e) ∙ h)
    ]
  ]

  pub append-DistinctSeqs :
      (ss : List (Step J)) (s : Step J)
      → DistinctSeqs ss
      → has_seq s.seq ss ≡ false
      → DistinctSeqs (ss ++ s ∷ [])
  append-DistinctSeqs [] s d h = (h, tt)
  append-DistinctSeqs (x ∷ ss) s (n, d) h = (
    has_seq-last x.seq ss s ∙ neither n (fresh-sym s x (fresh-first s.seq x ss h)),
    append-DistinctSeqs ss s d (fresh-rest s.seq x ss h),
  )
