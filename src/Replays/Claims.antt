-- ===== src/Replays/Claims.antt =====
-- What the claim script keeps: no armed replay is lost between the two sets, and a claim that is not
-- acknowledged lapses.
use incident_platform.Prelude.{
  ℕ, zero, suc, ◌-◌, ◌≡◌, ◌≤◌, refl, sym, ap, ap₂, ◌∙◌, Bool, true, false, not, ◌&&◌, ◌||◌, List,
  [], ◌∷◌, ◌++◌, String, str_eq, str_eq_iff, arith, leb, select, take, any, length, length-append,
  length-take, map, Bool-cases, inl, inr,
}
use incident_platform.Replays.{
  Armed, Sets, is_member, listed_text, claim_budget, zrem, insert, zadd, zadd_all, range_by_score,
  claim_script,
}

-- A member of a set, with a score that passes a test.
abbrev pub scored_in : (ℕ → Bool) → String → List Armed → Bool
scored_in q m set = any (λ (a : Armed). is_member m a && q a.score) set

abbrev pub any_score : ℕ → Bool
any_score n = true

abbrev pub armed_in : String → List Armed → Bool
armed_in m set = scored_in any_score m set

-- An equal text is the same text.
same_text : (s t : String) (f : String → Bool) → str_eq s t ≡ true → f s ≡ f t
same_text s t f h = ap f ((str_eq_iff s t).0 h)

either : (q a b : Bool) → q ≡ true → ((a && q) || (b && not (a || false))) ≡ (a || b)
either q a b h = ground arith

module _ (q : ℕ → Bool) (m : String) where
  pub scored_in-zrem :
      (ms : List String) (set : List Armed)
      → scored_in q m (zrem ms set) ≡ (scored_in q m set && not (listed_text m ms))
  unfolding zrem
  scored_in-zrem ms [] = refl
  scored_in-zrem ms (a ∷ set) = elim (Bool-cases (str_eq m a.member)) [
    | inl e ↦
        ground (arith, e, same_text m a.member (λ t. listed_text t ms) e, scored_in-zrem ms set)
    | inr e ↦ ground (arith, e, scored_in-zrem ms set)
  ]

  scored_in-insert :
      (new : Armed) (set : List Armed)
      → scored_in q m (insert new set) ≡ ((is_member m new && q new.score) || scored_in q m set)
  unfolding insert
  scored_in-insert new [] = refl
  scored_in-insert new (a ∷ set) = ground (arith, scored_in-insert new set)

  pub scored_in-zadd :
      (k : String) (score : ℕ) (set : List Armed)
      → q score ≡ true
      → scored_in q m (zadd score k set) ≡ (str_eq m k || scored_in q m set)
  unfolding zadd
  scored_in-zadd k score set h =
      scored_in-insert _ (zrem (k ∷ []) set)
      ∙ ap (λ b. (str_eq m k && q score) || b) (scored_in-zrem (k ∷ []) set)
      ∙ either (q score) (str_eq m k) (scored_in q m set) h

  pub scored_in-zadd_all :
      (score : ℕ) (ks : List String) (set : List Armed)
      → q score ≡ true
      → scored_in q m (zadd_all score ks set) ≡ (listed_text m ks || scored_in q m set)
  unfolding zadd_all
  scored_in-zadd_all score [] set h = refl
  scored_in-zadd_all score (k ∷ ks) set h =
      ground (arith, scored_in-zadd_all score ks (zadd score k set) h, scored_in-zadd k score set h)

-- A member with a score that a moment has reached.
abbrev pub lapsed_in : ℕ → String → List Armed → Bool
lapsed_in now m set = scored_in (λ s. leb s now) m set

listed-take :
    (m : String) (n : ℕ) (ms : List String)
    → listed_text m (take n ms) ≡ true
    → listed_text m ms ≡ true
listed-take m zero ms h = cc
listed-take m (suc n) [] h = cc
listed-take m (suc n) (k ∷ ms) h = ground (arith, h, listed-take m n ms)

pub listed-select :
    (m : String) (now : ℕ) (set : List Armed)
    → listed_text m (map (λ (a : Armed). a.member) (select (λ (a : Armed). leb a.score now) set))
      ≡ lapsed_in now m set
listed-select m now [] = refl
listed-select m now (a ∷ set) = ground (arith, listed-select m now set)

lapsed_in-armed :
    (now : ℕ) (m : String) (set : List Armed) → lapsed_in now m set ≡ true → armed_in m set ≡ true
lapsed_in-armed now m [] h = h
lapsed_in-armed now m (a ∷ set) h = ground (arith, h, lapsed_in-armed now m set)

range-armed :
    (m : String) (now limit : ℕ) (set : List Armed)
    → listed_text m (range_by_score now limit set) ≡ true
    → armed_in m set ≡ true
unfolding range_by_score
range-armed m now limit set h =
    lapsed_in-armed now m set (sym (listed-select m now set) ∙ listed-take m limit _ h)

pub listed-append :
    (m : String) (ks ms : List String)
    → listed_text m (ks ++ ms) ≡ (listed_text m ks || listed_text m ms)
listed-append m [] ms = refl
listed-append m (k ∷ ks) ms = ground (arith, listed-append m ks ms)

kept :
    (lapsed due sched infl : Bool)
    → (lapsed ≡ true → infl ≡ true)
    → (due ≡ true → sched ≡ true)
    → ((sched && not due) || ((lapsed || due) || infl)) ≡ (sched || infl)
kept lapsed due sched infl p q = ground arith

length-range : (now limit : ℕ) (set : List Armed) → length (range_by_score now limit set) ≤ limit
unfolding range_by_score
length-range now limit set = omega (
  arith,
  length-take limit (map (λ (a : Armed). a.member) (select (λ (a : Armed). leb a.score now) set)),
)

-- One claim returns at most a thousand members, and no member, whatever it is, is lost or made up:
-- what is in one of the two sets before it is in one of them after it, and nothing else is.
pub claim_script-keeps :
    (now deadline : ℕ) (sets : Sets) (m : String)
    → let (claimed, sets') = claim_script now deadline sets in
      (length claimed ≤ 1000)
      × ((armed_in m sets'.scheduled || armed_in m sets'.inflight)
          ≡ (armed_in m sets.scheduled || armed_in m sets.inflight))
unfolding claim_script
claim_script-keeps now deadline sets m =
    let lapsed = range_by_score now claim_budget sets.inflight in
    let due = range_by_score now (claim_budget - length lapsed) sets.scheduled in
    (
      omega (
        arith,
        length-append lapsed due,
        length-range now claim_budget sets.inflight,
        length-range now (claim_budget - length lapsed) sets.scheduled,
      ),
      ap₂ (λ a b. a || b) (scored_in-zrem any_score m due sets.scheduled)
            (scored_in-zadd_all any_score m deadline (lapsed ++ due) sets.inflight refl
              ∙ ap (λ b. b || armed_in m sets.inflight) (listed-append m lapsed due))
          ∙ kept (listed_text m lapsed) (listed_text m due) (armed_in m sets.scheduled)
              (armed_in m sets.inflight) (range-armed m now claim_budget sets.inflight)
              (range-armed m now (claim_budget - length lapsed) sets.scheduled),
    )
