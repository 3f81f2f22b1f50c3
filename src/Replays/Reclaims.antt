-- ===== src/Replays/Reclaims.antt =====
-- The crash recovery: a claim whose worker died lapses.
use incident_platform.Prelude.{
  ℕ, zero, suc, ◌+◌, ◌≡◌, ◌≤◌, refl, ap, ◌∙◌, Bool, true, ◌||◌, List, [], ◌∷◌, String, arith, leb,
  select, take, length, count_where, map,
}
use incident_platform.Replays.{
  Armed, Sets, listed_text, claim_budget, claim_ttl_seconds, range_by_score, claim_script,
}
use incident_platform.Replays.Claims.{lapsed_in, scored_in-zadd_all, listed-select, listed-append}

length-due :
    (now : ℕ) (set : List Armed)
    → length (map (λ (a : Armed). a.member) (select (λ (a : Armed). leb a.score now) set))
      ≡ count_where (λ (a : Armed). leb a.score now) set
length-due now [] = refl
length-due now (a ∷ set) = ground (arith, length-due now set)

take_all : (n : ℕ) (ms : List String) → length ms ≤ n → take n ms ≡ ms
take_all zero [] h = refl
take_all zero (m ∷ ms) h = absurd (omega (arith, h))
take_all (suc n) [] h = refl
take_all (suc n) (m ∷ ms) h = ap (λ l. m ∷ l) (take_all n ms (omega (arith, h)))

range_whole :
    (m : String) (now : ℕ) (set : List Armed)
    → count_where (λ (a : Armed). leb a.score now) set ≤ claim_budget
    → listed_text m (range_by_score now claim_budget set) ≡ lapsed_in now m set
unfolding range_by_score
range_whole m now set few =
    ap (listed_text m) (take_all claim_budget _ (rw (length-due now set) few))
    ∙ listed-select m now set

first_of : (a b t : Bool) → t ≡ (a || b) → a ≡ true → t ≡ true
first_of a b t p q = ground arith

-- A replay that a worker claimed and did not acknowledge is claimed again by a claim a minute later
-- or more, if nothing else touched the sets and no more than a thousand claims have lapsed by then.
pub claim_reclaims :
    (now later deadline' : ℕ) (sets : Sets) (m : String)
    → now + 60 ≤ later
    → count_where
        (λ (a : Armed). leb a.score later)
        (claim_script now (now + claim_ttl_seconds) sets).1.inflight
      ≤ 1000
    → listed_text m (claim_script now (now + claim_ttl_seconds) sets).0 ≡ true
    → listed_text m
        (claim_script later deadline' (claim_script now (now + claim_ttl_seconds) sets).1).0
      ≡ true
unfolding claim_script
claim_reclaims now later deadline' sets m after few claimed =
    let sets' = (claim_script now (now + claim_ttl_seconds) sets).1 in
    let taken = (claim_script now (now + claim_ttl_seconds) sets).0 in
    let reached : leb (now + claim_ttl_seconds) later ≡ true = ground (arith, after) in
    let held =
      scored_in-zadd_all (λ s. leb s later) m (now + claim_ttl_seconds) taken sets.inflight
        reached in
    first_of _ _ _ (listed-append m (range_by_score later claim_budget sets'.inflight) _)
      (range_whole m later sets'.inflight few ∙ first_of _ _ _ held claimed)
