-- ===== src/Admission/Windows.antt =====
-- How many requests a fixed window lets through.
use incident_platform.Prelude.{
  ℕ, suc, ◌+◌, ◌-◌, ◌*◌, ◌/◌, ◌≡◌, ◌≤◌, refl, ap, ap₂, ◌∙◌, true, false, List, [], ◌∷◌, ◌++◌,
  String, str_eq_iff, arith, ◌==◌, ltb, if◌then◌else◌, min, length, All, Bool-cases, inl, inr,
  ==_refl,
}
use incident_platform.Admission.{Counter, is_counter, incr, Verdict, admitted, judged, check}

-- The requests with one key, at these readings of the clock: how many are admitted, and the counters.
abbrev one_if : Verdict → ℕ
one_if admitted = 1
one_if _ = 0

unfoldable pub let_through : String → ℕ → ℕ → List ℕ → List Counter → ℕ × List Counter
let_through key limit window [] cs = (0, cs)
let_through key limit window (now ∷ times) cs =
    let (verdict, cs') = check now key limit window cs in
    let (n, cs'') = let_through key limit window times cs' in (one_if verdict + n, cs'')

-- The count that a counter stands at: 0 where there is none.
unfoldable pub standing : String → ℕ → List Counter → ℕ
standing key w [] = 0
standing key w (c ∷ cs) =
    let rest = standing key w cs in if is_counter key w c then c.count else rest

incr-count : (key : String) (w : ℕ) (cs : List Counter) → (incr key w cs).0 ≡ standing key w cs + 1
unfolding incr standing
incr-count key w [] = refl
incr-count key w (c ∷ cs) = ground (arith, incr-count key w cs)

is_counter_own :
    (key : String) (w n : ℕ)
    → is_counter key w (record { key = key; window_start = w; count = n }) ≡ true
is_counter_own key w n = rw ((str_eq_iff key key).1 refl, ==_refl w) refl

incr-standing :
    (key : String) (w : ℕ) (cs : List Counter)
    → standing key w (incr key w cs).1 ≡ standing key w cs + 1
unfolding incr standing
incr-standing key w [] = rw (is_counter_own key w 1) refl
incr-standing key w (c ∷ cs) = elim (Bool-cases (is_counter key w c)) [
  | inl e ↦ rw e (rw e refl)
  | inr e ↦ rw e (rw e (incr-standing key w cs))
]

incr-other :
    (key : String) (w v : ℕ) (cs : List Counter)
    → (v == w) ≡ false
    → standing key v (incr key w cs).1 ≡ standing key v cs
unfolding incr standing
incr-other key w v [] d = ground (arith, d)
incr-other key w v (c ∷ cs) d = ground (arith, d, incr-other key w v cs d)

check-count :
    (now : ℕ) (key : String) (limit window : ℕ) (cs : List Counter)
    → one_if (check now key limit window cs).0
      ≡ (if ltb limit (standing key (now / window) cs + 1) then 0 else 1)
unfolding check judged
check-count now key limit window cs = rw (incr-count key (now / window) cs) (ground arith)

check-counters :
    (now : ℕ) (key : String) (limit window : ℕ) (cs : List Counter)
    → (check now key limit window cs).1 ≡ (incr key (now / window) cs).1
unfolding check judged
check-counters now key limit window cs = refl

one_more :
    (n limit s : ℕ)
    → (if ltb limit (s + 1) then 0 else 1) + min n (limit - (s + 1)) ≡ min (suc n) (limit - s)
one_more n limit s = ground arith

module _ (key : String) (limit window w : ℕ) where
  -- The requests of one window.
  let_through-window :
      (times : List ℕ) (cs : List Counter)
      → All (λ t. t / window ≡ w) times
      → (let_through key limit window times cs).0 ≡ min (length times) (limit - standing key w cs)
  unfolding let_through check incr standing
  let_through-window [] cs h = ground arith
  let_through-window (t ∷ times) cs h =
      let after = (check t key limit window cs).1 in
      let moved : standing key w after ≡ standing key w cs + 1 =
        ap (λ v. standing key w (incr key v cs).1) h.0 ∙ incr-standing key w cs in
      let own : one_if (check t key limit window cs).0
          ≡ (if ltb limit (standing key w cs + 1) then 0 else 1) =
        check-count t key limit window cs
        ∙ ap (λ v. if ltb limit (standing key v cs + 1) then 0 else 1) h.0 in
      let rest =
        let_through-window times after h.1 ∙ ap (λ n. min (length times) (limit - n)) moved in
      ap₂ (λ a b. a + b) own rest ∙ one_more (length times) limit (standing key w cs)

  -- They leave the counters of another window.
  let_through-other :
      (v : ℕ) (times : List ℕ) (cs : List Counter)
      → (v == w) ≡ false
      → All (λ t. t / window ≡ w) times
      → standing key v (let_through key limit window times cs).1 ≡ standing key v cs
  unfolding let_through check incr standing
  let_through-other v [] cs d h = refl
  let_through-other v (t ∷ times) cs d h =
      let_through-other v times (check t key limit window cs).1 d h.1
      ∙ ap (λ u. standing key v (incr key u cs).1) h.0
      ∙ incr-other key w v cs d

next_window : (w : ℕ) → (w + 1 == w) ≡ false
next_window w = ground arith

let_through-append :
    (key : String) (limit window : ℕ) (times times' : List ℕ) (cs : List Counter)
    → (let_through key limit window (times ++ times') cs).0
      ≡ (let_through key limit window times cs).0
        + (let_through key limit window times' (let_through key limit window times cs).1).0
unfolding let_through
let_through-append key limit window [] times' cs = omega arith
let_through-append key limit window (t ∷ times) times' cs =
    omega (arith, let_through-append key limit window times times' (check t key limit window cs).1)

-- With no request counted yet, of the requests with one key in two windows one after the other, each
-- window lets through as many as there are, up to the limit: twice the limit at most, however close
-- to the boundary they come, and no request within the limit is refused.
pub two_windows_exact :
    (key : String) (limit window w : ℕ) (times times' : List ℕ) (cs : List Counter)
    → All (λ t. t / window ≡ w) times
    → All (λ t. t / window ≡ w + 1) times'
    → standing key w cs ≡ 0
    → standing key (w + 1) cs ≡ 0
    → ((let_through key limit window (times ++ times') cs).0
        ≡ min (length times) limit + min (length times') limit)
      × ((let_through key limit window (times ++ times') cs).0 ≤ 2 * limit)
two_windows_exact key limit window w times times' cs h h' none none' =
    let cs' = (let_through key limit window times cs).1 in
    let first =
      let_through-window key limit window w times cs h
      ∙ ap (λ n. min (length times) (limit - n)) none in
    let fresh = let_through-other key limit window w (w + 1) times cs (next_window w) h ∙ none' in
    let second =
      let_through-window key limit window (w + 1) times' cs' h'
      ∙ ap (λ n. min (length times') (limit - n)) fresh in
    let whole = let_through-append key limit window times times' cs in
    (omega (arith, whole, first, second), omega (arith, whole, first, second))
