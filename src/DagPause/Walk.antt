-- ===== src/DagPause/Walk.antt =====
-- The walk ends within its fuel, lists at most `max_ancestor_nodes` jobs, and none twice.
use incident_platform.Prelude.{
  ℕ, zero, suc, ◌+◌, ◌≤◌, ◌<◌, ◌≡◌, refl, ◌||◌, false, ◌==◌, true, false, ◌||◌, some, List, [], ◌∷◌,
  ◌++◌, inl, inr, arith, ltb, ◌==◌, if◌then◌else◌, length, member, Bool-cases, length-append,
  ltb→lt, subst, ◌≤◌, true, member-append, ==_iff,
}
use incident_platform.Store.{Edge}
use incident_platform.DagPause.{parents, walk, max_ancestor_nodes}

-- The edges whose job the walk has not listed yet.
abbrev pub unlisted : List Edge → List ℕ → ℕ
unlisted [] order = 0
unlisted (e ∷ es) order =
    let rest = unlisted es order in if member e.job_id order then rest else suc rest

-- Listing a new job moves its edges out of `unlisted` and into the frontier.
unlisted_step :
    (edges : List Edge) (order : List ℕ) (node : ℕ)
    → member node order ≡ false
    → unlisted edges (order ++ node ∷ []) + length (parents edges node) ≡ unlisted edges order
unlisted_step [] order node h = refl
unlisted_step (e ∷ es) order node h = ground (
  arith,
  unlisted_step es order node,
  member-append e.job_id order (node ∷ []),
  ==_iff e.job_id node,
)

pub walk_total :
    (fuel : ℕ) (edges : List Edge) (frontier order : List ℕ)
    → length frontier + unlisted edges order < fuel
    → (r : List ℕ) × (walk fuel edges frontier order ≡ some r)
unfolding walk
walk_total zero edges frontier order h = absurd (omega arith)
walk_total (suc fuel) edges [] order h = (order, refl)
walk_total (suc fuel) edges (node ∷ frontier) order h =
    elim (Bool-cases (ltb (length order) max_ancestor_nodes)) [
      | inr full ↦ (order, rw full)
      | inl room ↦ elim (Bool-cases (member node order)) [
        | inl old ↦ rw (room, old) (walk_total fuel edges frontier order (omega arith))
        | inr new ↦
            rw (room, new)
              (walk_total fuel edges (frontier ++ parents edges node) (order ++ node ∷ []) (
                omega (
                  arith,
                  unlisted_step edges order node new,
                  length-append frontier (parents edges node),
                )))
      ]
    ]

pub length-walk-le :
    (fuel : ℕ) (edges : List Edge) (frontier order r : List ℕ)
    → length order ≤ max_ancestor_nodes
    → walk fuel edges frontier order ≡ some r
    → length r ≤ max_ancestor_nodes
unfolding walk
length-walk-le zero edges frontier order r b h = cc
length-walk-le (suc fuel) edges [] order r b h = ground arith
length-walk-le (suc fuel) edges (node ∷ frontier) order r b h =
    elim (Bool-cases (ltb (length order) max_ancestor_nodes)) [
      | inr full ↦ ground arith
      | inl room ↦ elim (Bool-cases (member node order)) [
        | inl old ↦ length-walk-le fuel edges frontier order r b (rw (room, old) at h)
        | inr new ↦
            length-walk-le fuel edges (frontier ++ parents edges node) (order ++ node ∷ []) r
              (omega (arith, ltb→lt (length order) 64 room, length-append order (node ∷ [])))
              (rw (room, new) at h)
      ]
    ]

-- `a` is `n`, or a job that `n` depends on through any number of edges.
pub data Ancestor (edges : List Edge) (n : ℕ) : ℕ → Type 0 where
  self : Ancestor edges n n
  up : {m p : ℕ} → Ancestor edges n m → member p (parents edges m) ≡ true → Ancestor edges n p

-- Every listed number satisfies `P`.
abbrev pub Listed : (ℕ → Type 0) → List ℕ → Type 0
Listed P ns = (a : ℕ) → member a ns ≡ true → P a

Listed-snoc :
    {P : ℕ → Type 0} (ns : List ℕ) (node : ℕ) → Listed P ns → P node → Listed P (ns ++ node ∷ [])
Listed-snoc {P} ns node h hn a m = elim (Bool-cases (member a ns)) [
  | inl old ↦ h a old
  | inr new ↦ subst P (ground (arith, member-append a ns (node ∷ []))) hn
]

Listed-append : {P : ℕ → Type 0} (xs ys : List ℕ) → Listed P xs → Listed P ys → Listed P (xs ++ ys)
Listed-append xs ys hx hy a m = elim (Bool-cases (member a xs)) [
  | inl l ↦ hx a l
  | inr n ↦ hy a (ground (arith, member-append a xs ys))
]

Listed-tail : {P : ℕ → Type 0} (x : ℕ) (xs : List ℕ) → Listed P (x ∷ xs) → Listed P xs
Listed-tail x xs h a m = h a (ground arith)

Listed-head : {P : ℕ → Type 0} (x : ℕ) (xs : List ℕ) → Listed P (x ∷ xs) → P x
Listed-head x xs h = h x (ground arith)

module _ (edges : List Edge) (job : ℕ) where
  -- Only ancestors of the job are listed.
  pub walk-Ancestor :
      (fuel : ℕ) (frontier order r : List ℕ)
      → Listed (Ancestor edges job) frontier
      → Listed (Ancestor edges job) order
      → walk fuel edges frontier order ≡ some r
      → Listed (Ancestor edges job) r
  unfolding walk
  walk-Ancestor zero frontier order r hf ho h = cc
  walk-Ancestor (suc fuel) [] order r hf ho h =
      subst (Listed (Ancestor edges job)) (ground arith) ho
  walk-Ancestor (suc fuel) (node ∷ frontier) order r hf ho h =
      elim (Bool-cases (ltb (length order) max_ancestor_nodes)) [
        | inr full ↦ subst (Listed (Ancestor edges job)) (ground arith) ho
        | inl room ↦ elim (Bool-cases (member node order)) [
          | inl old ↦
              walk-Ancestor fuel frontier order r (Listed-tail node frontier hf) ho
                (rw (room, old) at h)
          | inr new ↦
              walk-Ancestor fuel (frontier ++ parents edges node) (order ++ node ∷ []) r
                (Listed-append frontier (parents edges node) (Listed-tail node frontier hf)
                  (λ p m. up (Listed-head node frontier hf) m))
                (Listed-snoc order node ho (Listed-head node frontier hf)) (rw (room, new) at h)
        ]
      ]

  -- The parents of every listed job are listed, or wait in the frontier.
  abbrev Pushed : List ℕ → List ℕ → Type 0
  Pushed frontier order =
      (n p : ℕ)
      → member n order ≡ true
      → member p (parents edges n) ≡ true
      → member p (order ++ frontier) ≡ true

  Pushed-old :
      (node : ℕ) (frontier order : List ℕ)
      → member node order ≡ true
      → Pushed (node ∷ frontier) order
      → Pushed frontier order
  Pushed-old node frontier order old h n p mn mp = ground (
    arith,
    h n p mn mp,
    member-append p order (node ∷ frontier),
    member-append p order frontier,
    ==_iff p node,
  )

  Pushed-new :
      (node : ℕ) (frontier order : List ℕ)
      → Pushed (node ∷ frontier) order
      → Pushed (frontier ++ parents edges node) (order ++ node ∷ [])
  Pushed-new node frontier order h n p mn mp = elim (Bool-cases (member n order)) [
    | inl old ↦
        ground (arith, h n p old mp, split, member-append p order (node ∷ frontier), ==_iff p node)
    | inr new ↦
        let here : n ≡ node = ground (arith, member-append n order (node ∷ []), ==_iff n node) in
        let at_node : member p (parents edges node) ≡ true =
          subst (λ k. member p (parents edges k) ≡ true) here mp in
        ground (arith, at_node, split)
  ]
    where
      split : member p ((order ++ node ∷ []) ++ (frontier ++ parents edges node)) ≡ (
          (member p order || (p == node || false))
          || (member p frontier || member p (parents edges node)))
      split =
          rw (member-append p (order ++ node ∷ []) (frontier ++ parents edges node))
            (rw (member-append p order (node ∷ []), member-append p frontier (parents edges node)))

  pub walk_closed :
      (fuel : ℕ) (frontier order r : List ℕ)
      → Pushed frontier order
      → walk fuel edges frontier order ≡ some r
      → length r < max_ancestor_nodes
      → Pushed [] r
  unfolding walk
  walk_closed zero frontier order r hp h b = cc
  walk_closed (suc fuel) [] order r hp h b = subst (Pushed []) (ground arith) hp
  walk_closed (suc fuel) (node ∷ frontier) order r hp h b =
      elim (Bool-cases (ltb (length order) max_ancestor_nodes)) [
        | inr full ↦ absurd (ground arith)
        | inl room ↦ elim (Bool-cases (member node order)) [
          | inl old ↦
              walk_closed fuel frontier order r (Pushed-old node frontier order old hp)
                (rw (room, old) at h) b
          | inr new ↦
              walk_closed fuel (frontier ++ parents edges node) (order ++ node ∷ []) r
                (Pushed-new node frontier order hp) (rw (room, new) at h) b
        ]
      ]

-- What is listed stays listed.
pub walk_keeps :
    (fuel : ℕ) (edges : List Edge) (frontier order r : List ℕ) (a : ℕ)
    → member a order ≡ true
    → walk fuel edges frontier order ≡ some r
    → member a r ≡ true
unfolding walk
walk_keeps zero edges frontier order r a m h = cc
walk_keeps (suc fuel) edges [] order r a m h = ground arith
walk_keeps (suc fuel) edges (node ∷ frontier) order r a m h =
    elim (Bool-cases (ltb (length order) max_ancestor_nodes)) [
      | inr full ↦ ground arith
      | inl room ↦ elim (Bool-cases (member node order)) [
        | inl old ↦ walk_keeps fuel edges frontier order r a m (rw (room, old) at h)
        | inr new ↦
            walk_keeps fuel edges (frontier ++ parents edges node) (order ++ node ∷ []) r a
              (ground (arith, member-append a order (node ∷ []))) (rw (room, new) at h)
      ]
    ]
