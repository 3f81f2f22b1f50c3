-- ===== src/Cache/Hooks.antt =====
-- utils/post_commit.py: the hooks of a session. `H` is the type of the hooks, `W` what they act on; a
-- hook ends with what it left of `W`, and whether it raised.
use incident_platform.Prelude.{
  ◌≡◌, refl, sym, ap, ◌∙◌, Bool, true, false, not, ◌||◌, List, [], ◌∷◌, ◌++◌, if◌then◌else◌,
  append-nil, append_assoc, subst, Bool-cases, inl, inr,
}

-- `session.info`, and whether the session is one of SQLAlchemy's, to which a listener can be
-- attached.
pub record Session (H : Type 0) : Type 0 where
  pub has_info : Bool
  pub is_session : Bool
  pub hooks : List H
  pub guarded : Bool

pub data Operation (H : Type 0) : Type 0 where
  registered : H → Operation H
  savepoint_rolled_back : Operation H

module _ {H : Type 0} where
  unfoldable pub install_rollback_guard : Session H → Session H
  install_rollback_guard s =
      if s.guarded || not s.is_session then s else record s { guarded = true }

  unfoldable pub register_post_commit : H → Session H → Bool × Session H
  unfolding install_rollback_guard
  register_post_commit hook s =
      let s' = install_rollback_guard s in
      if s.has_info then (true, record s' { hooks = s'.hooks ++ hook ∷ [] }) else (false, s)

  -- `after_soft_rollback`, of the transaction or of a savepoint, which `_discard` listens to where the
  -- guard is installed.
  unfoldable pub roll_back : Session H → Session H
  roll_back s = if s.guarded then record s { hooks = [] } else s

  -- What a transaction does before it ends: it registers a hook, or one of its savepoints is rolled
  -- back, which `after_soft_rollback` reports as well.
  abbrev pub perform : List (Operation H) → Session H → Session H
  perform [] s = s
  perform (registered hook ∷ os) s = perform os (register_post_commit hook s).1
  perform (savepoint_rolled_back ∷ os) s = perform os (roll_back s)

  abbrev rolls_back : List (Operation H) → Bool
  rolls_back [] = false
  rolls_back (registered hook ∷ os) = rolls_back os
  rolls_back (savepoint_rolled_back ∷ os) = true

  -- The hooks registered after the last rollback of a savepoint.
  abbrev pub surviving : List (Operation H) → List H
  surviving [] = []
  surviving (registered hook ∷ os) =
      let rest = surviving os in if rolls_back os then rest else hook ∷ rest
  surviving (savepoint_rolled_back ∷ os) = surviving os

  -- The hooks of the transactions that commit.
  abbrev pub committed_hooks : List (List (Operation H) × Bool) → List H
  committed_hooks [] = []
  committed_hooks ((os, commits) ∷ ts) =
      let rest = committed_hooks ts in if commits then surviving os ++ rest else rest

  abbrev pub ready : List H → Bool → Session H
  ready hooks guarded = record {
    has_info = true;
    is_session = true;
    hooks = hooks;
    guarded = guarded;
  }

  perform-guarded :
      (os : List (Operation H)) (queued : List H)
      → perform os (ready queued true)
        ≡ ready (if rolls_back os then surviving os else queued ++ surviving os) true
  unfolding register_post_commit install_rollback_guard roll_back
  perform-guarded [] queued = ap (λ q. ready q true) (sym (append-nil queued))
  perform-guarded (registered h ∷ os) queued =
      perform-guarded os (queued ++ h ∷ []) ∙ elim (Bool-cases (rolls_back os)) [
        | inl e ↦ rw e refl
        | inr f ↦ rw f (ap (λ q. ready q true) (append_assoc queued (h ∷ []) (surviving os)))
      ]
  perform-guarded (savepoint_rolled_back ∷ os) queued =
      perform-guarded os []
      ∙ elim (Bool-cases (rolls_back os)) [ inl e ↦ rw e refl | inr f ↦ rw f refl ]

  -- From an empty queue: only a session that registered nothing is left without the guard.
  perform-ready :
      (os : List (Operation H)) (guarded : Bool)
      → (g : Bool) × (perform os (ready [] guarded) ≡ ready (surviving os) g)
        × (g ≡ false → surviving os ≡ [])
  unfolding register_post_commit install_rollback_guard roll_back
  perform-ready os true = (
    true,
    perform-guarded os []
        ∙ elim (Bool-cases (rolls_back os)) [ inl e ↦ rw e refl | inr f ↦ rw f refl ],
    λ h. cc,
  )
  perform-ready [] false = (false, refl, λ e. refl)
  perform-ready (registered h ∷ os) false = (
    true,
    perform-guarded os (h ∷ [])
        ∙ elim (Bool-cases (rolls_back os)) [ inl e ↦ rw e refl | inr f ↦ rw f refl ],
    λ h. cc,
  )
  perform-ready (savepoint_rolled_back ∷ os) false = perform-ready os false

  module _ {W : Type 0} (call : H → W → W × Bool) where
    unfoldable pub run_hooks : List H → W → W
    run_hooks [] w = w
    run_hooks (hook ∷ hooks) w = run_hooks hooks (call hook w).0

    unfoldable pub run_post_commit : Session H → W → Session H × W
    unfolding run_hooks
    run_post_commit s w =
        if s.has_info then (record s { hooks = [] }, run_hooks s.hooks w) else (s, w)

    -- A transaction: what it registers, and whether it commits, after which its hooks are run.
    abbrev pub end_transaction : Bool → Session H → W → Session H × W
    end_transaction true s w = run_post_commit s w
    end_transaction false s w = (roll_back s, w)

    unfoldable pub transactions : List (List (Operation H) × Bool) → Session H → W → Session H × W
    unfolding run_post_commit roll_back register_post_commit
    transactions [] s w = (s, w)
    transactions ((os, commits) ∷ ts) s w =
        let (s', w') = end_transaction commits (perform os s) w in transactions ts s' w'

    run_hooks-append :
        (xs ys : List H) (w : W) → run_hooks (xs ++ ys) w ≡ run_hooks ys (run_hooks xs w)
    unfolding run_hooks
    run_hooks-append [] ys w = refl
    run_hooks-append (x ∷ xs) ys w = run_hooks-append xs ys (call x w).0

    end-ready :
        (hooks : List H) (commits g : Bool) (w : W)
        → (g ≡ false → hooks ≡ [])
        → end_transaction commits (ready hooks g) w
          ≡ (ready [] g, if commits then run_hooks hooks w else w)
    unfolding run_post_commit roll_back run_hooks
    end-ready hooks true g w none_queued = refl
    end-ready hooks false true w none_queued = refl
    end-ready hooks false false w none_queued = ap (λ q. (ready q false, w)) (none_queued refl)

    -- What a transaction leaves of a session that has nothing queued.
    ends-ready :
        (os : List (Operation H)) (commits guarded : Bool) (w : W)
        → (g : Bool) × (end_transaction commits (perform os (ready [] guarded)) w
            ≡ (ready [] g, if commits then run_hooks (surviving os) w else w))
    ends-ready os commits guarded w =
        let (g, is, none_queued) = perform-ready os guarded in
        (
          g,
          ap (λ s. end_transaction commits s w) is
              ∙ end-ready (surviving os) commits g w none_queued,
        )

    after_end :
        (hooks rest : List H) (commits : Bool) (w : W)
        → run_hooks rest (if commits then run_hooks hooks w else w)
          ≡ run_hooks (if commits then hooks ++ rest else rest) w
    after_end hooks rest true w = sym (run_hooks-append hooks rest w)
    after_end hooks rest false w = refl

    transactions-ready :
        (ts : List (List (Operation H) × Bool)) (guarded : Bool) (w : W)
        → let (s, w') = transactions ts (ready [] guarded) w in
          (s.hooks ≡ []) × (w' ≡ run_hooks (committed_hooks ts) w)
    unfolding transactions run_hooks
    transactions-ready [] guarded w = (refl, refl)
    transactions-ready ((os, commits) ∷ ts) guarded w =
        let (g, is) = ends-ready os commits guarded w in
        let (none_left, ran) =
          transactions-ready ts g (if commits then run_hooks (surviving os) w else w) in
        subst
          (λ x.
            let r = transactions ts x.0 x.1 in
            (r.0.hooks ≡ []) × (r.1 ≡ run_hooks (committed_hooks ((os, commits) ∷ ts)) w))
          (sym is) (none_left, ran ∙ after_end (surviving os) (committed_hooks ts) commits w)

-- Over any transactions of one session, which register hooks, roll savepoints back, and then commit
-- or roll back: the hooks that run are those that a transaction that commits registered after the last
-- rollback of one of its savepoints, each once and in the order of registration, whether or not one
-- of them raises; those registered before it are dropped although the transaction commits; and none
-- is left in the queue.
pub transactions_exact :
    {H : Type 0} {W : Type 0} (call : H → W → W × Bool) (ts : List (List (Operation H) × Bool))
    (w : W)
    → let (s, w') = transactions call ts (ready [] false) w in
      (s.hooks ≡ []) × (w' ≡ run_hooks call (committed_hooks ts) w)
transactions_exact call ts w = transactions-ready call ts false w
