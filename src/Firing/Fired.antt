-- ===== src/Firing/Fired.antt =====
-- What a pass over the claimed replays leaves in the two sets.
use incident_platform.Prelude.{
  ℕ, String, ◌≡◌, refl, sym, ap, ◌∙◌, subst, Bool, true, false, not, ◌&&◌, ◌||◌, Option, none, some,
  List, [], ◌∷◌, ◌++◌, str_eq, arith, Bool-cases, Option-cases, inl, inr, All, is_some, select,
  append_assoc,
}
use incident_platform.Store.{Job, Db, add_event, log, pending}
use incident_platform.DagPause.{find_blocking_pause}
use incident_platform.JobRepo.Rows.{update_status_quiet}
use incident_platform.JobService.{
  Env, Caller, CacheOp, Result, ok, err, replay_job, replay_writes, replay_reset, or_not_found,
  replayable,
}
use incident_platform.Replays.{
  Replay, Sets, listed_text, member, schedule_replay, arm_replay, ack_replay,
}
use incident_platform.Replays.Claims.{armed_in, any_score, scored_in-zadd, scored_in-zrem}
use incident_platform.JobRepo.{get_for_tenant}
use incident_platform.Idempotency.Keys.{str_eq_refl}
use incident_platform.Firing.{
  Platform, Firing, replay_caller, settle_replay, fire, fire_one, fire_all,
}

or_true : (a b : Bool) → b ≡ true → (a || b) ≡ true
or_true a b h = ground arith

none_left : (b : Bool) → (b && not (true || false)) ≡ false
none_left b = ground arith

abbrev SameEdges : Db → Result (Db × List CacheOp) → Type 0
SameEdges db (err e) = Unit
SameEdges db (ok (after, ops)) = after.edges ≡ db.edges

module _ (env : Env) (id tenant : ℕ) (caller : Caller) (db : Db) where
  replay_writes-edges : (job : Job) → (replay_writes env id caller job db).edges ≡ db.edges
  unfolding replay_writes add_event log
  replay_writes-edges job =
      ap (λ (d : Db). d.edges)
        (update_status_quiet env.now env.json_size id pending replay_reset none db refl refl)

  replay_job-SameEdges : SameEdges db (replay_job env id tenant caller db)
  unfolding replay_job or_not_found
  replay_job-SameEdges = elim (Option-cases (get_for_tenant id tenant db)) [
    | inl gone ↦ rw gone tt
    | inr (job, there) ↦ rw there (elim (Bool-cases (replayable job.status)) [
      | inr refused ↦ rw refused tt
      | inl may ↦
          rw may
            (elim (Bool-cases
              (env.has_dep_repo && is_some (find_blocking_pause env.paused db.edges id))) [
                | inl held ↦ rw held tt
                | inr free ↦ rw free (replay_writes-edges job)
              ])
    ])
  ]

settled-edges :
    (r : Result (Db × List CacheOp)) (w : Platform)
    → SameEdges w.db r
    → (settle_replay r w).db.edges ≡ w.db.edges
unfolding settle_replay
settled-edges (err e) w h = refl
settled-edges (ok (after, ops)) w h = h

settled-sets : (r : Result (Db × List CacheOp)) (w : Platform) → (settle_replay r w).sets ≡ w.sets
unfolding settle_replay
settled-sets (err e) w = refl
settled-sets (ok (after, ops)) w = refl

-- A replay that a pause holds when the pass begins at `w`, and whose transaction does not fail.
abbrev pub is_held : Firing → Platform → Replay → Bool
is_held f w r = not (f.fails r) && is_some (find_blocking_pause f.env.paused w.db.edges r.job_id)

both_true : (a b : Bool) → (not a && b) ≡ true → (a ≡ false) × (b ≡ true)
both_true a b h = ground arith

module _ (f : Firing) (up : (r : Replay) → f.reaches r ≡ true) where
  -- What an item leaves: the dependencies, the claims, and whatever was armed.
  abbrev Kept : Platform → Platform → Type 0
  Kept w w' =
      (w'.db.edges ≡ w.db.edges)
      × (w'.sets.inflight ≡ w.sets.inflight)
      × ((m : String) → armed_in m w.sets.scheduled ≡ true → armed_in m w'.sets.scheduled ≡ true)

  fire-Kept : (r : Replay) (paused_by : Option ℕ) (w : Platform) → Kept w (fire f r paused_by w)
  unfolding fire schedule_replay arm_replay
  fire-Kept r none w =
      let result = replay_job f.env r.job_id r.tenant_id (replay_caller r) w.db in
      (
        settled-edges result w
            (replay_job-SameEdges f.env r.job_id r.tenant_id (replay_caller r) w.db),
        ap (λ (s : Sets). s.inflight) (settled-sets result w),
        λ m h. ap (λ (s : Sets). armed_in m s.scheduled) (settled-sets result w) ∙ h,
      )
  fire-Kept r (some paused_by) w = rw (up r) (
    refl,
    refl,
    λ m h.
        scored_in-zadd any_score m (member f.show r) _ w.sets.scheduled refl
        ∙ or_true (str_eq m (member f.show r)) _ h,
  )

  fire_one-Kept : (r : Replay) (w : Platform) → Kept w (fire_one f r w)
  unfolding fire_one
  fire_one-Kept r w = elim (Bool-cases (f.fails r)) [
    | inl failed ↦ rw failed (refl, refl, λ m h. h)
    | inr runs ↦ rw runs (fire-Kept r (find_blocking_pause f.env.paused w.db.edges r.job_id) w)
  ]

  -- A replay that a pause holds is armed again.
  held-armed :
      (r : Replay) (w : Platform)
      → f.fails r ≡ false
      → is_some (find_blocking_pause f.env.paused w.db.edges r.job_id) ≡ true
      → armed_in (member f.show r) (fire_one f r w).sets.scheduled ≡ true
  unfolding fire_one fire schedule_replay arm_replay
  held-armed r w runs held =
      elim (Option-cases (find_blocking_pause f.env.paused w.db.edges r.job_id)) [
        | inl free ↦ cc
        | inr (paused_by, blocks) ↦ rw runs (
            rw (blocks, fire)
              (rw (up r) (
                scored_in-zadd any_score (member f.show r) (member f.show r) _ w.sets.scheduled refl
                ∙ ap (λ b. b || armed_in (member f.show r) w.sets.scheduled)
                    (str_eq_refl (member f.show r)))))
      ]

  abbrev acked : Replay → Platform → Platform
  acked r w = record (fire_one f r w) { sets = ack_replay f.show r (fire_one f r w).sets }

  fire_all-next :
      (r : Replay) (rs : List Replay) (w : Platform)
      → fire_all f (r ∷ rs) w ≡ fire_all f rs (acked r w)
  unfolding fire_all
  fire_all-next r rs w = rw (up r) refl

  fire_all-keeps :
      (rs : List Replay) (m : String) (w : Platform)
      → armed_in m w.sets.scheduled ≡ true
      → armed_in m (fire_all f rs w).sets.scheduled ≡ true
  unfolding fire_all ack_replay
  fire_all-keeps [] m w h = h
  fire_all-keeps (r ∷ rs) m w h =
      rw (fire_all-next r rs w) (fire_all-keeps rs m (acked r w) ((fire_one-Kept r w).2 m h))

  fire_all-gone :
      (rs : List Replay) (m : String) (w : Platform)
      → armed_in m w.sets.inflight ≡ false
      → armed_in m (fire_all f rs w).sets.inflight ≡ false
  unfolding fire_all ack_replay
  fire_all-gone [] m w h = h
  fire_all-gone (r ∷ rs) m w h = rw (fire_all-next r rs w) (
      fire_all-gone rs m (acked r w) (
        scored_in-zrem any_score m (member f.show r ∷ []) (fire_one f r w).sets.inflight
        ∙ ap (λ b. b && not (listed_text m (member f.show r ∷ [])))
            (ap (λ l. armed_in m l) (fire_one-Kept r w).1 ∙ h)))

  fire_all-acked :
      (rs : List Replay) (w : Platform)
      → All (λ r. armed_in (member f.show r) (fire_all f rs w).sets.inflight ≡ false) rs
  unfolding fire_all ack_replay
  fire_all-acked [] w = tt
  fire_all-acked (r ∷ rs) w = (
    subst (λ (v : Platform). armed_in (member f.show r) v.sets.inflight ≡ false)
        (sym (fire_all-next r rs w))
        (fire_all-gone rs (member f.show r) (acked r w) (
          scored_in-zrem any_score (member f.show r) (member f.show r ∷ [])
            (fire_one f r w).sets.inflight
          ∙ ap (λ b. armed_in (member f.show r) (fire_one f r w).sets.inflight && not (b || false))
              (str_eq_refl (member f.show r))
          ∙ none_left _)),
    subst (λ (v : Platform). All (λ x. armed_in (member f.show x) v.sets.inflight ≡ false) rs)
        (sym (fire_all-next r rs w)) (fire_all-acked rs (acked r w)),
  )

  fire_all-held :
      (before after : List Replay) (r : Replay) (w : Platform)
      → f.fails r ≡ false
      → is_some (find_blocking_pause f.env.paused w.db.edges r.job_id) ≡ true
      → armed_in (member f.show r) (fire_all f (before ++ r ∷ after) w).sets.scheduled ≡ true
  unfolding fire_all ack_replay
  fire_all-held [] after r w runs held =
      rw (fire_all-next r after w)
        (fire_all-keeps after (member f.show r) (acked r w) (held-armed r w runs held))
  fire_all-held (x ∷ before) after r w runs held = rw (fire_all-next x (before ++ r ∷ after) w) (
      fire_all-held before after r (acked x w) runs (
        ap (λ es. is_some (find_blocking_pause f.env.paused es r.job_id)) (fire_one-Kept x w).0
        ∙ held))

  fire_all-rearms :
      (before rs : List Replay) (w : Platform)
      → All
          (λ r. armed_in (member f.show r) (fire_all f (before ++ rs) w).sets.scheduled ≡ true)
          (select (is_held f w) rs)
  fire_all-rearms before [] w = tt
  fire_all-rearms before (r ∷ rs) w =
      let rest =
        subst
          (λ all.
            All (λ x. armed_in (member f.show x) (fire_all f all w).sets.scheduled ≡ true)
              (select (is_held f w) rs))
          (append_assoc before (r ∷ []) rs) (fire_all-rearms (before ++ r ∷ []) rs w) in
      elim (Bool-cases (is_held f w r)) [
        | inr free ↦ rw free rest
        | inl held ↦
            let (runs, blocked) = both_true (f.fails r) _ held in
            rw held (fire_all-held before rs r w runs blocked, rest)
      ]

-- While Redis answers, a pass over any claimed replays leaves none of them claimed, whether each is
-- fired, refused or fails; and it arms again each one that a pause holds when the pass begins and
-- whose transaction does not fail.
pub fire_all-settles :
    (f : Firing) (rs : List Replay) (w : Platform)
    → ((x : Replay) → f.reaches x ≡ true)
    → All (λ x. armed_in (member f.show x) (fire_all f rs w).sets.inflight ≡ false) rs
      × All
          (λ x. armed_in (member f.show x) (fire_all f rs w).sets.scheduled ≡ true)
          (select (is_held f w) rs)
fire_all-settles f rs w up = (fire_all-acked f up rs w, fire_all-rearms f up [] rs w)
