-- ===== src/Backstop/Promoted.antt =====
-- A pass of the promotion of delayed retries.
use incident_platform.Prelude.{
  ℕ, ◌≡◌, ◌⊎◌, refl, ap, ◌∙◌, Bool, true, ◌||◌, Option, none, some, List, [], ◌∷◌, ◌++◌, arith,
  ◌==◌, Bool-cases, Option-cases, inl, inr, append_assoc, append-nil, sym, subst, ==_iff,
}
use incident_platform.Store.{Job, OutboxEvent, add_event}
use incident_platform.Store.Events.{job_submitted_payload}
use incident_platform.JobRepo.{get_by_id, has_id}
use incident_platform.JobRepo.Cascade.{found-has_id}
use incident_platform.Store.Table.{find_where}
use incident_platform.Queue.{Delayed, remove, place, push_delayed, pop_ready_delayed}
use incident_platform.Run.{World, push_if_up, pause_recheck_seconds}
use incident_platform.Backstop.{
  is_delayed, resubmit, Promotion, promote_found, promote_row, promote_popped, promote_all,
  promote_delayed_once, promote_retry_delay_seconds,
}

-- The outbox has a `job.submitted` row with the job's own values.
abbrev pub Resubmitted : Job → List OutboxEvent → Type 0
Resubmitted job outbox =
    (before : List OutboxEvent) × (event : OutboxEvent) × (after : List OutboxEvent) × (outbox
      ≡ before ++ event ∷ after)
    × (event.payload ≡ job_submitted_payload job)

delayed-place :
    (x : ℕ) (new : Delayed) (set : List Delayed)
    → is_delayed (place new set) x ≡ (new.member == x || is_delayed set x)
unfolding place
delayed-place x new [] = refl
delayed-place x new (d ∷ ds) = ground (arith, delayed-place x new ds)

delayed-remove :
    (x id : ℕ) (set : List Delayed)
    → (id == x || is_delayed (remove id set) x) ≡ (id == x || is_delayed set x)
unfolding remove
delayed-remove x id [] = refl
delayed-remove x id (d ∷ ds) = ground (arith, delayed-remove x id ds)

delayed-push :
    (now delay x id : ℕ) (set : List Delayed)
    → is_delayed (push_delayed now id delay set) x ≡ (id == x || is_delayed set x)
unfolding push_delayed
delayed-push now delay x id set = delayed-place x _ (remove id set) ∙ delayed-remove x id set

or_true : (a b : Bool) → b ≡ true → (a || b) ≡ true
or_true a b h = ground arith

delayed-own :
    (now delay x id : ℕ) (set : List Delayed)
    → id ≡ x
    → is_delayed (push_delayed now id delay set) x ≡ true
delayed-own now delay x id set e =
    delayed-push now delay x id set ∙ ap (λ b. b || is_delayed set x) ((==_iff id x).1 e)

-- What a step of the pass keeps: the rows, what is delayed, and the events, which it may add to.
abbrev Grown : World → World → Type 0
Grown w w' =
    (w'.db.jobs ≡ w.db.jobs)
    × ((x : ℕ) → is_delayed w.delayed x ≡ true → is_delayed w'.delayed x ≡ true)
    × (more : List OutboxEvent) × (w'.db.outbox ≡ w.db.outbox ++ more)

pushed-Grown :
    (now delay id : ℕ) (w : World)
    → Grown w (record w { delayed = push_delayed now id delay w.delayed })
pushed-Grown now delay id w = (
  refl,
  λ x h. delayed-push now delay x id w.delayed ∙ or_true (id == x) _ h,
  [],
  sym (append-nil w.db.outbox),
)

kept-Grown : (w : World) → Grown w w
kept-Grown w = (refl, λ x h. h, [], sym (append-nil w.db.outbox))

then-Grown : (u v w : World) → Grown u v → Grown v w → Grown u w
then-Grown u v w (jobs, delayed, more, outbox) (jobs', delayed', more', outbox') = (
  jobs' ∙ jobs,
  λ x h. delayed' x (delayed x h),
  more ++ more',
  outbox' ∙ ap (λ l. l ++ more') outbox ∙ append_assoc u.db.outbox more more',
)

Resubmitted-later :
    (job : Job) (outbox outbox' more : List OutboxEvent)
    → outbox' ≡ outbox ++ more
    → Resubmitted job outbox
    → Resubmitted job outbox'
Resubmitted-later job outbox outbox' more e (before, event, after, split, payload) = (
  before,
  event,
  after ++ more,
  e ∙ ap (λ l. l ++ more) split ∙ append_assoc before (event ∷ after) more,
  payload,
)

-- The job of an id that was popped is delayed again, or on its topic.
abbrev pub Saved : ℕ → Job → World → Type 0
Saved id job w = (is_delayed w.delayed id ≡ true) ⊎ Resubmitted job w.db.outbox

Saved-later : (id : ℕ) (job : Job) (w w' : World) → Grown w w' → Saved id job w → Saved id job w'
Saved-later id job w w' (jobs, delayed, more, outbox) (inl d) = inl (delayed id d)
Saved-later id job w w' (jobs, delayed, more, outbox) (inr r) =
    inr (Resubmitted-later job w.db.outbox w'.db.outbox more outbox r)

module _ (p : Promotion) (up : p.redis_up ≡ true) where
  promote_found-lem :
      (id : ℕ) (job : Job) (paused_by : Option ℕ) (w : World)
      → job.id ≡ id
      → Grown w (promote_found p job paused_by w) × Saved id job (promote_found p job paused_by w)
  unfolding promote_found push_if_up resubmit add_event
  promote_found-lem id job none w e =
      ((refl, λ x h. h, _, refl), inr (w.db.outbox, _, [], refl, refl))
  promote_found-lem id job (some paused_by) w e = rw up (
    pushed-Grown p.now pause_recheck_seconds job.id w,
    inl (delayed-own p.now pause_recheck_seconds id job.id w.delayed e),
  )

  promote_popped-Grown : (id : ℕ) (w : World) → Grown w (promote_popped p id w)
  unfolding promote_popped promote_row push_if_up
  promote_popped-Grown id w = elim (Bool-cases (p.fails id)) [
    | inl f ↦ rw f (rw up (pushed-Grown p.now promote_retry_delay_seconds id w))
    | inr f ↦ rw f (elim (Option-cases (get_by_id id w.db)) [
      | inl gone ↦ rw (gone, promote_row) (kept-Grown w)
      | inr (job, there) ↦ rw (there, promote_row) (promote_found-lem job.id job _ w refl).0
    ])
  ]

  promote_popped-Saved :
      (id : ℕ) (job : Job) (w : World)
      → get_by_id id w.db ≡ some job
      → Saved id job (promote_popped p id w)
  unfolding promote_popped promote_row push_if_up
  promote_popped-Saved id job w there = elim (Bool-cases (p.fails id)) [
    | inl f ↦
        rw f (rw up (inl (delayed-own p.now promote_retry_delay_seconds id id w.delayed refl)))
    | inr f ↦ rw f (
        rw (there, promote_row)
          (promote_found-lem id job _ w (found-has_id id w.db.jobs job there)).1)
  ]

  promote_popped-Saved' :
      (k id : ℕ) (job : Job) (w : World)
      → k ≡ id
      → get_by_id id w.db ≡ some job
      → Saved id job (promote_popped p k w)
  promote_popped-Saved' k id job w e there =
      subst (λ n. Saved id job (promote_popped p n w)) (sym e) (promote_popped-Saved id job w there)

  promote_all-Grown : (ds : List Delayed) (w : World) → Grown w (promote_all p ds w)
  unfolding promote_all
  promote_all-Grown [] w = kept-Grown w
  promote_all-Grown (d ∷ ds) w =
      then-Grown w (promote_popped p d.member w) (promote_all p ds (promote_popped p d.member w))
        (promote_popped-Grown d.member w) (promote_all-Grown ds (promote_popped p d.member w))

  promote_all-Saved :
      (id : ℕ) (job : Job) (ds : List Delayed) (w : World)
      → is_delayed ds id ≡ true
      → get_by_id id w.db ≡ some job
      → Saved id job (promote_all p ds w)
  unfolding promote_all
  promote_all-Saved id job [] w h there = cc
  promote_all-Saved id job (d ∷ ds) w h there = elim (Bool-cases (d.member == id)) [
    | inl e ↦
        Saved-later id job (promote_popped p d.member w)
          (promote_all p ds (promote_popped p d.member w))
          (promote_all-Grown ds (promote_popped p d.member w))
          (promote_popped-Saved' d.member id job w ((==_iff d.member id).0 e) there)
    | inr e ↦
        promote_all-Saved id job ds (promote_popped p d.member w) (rw e at h)
          (ap (find_where (has_id id)) (promote_popped-Grown d.member w).0 ∙ there)
  ]

-- While Redis takes what is pushed back, a pass loses no retry, whichever of its transactions fail
-- and whatever is paused: every due member that it pops, of a job that exists, is in the delayed set
-- again or has a new `job.submitted` event with the job's own values.
pub promote_delayed_keeps :
    (p : Promotion) (w : World) (id : ℕ) (job : Job)
    → p.redis_up ≡ true
    → is_delayed (pop_ready_delayed p.now w.delayed).0 id ≡ true
    → get_by_id id w.db ≡ some job
    → Saved id job (promote_delayed_once p w)
unfolding promote_delayed_once
promote_delayed_keeps p w id job up due there =
    promote_all-Saved p up id job (pop_ready_delayed p.now w.delayed).0 _ due there
