-- ===== src/JobRepo/Announce.antt =====
-- The events of a cascade: one `job.cancelled` for each row that it cancels.
use incident_platform.Prelude.{
  ℕ, zero, suc, ◌+◌, ◌≡◌, refl, sym, ap, ◌∙◌, true, false, List, [], ◌∷◌, ◌++◌, inl, inr, arith,
  select, member, count_where, length, is_nil, All, Bool-cases, member-append, ==_refl,
  append_assoc, append-nil, length-append,
}
use incident_platform.Store.{JobStatus, Job, Db, OutboxEvent, job_cancelled}
use incident_platform.Store.Table.{update_where}
use incident_platform.JobRepo.{
  is_target, cascade_targets, cascade_cancelled, newly_cancelled, stamped_at, announce_cancelled,
  cascade_round, cascade_loop, cascade_cancel_blocked_children, cascade_max_depth,
}
use incident_platform.JobRepo.Targets.{targets_sound, cancel}
use incident_platform.JobRepo.Cascade.{announce_jobs}

-- The rows stamped with the cascade's own moment are rows it has seen.
abbrev Stamped : ℕ → List ℕ → List Job → Type 0
Stamped now seen [] = Unit
Stamped now seen (j ∷ js) =
    (stamped_at now j.completed_at ≡ true → member j.id seen ≡ true) × Stamped now seen js

-- `b` is the outbox `a` with `n` more rows at its end, all on `job.cancelled`.
pub record Announced (n : ℕ) (a b : List OutboxEvent) : Type 0 where
  pub events : List OutboxEvent
  pub appended : b ≡ a ++ events
  pub one_each : length events ≡ n
  pub topic : All (λ (e : OutboxEvent). e.topic ≡ job_cancelled) events

All-append {ℓ} :
    {A : Type ℓ} (P : A → Type 0) (xs ys : List A) → All P xs → All P ys → All P (xs ++ ys)
All-append P [] ys hx hy = hy
All-append P (x ∷ xs) ys hx hy = (hx.0, All-append P xs ys hx.1 hy)

Announced-none : (a : List OutboxEvent) → Announced 0 a a
Announced-none a = record {
  events = [];
  appended = sym (append-nil a);
  one_each = refl;
  topic = tt;
}

Announced-cons :
    (n : ℕ) (e : OutboxEvent) (a b : List OutboxEvent)
    → e.topic ≡ job_cancelled
    → Announced n (a ++ e ∷ []) b
    → Announced (suc n) a b
Announced-cons n e a b t q = record {
  events = e ∷ q.events;
  appended = q.appended ∙ append_assoc a (e ∷ []) q.events;
  one_each = ap suc q.one_each;
  topic = (t, q.topic);
}

Announced-trans :
    (n m : ℕ) (a b c : List OutboxEvent) → Announced n a b → Announced m b c → Announced (n + m) a c
Announced-trans n m a b c p q = record {
  events = p.events ++ q.events;
  appended = q.appended ∙ ap (λ l. l ++ q.events) p.appended ∙ append_assoc a p.events q.events;
  one_each = omega (arith, p.one_each, q.one_each, length-append p.events q.events);
  topic =
      All-append (λ (e : OutboxEvent). e.topic ≡ job_cancelled) p.events q.events p.topic q.topic;
}

announce-Announced :
    (now : ℕ) (children : List Job) (db : Db)
    → Announced (length children) db.outbox (announce_cancelled now children db).outbox
unfolding announce_cancelled
announce-Announced now [] db = Announced-none db.outbox
announce-Announced now (c ∷ cs) db =
    Announced-cons (length cs) _ db.outbox _ refl (announce-Announced now cs _)

module _ (now parent : ℕ) (st : JobStatus) where
  -- The re-read finds exactly the rows that the UPDATE wrote.
  count-newly :
      (targets seen : List ℕ) (jobs : List Job)
      → ((a : ℕ) → member a targets ≡ true → member a seen ≡ false)
      → Stamped now seen jobs
      → length (
          select
            (newly_cancelled now targets)
            (update_where (is_target targets) (cancel now parent st) jobs))
        ≡ count_where (is_target targets) jobs
  unfolding cascade_cancelled
  count-newly targets seen [] d h = refl
  count-newly targets seen (j ∷ js) d h =
      ground (arith, d j.id, h.0, count-newly targets seen js d h.1, ==_refl now)

  Stamped-round :
      (targets seen : List ℕ) (jobs : List Job)
      → Stamped now seen jobs
      → Stamped now (seen ++ targets) (update_where (is_target targets) (cancel now parent st) jobs)
  unfolding cascade_cancelled
  Stamped-round targets seen [] h = tt
  Stamped-round targets seen (j ∷ js) h =
      (λ s. ground (arith, member-append j.id seen targets, h.0), Stamped-round targets seen js h.1)

  round-Announced :
      (targets seen : List ℕ) (db : Db)
      → ((a : ℕ) → member a targets ≡ true → member a seen ≡ false)
      → Stamped now seen db.jobs
      → Announced
          (count_where (is_target targets) db.jobs)
          db.outbox
          (cascade_round now parent st targets db).outbox
  unfolding cascade_round
  round-Announced targets seen db d h =
      rw (sym (count-newly targets seen db.jobs d h)) (announce-Announced now _ _)

  loop-Announced :
      (depth : ℕ) (frontier seen : List ℕ) (count : ℕ) (db : Db)
      → Stamped now seen db.jobs
      → let r = cascade_loop depth now parent st frontier seen count db in
        (n : ℕ) × (r.0 ≡ count + n) × Announced n db.outbox r.1.outbox
  unfolding cascade_loop cascade_round
  loop-Announced zero frontier seen count db h = (0, omega arith, Announced-none db.outbox)
  loop-Announced (suc depth) frontier seen count db h =
      let targets = cascade_targets db.edges db.jobs frontier seen in
      let took = count_where (is_target targets) db.jobs in
      elim (Bool-cases (is_nil targets)) [
        | inl stop ↦ rw stop (0, omega arith, Announced-none db.outbox)
        | inr more ↦
            let (n, e, a) =
              loop-Announced depth targets (seen ++ targets) (count + took)
                (cascade_round now parent st targets db)
                (rw announce_jobs (Stamped-round targets seen db.jobs h)) in
            rw more (
              took + n,
              omega (arith, e),
              Announced-trans took n db.outbox _ _
                  (round-Announced targets seen db
                    (λ c m. (targets_sound db.jobs frontier seen db.edges c m).fresh) h)
                  a,
            )
      ]

-- `cascade_cancel_blocked_children` returns the number of events that it adds, all on the topic
-- of cancellations, if no row but the parent's carries the cascade's own timestamp beforehand.
pub cascade_announces :
    (now parent : ℕ) (st : JobStatus) (db : Db)
    → Stamped now (parent ∷ []) db.jobs
    → let r = cascade_cancel_blocked_children now parent st db in Announced r.0 db.outbox r.1.outbox
unfolding cascade_cancel_blocked_children
cascade_announces now parent st db h =
    let (n, e, a) =
      loop-Announced now parent st cascade_max_depth (parent ∷ []) (parent ∷ []) 0 db h in
    let e' : (cascade_loop cascade_max_depth now parent st (parent ∷ []) (parent ∷ []) 0 db).0 ≡ n =
      omega (arith, e) in
    rw e' a
