-- ===== src/JobRepo/Cascade.antt =====
-- The whole cascade of repositories/job.py, against the rows that a stranded parent strands.
use incident_platform.Prelude.{
  ℕ, zero, suc, ◌+◌, ◌<◌, ◌≡◌, refl, sym, ap, ◌∙◌, subst, true, false, Option, none, some, List, [],
  ◌∷◌, ◌++◌, inl, inr, ◌⊎◌, ◌↔◌, arith, if◌then◌else◌, member, count_where, is_nil, Bool-cases,
  member-append, ==_iff, ==_refl,
}
use incident_platform.Store.{JobStatus, Job, Edge, Db}
use incident_platform.Store.Table.{find_where, update_where}
use incident_platform.JobRepo.{
  has_id, cancellable, cancellable_row, cascade_targets, is_target, cascade_cancelled,
  cascade_max_depth, announce_cancelled, cascade_round, cascade_loop,
  cascade_cancel_blocked_children,
}
use incident_platform.JobRepo.Targets.{
  IsEdge, targets_sound, targets_complete, update_twice, count_cancellable, count-target, cancel,
}

-- `c` hangs below the parent through rows that can all be cancelled, itself included.
pub data Stranded (edges : List Edge) (jobs : List Job) (parent : ℕ) : ℕ → Type 0 where
  root : Stranded edges jobs parent parent
  below :
      {p c : ℕ}
      → Stranded edges jobs parent p
      → IsEdge edges p c
      → cancellable_row (find_where (has_id c) jobs) ≡ true
      → Stranded edges jobs parent c

pub announce_jobs :
    (now : ℕ) (children : List Job) (db : Db) → (announce_cancelled now children db).jobs ≡ db.jobs
unfolding announce_cancelled
announce_jobs now [] db = refl
announce_jobs now (c ∷ cs) db = announce_jobs now cs _

pub announce_edges :
    (now : ℕ) (children : List Job) (db : Db)
    → (announce_cancelled now children db).edges ≡ db.edges
unfolding announce_cancelled
announce_edges now [] db = refl
announce_edges now (c ∷ cs) db = announce_edges now cs _

no_targets : (f : Job → Job) (jobs : List Job) → update_where (is_target []) f jobs ≡ jobs
no_targets f [] = refl
no_targets f (j ∷ js) = ap (λ l. j ∷ l) (no_targets f js)

not_member : (a : ℕ) (ts : List ℕ) → is_nil ts ≡ true → member a ts ≡ false
not_member a [] h = refl
not_member a (t ∷ ts) h = cc

pub found-has_id :
    (c : ℕ) (jobs : List Job) (j : Job) → find_where (has_id c) jobs ≡ some j → j.id ≡ c
found-has_id c [] j h = cc
found-has_id c (x ∷ xs) j h = elim (Bool-cases (has_id c x)) [
  | inl e ↦ ground (arith, ==_iff x.id c)
  | inr e ↦ found-has_id c xs j (rw e at h)
]

module _ (now parent : ℕ) (st : JobStatus) (done : List ℕ) where
  abbrev after_rounds : Option Job → Option Job
  after_rounds none = none
  after_rounds (some j) = some (if is_target done j then cancel now parent st j else j)

  find_after :
      (c : ℕ) (jobs : List Job)
      → find_where (has_id c) (update_where (is_target done) (cancel now parent st) jobs)
        ≡ after_rounds (find_where (has_id c) jobs)
  unfolding cascade_cancelled
  find_after c [] = refl
  find_after c (j ∷ js) = ground (arith, find_after c js)

  row_after :
      (c : ℕ) (o : Option Job)
      → ((j : Job) → o ≡ some j → j.id ≡ c)
      → cancellable_row (after_rounds o) ≡ true
      → (cancellable_row o ≡ true) × (member c done ≡ false)
  unfolding cascade_cancelled
  row_after c none hid h = cc
  row_after c (some j) hid h = let e = hid j refl in ground arith

module _ (now parent : ℕ) (st : JobStatus) (edges : List Edge) (jobs : List Job) where
  abbrev cancelled_by : List ℕ → List Job
  cancelled_by done = update_where (is_target done) (cancel now parent st) jobs

  -- What holds between two rounds: `seen` is the parent and the jobs of the rounds so far, all
  -- stranded; the rows are those of the start with the seen ones cancelled; and what can still be
  -- cancelled below a seen job hangs on the frontier.
  pub record Between (frontier done : List ℕ) (db : Db) : Type 0 where
    pub rows : db.jobs ≡ cancelled_by done
    pub same_edges : db.edges ≡ edges
    pub stranded : (a : ℕ) → member a (parent ∷ done) ≡ true → Stranded edges jobs parent a
    pub in_frontier : (a : ℕ) → member a frontier ≡ true → member a (parent ∷ done) ≡ true
    pub closed :
        (p c : ℕ)
        → member p (parent ∷ done) ≡ true
        → IsEdge edges p c
        → cancellable_row (find_where (has_id c) (cancelled_by done)) ≡ true
        → (member p frontier ≡ true) ⊎ (member c (parent ∷ done) ≡ true)

  -- A row that can be cancelled after some rounds could be from the start.
  still :
      (done : List ℕ) (c : ℕ)
      → cancellable_row (find_where (has_id c) (cancelled_by done)) ≡ true
      → (cancellable_row (find_where (has_id c) jobs) ≡ true) × (member c done ≡ false)
  still done c h =
      row_after now parent st done c (find_where (has_id c) jobs) (found-has_id c jobs)
        (rw find_after at h)

  -- A row that no round took can still be cancelled.
  cancellable_again :
      (done : List ℕ) (c : ℕ)
      → member c done ≡ false
      → cancellable_row (find_where (has_id c) jobs) ≡ true
      → cancellable_row (find_where (has_id c) (cancelled_by done)) ≡ true
  cancellable_again done c m h =
      rw find_after (go (find_where (has_id c) jobs) (found-has_id c jobs) h)
    where
      go :
          (o : Option Job)
          → ((j : Job) → o ≡ some j → j.id ≡ c)
          → cancellable_row o ≡ true
          → cancellable_row (after_rounds now parent st done o) ≡ true
      go none hid h = cc
      go (some j) hid h = let e = hid j refl in ground arith

  module _ (frontier done : List ℕ) (db : Db) (b : Between frontier done db) where
    abbrev targets : List ℕ
    targets = cascade_targets db.edges db.jobs frontier (parent ∷ done)

    target-Stranded : (a : ℕ) → member a targets ≡ true → Stranded edges jobs parent a
    target-Stranded a m =
        let sel = targets_sound db.jobs frontier (parent ∷ done) db.edges a m in
        let (p, e, mp) = sel.edge in
        below (b.stranded p (b.in_frontier p mp)) (subst (λ es. IsEdge es p a) b.same_edges e)
          (still done a
            (subst (λ js. cancellable_row (find_where (has_id a) js) ≡ true) b.rows sel.row)).0

    seen_after :
        (a : ℕ)
        → member a (parent ∷ (done ++ targets)) ≡ true
        → (member a (parent ∷ done) ≡ true) ⊎ (member a targets ≡ true)
    seen_after a m = ground (arith, member-append a done targets)

    -- A child of the frontier that can still be cancelled is seen, or a target.
    child_seen :
        (p c : ℕ)
        → member p frontier ≡ true
        → IsEdge edges p c
        → cancellable_row (find_where (has_id c) (cancelled_by done)) ≡ true
        → member c (parent ∷ (done ++ targets)) ≡ true
    child_seen p c mp e h = elim (Bool-cases (member c (parent ∷ done))) [
      | inl old ↦ ground (arith, member-append c done targets)
      | inr new ↦
          let t : member c targets ≡ true =
            targets_complete db.jobs frontier (parent ∷ done) db.edges p c
              (subst (λ es. IsEdge es p c) (sym b.same_edges) e) mp
              (subst (λ js. cancellable_row (find_where (has_id c) js) ≡ true) (sym b.rows) h)
              new in
          ground (arith, member-append c done targets)
    ]

    closed_after :
        (p c : ℕ)
        → member p (parent ∷ (done ++ targets)) ≡ true
        → IsEdge edges p c
        → cancellable_row (find_where (has_id c) (cancelled_by (done ++ targets))) ≡ true
        → (member p targets ≡ true) ⊎ (member c (parent ∷ (done ++ targets)) ≡ true)
    closed_after p c mp e h = elim (seen_after p mp) [
      | inr t ↦ inl t
      | inl old ↦
          let (from_start, out) = still (done ++ targets) c h in
          let again : cancellable_row (find_where (has_id c) (cancelled_by done)) ≡ true =
            cancellable_again done c (ground (arith, member-append c done targets)) from_start in
          elim (b.closed p c old e again) [
            | inl f ↦ inr (child_seen p c f e again)
            | inr s ↦ inr (ground (arith, member-append c done targets))
          ]
    ]

    -- The invariant after a round.
    Between-round : Between targets (done ++ targets) (cascade_round now parent st targets db)
    unfolding cascade_round
    Between-round = record {
      rows = rw announce_jobs (
          ap (update_where (is_target targets) (cancel now parent st)) b.rows
          ∙ update_twice now parent st done targets jobs);
      same_edges = rw announce_edges b.same_edges;
      stranded =
          λ a m. elim (seen_after a m) [ inl old ↦ b.stranded a old | inr t ↦ target-Stranded a t ];
      in_frontier = λ a m. ground (arith, member-append a done targets);
      closed = closed_after;
    }

    -- A round with a target leaves fewer rows to cancel.
    round_progress :
        is_nil targets ≡ false
        → count_where cancellable (cascade_round now parent st targets db).jobs
          < count_where cancellable db.jobs
    unfolding cascade_round
    round_progress h = rw announce_jobs (go targets refl h)
      where
        go :
            (ts : List ℕ)
            → targets ≡ ts
            → is_nil ts ≡ false
            → count_where cancellable
                (update_where (is_target targets) (cancel now parent st) db.jobs)
              < count_where cancellable db.jobs
        go [] e h = cc
        go (c ∷ ts) e h =
            let m : member c targets ≡ true = rw e (rw (==_refl c)) in
            omega (
              arith,
              count_cancellable now parent st targets db.jobs,
              count-target targets c db.jobs m
                  (targets_sound db.jobs frontier (parent ∷ done) db.edges c m).row,
            )

    -- Where the loop stops for want of targets, every stranded job has been seen.
    all_seen :
        is_nil targets ≡ true
        → (a : ℕ) → Stranded edges jobs parent a
        → member a (parent ∷ done) ≡ true
    all_seen h a root = ground (arith, ==_refl parent)
    all_seen h a (below {p = p} s e row) = elim (Bool-cases (member a (parent ∷ done))) [
      | inl seen ↦ seen
      | inr unseen ↦
          let again : cancellable_row (find_where (has_id a) (cancelled_by done)) ≡ true =
            cancellable_again done a (ground arith) row in
          elim (b.closed p a (all_seen h p s) e again) [
            | inr seen ↦ seen
            | inl f ↦ ground (
              arith,
              child_seen p a f e again,
              member-append a done targets,
              not_member a targets h,
            )
          ]
    ]

  -- What a finished cascade has done: the jobs it took are those stranded below the parent.
  pub record Finished (done : List ℕ) (db : Db) : Type 0 where
    pub rows : db.jobs ≡ cancelled_by done
    pub exact : (a : ℕ) → (member a (parent ∷ done) ≡ true) ↔ Stranded edges jobs parent a

  loop-Finished :
      (depth : ℕ) (frontier done : List ℕ) (count : ℕ) (db : Db)
      → Between frontier done db
      → count_where cancellable db.jobs < depth
      → (done' : List ℕ) × Finished done'
          (cascade_loop depth now parent st frontier (parent ∷ done) count db).1
  unfolding cascade_loop
  loop-Finished zero frontier done count db b h = absurd (omega arith)
  loop-Finished (suc depth) frontier done count db b h =
      elim (Bool-cases (is_nil (targets frontier done db b))) [
        | inl stop ↦ rw stop (
          done,
          record {
            rows = b.rows;
            exact = λ a. (λ m. b.stranded a m, all_seen frontier done db b stop a);
          },
        )
        | inr more ↦ rw more (
            loop-Finished depth (targets frontier done db b) (done ++ targets frontier done db b)
              (count + count_where (is_target (targets frontier done db b)) db.jobs)
              (cascade_round now parent st (targets frontier done db b) db)
              (Between-round frontier done db b)
              (omega (arith, round_progress frontier done db b more)))
      ]

-- `cascade_cancel_blocked_children`, run on fewer than `_CASCADE_MAX_DEPTH` rows that are WAITING
-- outside a saga: the jobs that it cancels are exactly those that hang below the parent through
-- such rows, and no other row changes.
pub cascade_exact :
    (now parent : ℕ) (st : JobStatus) (db : Db)
    → count_where cancellable db.jobs < cascade_max_depth
    → (done : List ℕ) × Finished now parent st db.edges db.jobs done
        (cascade_cancel_blocked_children now parent st db).1
unfolding cascade_cancel_blocked_children
cascade_exact now parent st db h =
    loop-Finished now parent st db.edges db.jobs cascade_max_depth (parent ∷ []) [] 0 db
      (record {
        rows = sym (no_targets (cascade_cancelled now parent st) db.jobs);
        same_edges = refl;
        stranded =
            λ a m. subst (Stranded db.edges db.jobs parent) (ground (arith, ==_iff a parent)) root;
        in_frontier = λ a m. m;
        closed = λ p c mp e r. inl mp;
      })
      h
