-- ===== src/ReadModel/Views.antt =====
-- One view: how often it holds a job, and how long it is, under each command.
use incident_platform.ReadModel.{
  holds, member_count, Entry, View, is_job, zrem, insert, zadd, project, read_model_window,
}
use incident_platform.Prelude.{
  ℕ, suc, zero, ◌+◌, ◌-◌, ◌≤◌, ◌≡◌, refl, ap, ◌∙◌, false, List, [], ◌∷◌, ◌==◌, ==_refl,
  if◌then◌else◌, length, length-drop, drop, count_where, arith, Bool-cases, inl, inr,
}

-- How often a job stands in a sorted set.
abbrev pub times : ℕ → List Entry → ℕ
times i es = count_where (is_job i) es

-- A later set holds no job more often and is no longer.
abbrev pub Fewer : List Entry → List Entry → Type 0
Fewer es es' = ((i : ℕ) → times i es' ≤ times i es) × (length es' ≤ length es)

pub Fewer-refl : (es : List Entry) → Fewer es es
Fewer-refl es = (λ i. omega arith, omega arith)

pub Fewer-trans : (es fs gs : List Entry) → Fewer es fs → Fewer fs gs → Fewer es gs
Fewer-trans es fs gs (a, b) (c, d) = (λ i. omega (arith, a i, c i), omega (arith, b, d))

times-zrem : (i job : ℕ) (es : List Entry) → times i (zrem job es) ≤ times i es
unfolding zrem
times-zrem i job [] = omega arith
times-zrem i job (e ∷ es) = ground (arith, times-zrem i job es)

pub zrem-gone : (job : ℕ) (es : List Entry) → times job (zrem job es) ≡ 0
unfolding zrem
zrem-gone job [] = refl
zrem-gone job (e ∷ es) = ground (arith, zrem-gone job es)

length-zrem : (job : ℕ) (es : List Entry) → length (zrem job es) ≤ length es
unfolding zrem
length-zrem job [] = omega arith
length-zrem job (e ∷ es) = ground (arith, length-zrem job es)

pub zrem-Fewer : (job : ℕ) (es : List Entry) → Fewer es (zrem job es)
zrem-Fewer job es = (λ i. times-zrem i job es, length-zrem job es)

times-insert : (i : ℕ) (e : Entry) (es : List Entry) → times i (insert e es) ≡ times i (e ∷ es)
unfolding insert
times-insert i e [] = refl
times-insert i e (f ∷ fs) = ground (arith, times-insert i e fs)

pub length-insert : (e : Entry) (es : List Entry) → length (insert e es) ≡ suc (length es)
unfolding insert
length-insert e [] = refl
length-insert e (f ∷ fs) = ground (arith, length-insert e fs)

times-drop : (i n : ℕ) (es : List Entry) → times i (drop n es) ≤ times i es
times-drop i zero es = omega arith
times-drop i (suc n) [] = omega arith
times-drop i (suc n) (e ∷ es) = ground (arith, times-drop i n es)

module _ (e : Entry) (view : View) where
  times-project :
      (i : ℕ) → times i (project e view).members ≤ times i (e ∷ zrem e.job_id view.members)
  unfolding project zadd
  times-project i = omega (
    arith,
    times-drop i (length (insert e (zrem e.job_id view.members)) - read_model_window)
        (insert e (zrem e.job_id view.members)),
    times-insert i e (zrem e.job_id view.members),
  )

  -- The job that is projected stands in the view once at most, another as often as it did.
  pub project-itself : times e.job_id (project e view).members ≤ 1
  project-itself =
      ground (arith, times-project e.job_id, zrem-gone e.job_id view.members, ==_refl e.job_id)

  pub project-others :
      (i : ℕ) → (e.job_id == i) ≡ false → times i (project e view).members ≤ times i view.members
  project-others i n = ground (arith, times-project i, times-zrem i e.job_id view.members)

  pub length-project : length (project e view).members ≤ read_model_window
  unfolding project
  length-project =
      omega (
        arith,
        length-drop (length (zadd e view.members) - read_model_window) (zadd e view.members),
      )

  -- Trimming moves what it removes to the counter.
  pub project-count :
      length (project e view).members + (project e view).evicted
      ≡ suc (length (zrem e.job_id view.members)) + view.evicted
  unfolding project zadd
  project-count = omega (
    arith,
    length-drop (length (zadd e view.members) - read_model_window) (zadd e view.members),
    length-insert e (zrem e.job_id view.members),
  )

length-zrem_exact : (job : ℕ) (es : List Entry) → length (zrem job es) + times job es ≡ length es
unfolding zrem
length-zrem_exact job [] = omega arith
length-zrem_exact job (e ∷ es) = ground (arith, length-zrem_exact job es)

times-holds :
    (job : ℕ) (es : List Entry) → times job es ≤ 1 → times job es ≡ (if holds job es then 1 else 0)
times-holds job [] le = refl
times-holds job (e ∷ es) le = ground (arith, times-holds job es)

-- A projection onto a view that holds the job once at most counts it once: the view's count, of which
-- the trimmed members are a part, grows by one where the job was not in the view, and stays where it
-- was, however many members the projection trims.
pub project_counts :
    (e : Entry) (view : View)
    → times e.job_id view.members ≤ 1
    → member_count (project e view)
      ≡ member_count view + (if holds e.job_id view.members then 0 else 1)
project_counts e view once = elim (Bool-cases (holds e.job_id view.members)) [
  | inl h ↦ rw h (
      omega (
        arith,
        project-count e view,
        length-zrem_exact e.job_id view.members,
        times-holds e.job_id view.members once ∙ ap (λ b. if b then 1 else 0) h,
      ))
  | inr h ↦ rw h (
      omega (
        arith,
        project-count e view,
        length-zrem_exact e.job_id view.members,
        times-holds e.job_id view.members once ∙ ap (λ b. if b then 1 else 0) h,
      ))
]
