-- ===== src/ReadModel.antt =====
-- workers/read_model.py: the status views of the jobs, kept in Redis by the projector. A view is a
-- sorted set as a list in the order of its scores, with the counter of what its trims removed.
-- Of members with one score the earlier added comes first, where Redis goes by their texts.
-- Expiries, and keys of the type that an earlier deployment wrote, are left out.
pub mod Views
pub mod Exclusive
pub mod Projected
use incident_platform.Prelude.{
  ℕ, ◌+◌, ◌-◌, Bool, true, false, not, ◌&&◌, ◌||◌, Option, none, some, List, [], ◌∷◌, String,
  str_eq, ◌==◌, leb, ltb, if◌then◌else◌, length, any, drop,
}

pub data Status : Type 0 where
  running completed failed dead_letter cancelled : Status

-- The statuses are compared by their numbers.
abbrev pub number_of : Status → ℕ
number_of running = 0
number_of completed = 1
number_of failed = 2
number_of dead_letter = 3
number_of cancelled = 4

abbrev pub same_tracked : Status → Status → Bool
same_tracked a b = number_of a == number_of b

abbrev pub tracked_statuses : List Status
tracked_statuses = running ∷ completed ∷ failed ∷ dead_letter ∷ cancelled ∷ []

abbrev pub is_terminal : Status → Bool
is_terminal completed = true
is_terminal dead_letter = true
is_terminal cancelled = true
is_terminal _ = false

abbrev pub read_model_window : ℕ
read_model_window = 10000

pub record Entry : Type 0 where
  pub job_id : ℕ
  pub score : ℕ

-- `_tenant_key` and `_user_key`, up to the status.
pub data Scope : Type 0 where
  tenant : (id : ℕ) → Scope
  user : (id : ℕ) → Scope

abbrev pub same_scope : Scope → Scope → Bool
same_scope (tenant a) (tenant b) = a == b
same_scope (user a) (user b) = a == b
same_scope _ _ = false

pub record View : Type 0 where
  pub members : List Entry
  pub evicted : ℕ

abbrev pub Views : Type 0
Views = Scope → Status → View

abbrev pub change : Scope → Status → (View → View) → Views → Views
change scope status f views s st =
    if same_scope scope s && same_tracked status st then f (views s st) else views s st

abbrev pub is_job : ℕ → Entry → Bool
is_job job_id e = e.job_id == job_id

-- ZREM, ZADD and ZSCORE.
unfoldable pub zrem : ℕ → List Entry → List Entry
zrem job_id [] = []
zrem job_id (e ∷ es) = let rest = zrem job_id es in if is_job job_id e then rest else e ∷ rest

unfoldable pub insert : Entry → List Entry → List Entry
insert e [] = e ∷ []
insert e (f ∷ fs) = let rest = insert e fs in if ltb e.score f.score then e ∷ f ∷ fs else f ∷ rest

unfoldable pub zadd : Entry → List Entry → List Entry
unfolding zrem insert
zadd e es = insert e (zrem e.job_id es)

abbrev pub holds : ℕ → List Entry → Bool
holds job_id es = any (is_job job_id) es

-- `_project`, on the view of one key: the oldest members are trimmed and counted.
unfoldable pub project : Entry → View → View
unfolding zadd
project e view =
    let added = zadd e view.members in
    let overflow = length added - read_model_window in
    record { members = drop overflow added; evicted = view.evicted + overflow }

-- `_member_count`.
abbrev pub member_count : View → ℕ
member_count view = length view.members + view.evicted

abbrev pub without : ℕ → View → View
without job_id view = record view { members = zrem job_id view.members }

unfoldable pub remove_others : Scope → Scope → ℕ → Status → List Status → Views → Views
unfolding zrem
remove_others t u job_id new_status [] views = views
remove_others t u job_id new_status (st ∷ sts) views =
    let rest = remove_others t u job_id new_status sts in
    if same_tracked st new_status
    then rest views
    else rest (change u st (without job_id) (change t st (without job_id) views))

unfoldable pub move : ℕ → ℕ → Entry → Status → Views → Views
unfolding remove_others project
move tenant_id user_id e new_status views =
    let t = tenant tenant_id in
    let u = user user_id in
    let removed = remove_others t u e.job_id new_status tracked_statuses views in
    change u new_status (project e) (change t new_status (project e) removed)

-- The fields of a message, none where a field is missing or empty.
pub record StatusEvent : Type 0 where
  pub job_id : Option ℕ
  pub user_id : Option ℕ
  pub tenant_id : Option ℕ
  pub event : Option String
  pub dead_lettered : Bool

unfoldable pub new_status_of : String → Bool → Option Status
new_status_of event dead_lettered =
    if str_eq event "job.failed"
    then some (if dead_lettered then dead_letter else failed)
    else if str_eq event "job.progress"
    then some running
    else if str_eq event "job.completed"
    then some completed
    else if str_eq event "job.cancelled"
    then some cancelled
    else none

-- The guard: the tenant's terminal views are asked for the job.
abbrev pub in_terminal : ℕ → ℕ → Views → Bool
in_terminal tenant_id job_id views =
    any (λ st. is_terminal st && holds job_id (views (tenant tenant_id) st).members)
      tracked_statuses

unfoldable pub settle : ℕ → ℕ → ℕ → ℕ → Option Status → Views → Views
unfolding move
settle now job_id user_id tenant_id none views = views
settle now job_id user_id tenant_id (some new_status) views =
    if not (is_terminal new_status) && in_terminal tenant_id job_id views
    then views
    else move tenant_id user_id (record { job_id = job_id; score = now }) new_status views

unfoldable pub handle_fields :
    ℕ → Option ℕ → Option ℕ → Option ℕ → Option String → Bool → Views → Views
unfolding settle new_status_of
handle_fields now (some job_id) (some user_id) (some tenant_id) (some event) dead_lettered views =
    settle now job_id user_id tenant_id (new_status_of event dead_lettered) views
handle_fields now _ _ _ _ dead_lettered views = views

-- `handle_message`.
unfoldable pub project_event : ℕ → StatusEvent → Views → Views
unfolding handle_fields
project_event now value views =
    handle_fields now value.job_id value.user_id value.tenant_id value.event value.dead_lettered
      views
