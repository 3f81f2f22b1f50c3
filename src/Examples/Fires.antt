-- ===== src/Examples/Fires.antt =====
-- The theorem on the firing of delayed replays, at a replay that a pause holds between two others.
use Prim.Native.String.{◌∷◌ as ◌∷∷◌}
use incident_platform.Examples.{db, env, paused_at}
use incident_platform.Prelude.{
  ℕ, zero, suc, String, ◌≡◌, refl, true, false, none, some, [], ◌∷◌, All,
}
use incident_platform.DagPause.{find_blocking_pause, collect_ancestors, walk, first_paused}
use incident_platform.Replays.{Replay, member}
use incident_platform.Replays.Claims.{armed_in}
use incident_platform.Firing.{Firing, Platform, fire_all}
use incident_platform.Firing.Fired.{fire_all-settles}

abbrev replay_of : ℕ → Replay
replay_of id = record { tenant_id = 100; principal_id = 9; job_id = id }

-- Ids written as so many marks.
abbrev marks : ℕ → String
marks zero = ""
marks (suc n) = "i" ∷∷ marks n

abbrev firing : Firing
firing = record {
  env = record env { paused = some (paused_at 3) };
  show = marks;
  read = λ s. none;
  fails = λ r. false;
  reaches = λ r. true;
}

abbrev platform : Platform
platform = record { db = db; sets = record { scheduled = []; inflight = [] }; cache = [] }

fire_all-settles_example :
    All
      (λ x.
        armed_in
          (member marks x)
          (fire_all firing (replay_of 4 ∷ replay_of 3 ∷ replay_of 6 ∷ []) platform).sets.inflight
        ≡ false)
      (replay_of 4 ∷ replay_of 3 ∷ replay_of 6 ∷ [])
    × All
        (λ x.
          armed_in
            (member marks x)
            (fire_all firing (replay_of 4 ∷ replay_of 3 ∷ replay_of 6 ∷ []) platform).sets.scheduled
          ≡ true)
        (replay_of 3 ∷ [])
unfolding find_blocking_pause collect_ancestors walk first_paused
fire_all-settles_example =
    fire_all-settles firing (replay_of 4 ∷ replay_of 3 ∷ replay_of 6 ∷ []) platform (λ x. refl)
