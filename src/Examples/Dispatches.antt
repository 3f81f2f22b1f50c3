-- ===== src/Examples/Dispatches.antt =====
-- The theorems on the dispatcher's tasks, at one with room for two tasks that runs job 1.
use incident_platform.Prelude.{◌≡◌, refl, true, false, some, [], ◌∷◌, member}
use incident_platform.Dispatch.{Dispatcher, new_dispatcher, accepted, handle_message, acquire_slot}
use incident_platform.Dispatch.Held.{
  start, next, receives, acquires, IsBounded, dispatch-IsBounded, redelivery_drops_claim, runs,
  redelivered,
}

dispatch-IsBounded_example :
    IsBounded 2 1 (acquire_slot 0 (handle_message (some 1) (new_dispatcher 2 1)).1)
dispatch-IsBounded_example =
    dispatch-IsBounded 2 1 (acquire_slot 0 (handle_message (some 1) (new_dispatcher 2 1)).1)
      (next (next start (receives (some 1))) (acquires 0))

abbrev busy : Dispatcher
busy = record {
  max_dispatch_backlog = 2;
  free_slots = 1;
  in_flight = record { job_id = 1; has_slot = true } ∷ [];
  in_flight_job_ids = 1 ∷ [];
}

redelivery_drops_claim_example :
    ((handle_message (some 1) busy).0 ≡ accepted)
    × ((redelivered 1 busy).in_flight ≡ busy.in_flight)
    × ((redelivered 1 busy).free_slots ≡ 1)
    × (runs 1 (redelivered 1 busy) ≡ true)
    × (member 1 (redelivered 1 busy).in_flight_job_ids ≡ false)
redelivery_drops_claim_example = redelivery_drops_claim 1 busy refl refl refl
