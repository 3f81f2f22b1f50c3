-- ===== src/Examples/Sagas.antt =====
-- The theorem on the creation of a saga, at a saga of three steps.
use incident_platform.Examples.{db, env}
use incident_platform.Prelude.{◌≡◌, refl, none, List, [], ◌∷◌, ◌++◌, arith}
use incident_platform.Store.{pending, saga_running, Job, Db, Saga}
use incident_platform.JobService.{
  Result, ok, err, create_job, create_or_existing, create_new, load_parents, insert_or_winner,
  or_not_found, add_dependencies, initial_status, new_row,
}
use incident_platform.JobService.Inserted.{Announced}
use incident_platform.SagaService.{SagaStep, create_saga, create_steps, new_saga, step_job}
use incident_platform.SagaService.Steps.{Fresh}
use incident_platform.SagaService.Chain.{IsChain, chain_edges, create_saga-IsChain}

abbrev steps : List SagaStep
steps =
    record { type = "csv_upload"; payload = none; priority = 0 }
    ∷ record { type = "report_gen"; payload = none; priority = 0 }
    ∷ record { type = "doc_analysis"; payload = none; priority = 0 }
    ∷ []

abbrev saga_db : Result (Saga × Db) → Db
saga_db (ok (saga, d)) = d
saga_db (err e) = db

abbrev created : Db
created = saga_db (create_saga env (λ i d. d) 7 100 "release" steps db)

db-Fresh : Fresh db
db-Fresh = (
  omega arith,
  (
    omega arith,
    (omega arith, (omega arith, (omega arith, (omega arith, (omega arith, (omega arith, tt)))))),
  ),
)

create_saga-IsChain_example :
    (first : Job) × (rows : List Job) × (created.jobs ≡ db.jobs ++ first ∷ rows)
    × IsChain env 7 100 51 0 pending steps (first ∷ rows)
    × (created.edges ≡ db.edges ++ chain_edges first.id rows)
    × Announced first db.outbox created.outbox
    × (created.sagas ≡ db.sagas ++ new_saga 20 100 "release" 51 ∷ [])
    × ((new_saga 20 100 "release" 51).status ≡ saga_running)
    × ((new_saga 20 100 "release" 51).tenant_id ≡ 100)
unfolding create_saga create_steps step_job create_job create_or_existing create_new load_parents
    insert_or_winner or_not_found add_dependencies initial_status new_row
create_saga-IsChain_example =
    create_saga-IsChain env 7 100 "release" steps db created (new_saga 20 100 "release" 51) db-Fresh
      refl
