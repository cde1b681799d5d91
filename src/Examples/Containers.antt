-- ===== src/Examples/Containers.antt =====
-- The theorems on the slots and on the health checker, at sample slots and resources.
use application_as_service.Prelude.{
  All, ℕ, ◌+◌, ◌≡◌, refl, none, some, List, [], ◌∷◌, arith, length,
}
use application_as_service.Prelude.Table
use application_as_service.Outcome.{ok}
use application_as_service.Value.{Value, Fields}
use application_as_service.Domain
use application_as_service.Domain.{Deployment, ApplicationStatus, DeploymentStatus, dictionary}
use application_as_service.Domain.Resources
use application_as_service.Domain.Resources.{DeployedResourceOrm}
use application_as_service.Execution.{Uuid}
use application_as_service.Slots.{Slots, slot_manager, range_slots, take_slot, free_slots, acquire}
use application_as_service.Slots.Counting.{HasDistinctIds, counter_of}
use application_as_service.Slots.Bags.{occurrences}
use application_as_service.Slots.Held.{Refuses, held, serve, handle-serve}
use application_as_service.Slots.Refinement.{Request, finish, handle, take_slot-refines}
use application_as_service.HealthChecker.{Checked}
use application_as_service.HealthChecker.Strikes.{strikes, strikes_restart_once}
use application_as_service.Examples.{session}

abbrev two_slots : Slots
two_slots =
    record { slot_id = 0; execution_id = some 7 } ∷ record { slot_id = 1; execution_id = none } ∷ []

two_slots-HasDistinctIds : HasDistinctIds two_slots
two_slots-HasDistinctIds = (((λ e. ground arith), tt), (tt, tt))

take_slot-refines_example :
    ((take_slot 8 two_slots).0 ≡ ok (acquire (counter_of two_slots)).0)
    × (counter_of (take_slot 8 two_slots).1 ≡ (acquire (counter_of two_slots)).1)
take_slot-refines_example = take_slot-refines 8 two_slots two_slots-HasDistinctIds

abbrev work : List Request
work = Request.take 7 ∷ Request.take 8 ∷ Request.take 9 ∷ finish 7 ∷ []

made : slot_manager 2 ≡ ok (range_slots 2)
unfolding slot_manager
made = refl

handle-serve_example :
    ((j : Uuid)
      → occurrences j (held (handle work (range_slots 2))) ≡ occurrences j (serve 2 work []))
    × (free_slots (handle work (range_slots 2)) + length (serve 2 work []) ≡ 2)
    × ((j : Uuid) → All (Refuses j (handle work (range_slots 2))) (handle work (range_slots 2)))
handle-serve_example = handle-serve 2 (range_slots 2) work made

abbrev box : DeployedResourceOrm
box = record {
  resource_id = 3;
  deployment_id = 4;
  resource_type = Resources.container;
  external_id = "web";
  node_id = 6;
  name = "web";
  spec = Value.object Fields.no_fields;
  status = "running";
  health_status = Domain.healthy;
  consecutive_health_failures = 0;
  last_health_check_at = none;
  created_at = 40;
}

abbrev checked : DeployedResourceOrm → Checked
checked row = record { resources = row ∷ []; restarts = [] }

box_found :
    (n : ℕ)
    → Table.find Resources.row_id 3 (record box { consecutive_health_failures = n } ∷ [])
      ≡ some (record box { consecutive_health_failures = n })
unfolding Table.find
box_found n = refl

strikes_restart_once_example :
    (row' : DeployedResourceOrm) × (Table.find Resources.row_id 3
        (strikes session 3 "http://n1" (10 ∷ 20 ∷ 30 ∷ 40 ∷ []) 3 (checked box)).resources
      ≡ some row')
    × (row'.consecutive_health_failures ≡ 4)
    × (row'.health_status ≡ Domain.unhealthy)
    × ((strikes session 3 "http://n1" (10 ∷ 20 ∷ 30 ∷ 40 ∷ []) 3 (checked box)).restarts
        ≡ "web" ∷ [])
strikes_restart_once_example =
    strikes_restart_once session 3 "http://n1" (10 ∷ 20 ∷ 30 ∷ 40 ∷ []) 3 (checked box) box
      (omega arith) (box_found 0) refl refl
