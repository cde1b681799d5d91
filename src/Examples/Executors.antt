-- ===== src/Examples/Executors.antt =====
-- The theorems on the executor, at sample machines.
use application_as_service.Prelude.{
  ℕ, ◌+◌, ◌≡◌, ◌==◌, if◌then◌else◌, refl, none, some, [], ◌∷◌, arith, String,
}
use application_as_service.Prelude.Table
use application_as_service.Outcome.{ok, Error}
use application_as_service.Value.{Value, Fields, lookup, put}
use application_as_service.Domain.{unknown, starting}
use application_as_service.Domain.Resources
use application_as_service.Domain.Resources.{DeployedResourceOrm}
use application_as_service.Execution
use application_as_service.Execution.{Uuid, Execution}
use application_as_service.Events.{printing}
use application_as_service.Postgres.{
  ExecutionOrm, row_id, orm_to_domain, claimed_row, started_row, final_row, list_by_state,
  rows_by_state, order_rows,
}
use application_as_service.Slots.{Slot, slot_key, Slots, acquire_free_slot, give_back}
use application_as_service.Slots.Counting.{HasDistinctIds}
use application_as_service.Executor.{Machine, remember, forget, claim_and_execute}
use application_as_service.Executor.Taking.{claim_and_execute_idle, claim_and_execute_starts}
use application_as_service.Executor.Thread.{Deployed, done, Host, execute_in_thread, find_resource}
use application_as_service.Executor.Finishing.{
  result_row, execute_in_thread_releases, execute_in_thread_delivers,
}
use application_as_service.Examples.{session, queued_row, running_row}

abbrev tick : ℕ → ℕ
tick i = 4000 + i

abbrev two_slots : Slots
two_slots =
    record { slot_id = 0; execution_id = some 9 } ∷ record { slot_id = 1; execution_id = none } ∷ []

abbrev open_slot : Slot
open_slot = record { slot_id = 1; execution_id = none }

two_slots-HasDistinctIds : HasDistinctIds two_slots
two_slots-HasDistinctIds = (((λ e. ground arith), tt), (tt, tt))

abbrev machine_with : ExecutionOrm → Machine
machine_with row = record {
  world = record { store = row ∷ []; emitters = printing [] ∷ [] };
  slots = two_slots;
  running = 9 ∷ [];
}

nothing_waits : list_by_state Execution.queued 1 none (running_row ∷ []) ≡ []
unfolding list_by_state rows_by_state order_rows
nothing_waits = refl

claim_and_execute_idle_example :
    claim_and_execute session "w2" 60 tick 0 (machine_with running_row)
    ≡ (ok tt, machine_with running_row)
claim_and_execute_idle_example =
    claim_and_execute_idle session "w2" 60 tick 0 (machine_with running_row)
      two_slots-HasDistinctIds nothing_waits

found_slot : acquire_free_slot two_slots ≡ some open_slot
unfolding acquire_free_slot
found_slot = refl

one_waits : list_by_state Execution.queued 1 none (queued_row ∷ []) ≡ orm_to_domain queued_row ∷ []
unfolding list_by_state rows_by_state order_rows
one_waits = refl

queued_found :
    Table.find row_id (orm_to_domain queued_row).execution_id (queued_row ∷ []) ≡ some queued_row
unfolding Table.find orm_to_domain
queued_found = refl

claim_and_execute_starts_example :
    (m' : Machine) × (claim_and_execute session "w2" 60 tick 0 (machine_with queued_row)
      ≡ (ok tt, m'))
    × (Table.find row_id (orm_to_domain queued_row).execution_id m'.world.store
        ≡ some (started_row 4003 (claimed_row 4000 "w2" 60 queued_row)))
    × (m'.slots
        ≡ Table.replace slot_key
            (record open_slot { execution_id = some (orm_to_domain queued_row).execution_id })
            two_slots)
    × (m'.running ≡ remember (orm_to_domain queued_row).execution_id (9 ∷ []))
claim_and_execute_starts_example =
    claim_and_execute_starts session "w2" 60 tick 0 (machine_with queued_row) open_slot
      (orm_to_domain queued_row) queued_row found_slot one_waits queued_found refl refl
      (omega arith) (omega arith)

abbrev text_of_uuid : Uuid → String
text_of_uuid id = "7"

abbrev text_of_error : Error → String
text_of_error x = "error"

abbrev deploy_once : Uuid → Value → Deployed
deploy_once id spec =
    done "web" (Value.object (Fields.field "container_id" (Value.text "web") Fields.no_fields))

abbrev host : Host
host = record { machine = machine_with running_row; resources = [] }

execute_in_thread_releases_example :
    ((execute_in_thread session "w1" text_of_uuid text_of_error deploy_once tick 7
        host).machine.slots
      ≡ give_back 7 two_slots)
    × ((execute_in_thread session "w1" text_of_uuid text_of_error deploy_once tick 7
          host).machine.running
        ≡ forget 7 (9 ∷ []))
execute_in_thread_releases_example =
    execute_in_thread_releases session "w1" text_of_uuid text_of_error deploy_once tick 7 host

host_found : Table.find row_id 7 (running_row ∷ []) ≡ some running_row
unfolding Table.find
host_found = refl

abbrev outcome : Value
outcome = Value.object (Fields.field "container_id" (Value.text "web") Fields.no_fields)

abbrev named_seven : Fields
named_seven = Fields.field "execution_id" (Value.text "7") Fields.no_fields

abbrev waiting : DeployedResourceOrm
waiting = record {
  resource_id = 3;
  deployment_id = 4;
  resource_type = Resources.container;
  external_id = "pending";
  node_id = 6;
  name = "web";
  spec = Value.object named_seven;
  status = "pending";
  health_status = unknown;
  consecutive_health_failures = 0;
  last_health_check_at = none;
  created_at = 64;
}

abbrev awaited : Host
awaited = record { machine = machine_with running_row; resources = waiting ∷ [] }

waiting_sought : find_resource text_of_uuid 7 (waiting ∷ []) ≡ some waiting
unfolding find_resource lookup
waiting_sought = refl

waiting_kept : Table.find Resources.row_id 3 (waiting ∷ []) ≡ some waiting
unfolding Table.find
waiting_kept = refl

execute_in_thread_delivers_example :
    (Table.find row_id 7
        (execute_in_thread session "w1" text_of_uuid text_of_error deploy_once tick 7
          awaited).machine.world.store
      ≡ some (final_row 4001 Execution.completed (result_row outcome running_row)))
    × ((j : Uuid)
        → Table.find Resources.row_id j
            (execute_in_thread session "w1" text_of_uuid text_of_error deploy_once tick 7
              awaited).resources
          ≡ (if 3 == j
              then some (record waiting {
                external_id = "web";
                status = "running";
                health_status = starting;
                spec = Value.object (put "deployment_result" outcome named_seven);
              })
              else Table.find Resources.row_id j (waiting ∷ [])))
execute_in_thread_delivers_example =
    execute_in_thread_delivers session "w1" text_of_uuid text_of_error deploy_once tick 7 awaited
      running_row 60003000 "web" outcome waiting named_seven host_found refl refl refl (omega arith)
      (omega arith) refl refl waiting_sought waiting_kept refl
