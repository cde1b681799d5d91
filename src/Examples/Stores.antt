-- ===== src/Examples/Stores.antt =====
-- The theorems on the final states and on the repository in memory, at sample executions.
use application_as_service.Prelude.{◌≡◌, ◌≢◌, ◌↔◌, refl, some, [], ◌∷◌, arith}
use application_as_service.Prelude.Table
use application_as_service.Outcome.{ok}
use application_as_service.Time.{aware, naive}
use application_as_service.Execution
use application_as_service.Execution.{Uuid, Execution, same_state}
use application_as_service.Execution.Transitions.{IsConsistent}
use application_as_service.Events.{printing}
use application_as_service.Memory.{Store}
use application_as_service.Memory
use application_as_service.Memory.Leases.{IsRecoverable, start_execution_never}
use application_as_service.Service.{World, start_execution}
use application_as_service.Validation.{
  candidate_of, validate_new_execution, IsNew, validate_new_execution_iff,
}
use application_as_service.Examples.{fresh}

abbrev finished : Execution
finished = record fresh {
  state = Execution.cancelled;
  finished_at = some (aware 9000);
  version = 1;
}

finished-IsConsistent : IsConsistent finished
finished-IsConsistent = ground arith

abbrev kept : Store
kept = fresh ∷ finished ∷ []

abbrev crashed : Execution
crashed = record fresh {
  state = Execution.started;
  lease_owner = some "w1";
  lease_expires_at = some (naive 100);
}

crashed-IsRecoverable : IsRecoverable 200 crashed
crashed-IsRecoverable = record { state = refl; lapsed = (100, refl, omega arith) }

known_crashed : Memory.get 7 (crashed ∷ []) ≡ some crashed
unfolding Memory.get Table.find
known_crashed = refl

abbrev memory_world : World Store
memory_world = record { store = crashed ∷ []; emitters = printing [] ∷ [] }

start_execution_never_example :
    (start_execution Memory.memory 50 51 52 7 "w1" memory_world).0 ≢ ok tt
start_execution_never_example = start_execution_never 50 51 52 7 "w1" memory_world

validate_new_execution_iff_example :
    (validate_new_execution (candidate_of fresh) ≡ ok tt) ↔ IsNew (candidate_of fresh)
validate_new_execution_iff_example = validate_new_execution_iff (candidate_of fresh)
