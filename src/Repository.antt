-- ===== src/Repository.antt =====
-- execution_engine/core/repository.py: the persistence contract that the execution service and the
-- retry service use. Both implementations (Memory, Postgres) give its operations over a state of
-- their own. A number that comes first is the reading of the clock that the operation takes.
use application_as_service.Prelude.{ℕ, String, Bool, Option, List}
use application_as_service.Outcome.{Action}
use application_as_service.Execution.{Uuid, Execution, ExecutionState}

pub record Repository (S : Type 0) : Type 0 where
  pub create : Execution → Action S (Unit {0})
  pub get : Uuid → S → Option Execution
  pub update : Execution → Action S (Unit {0})
  pub list_by_state : ExecutionState → ℕ → S → List Execution
  pub try_claim : ℕ → Uuid → String → ℕ → Action S Bool
  pub renew_lease : ℕ → Uuid → String → ℕ → Action S (Unit {0})
  pub start : ℕ → Uuid → String → Action S (Unit {0})
  pub finalize : ℕ → Uuid → String → ExecutionState → Action S (Unit {0})
