-- ===== src/Examples.antt =====
-- Sample data for the tests: one execution in its states, one row, and the world around them.
mod Leases
mod Calls
mod Rounds
mod Workers
mod Stores
mod Containers
mod Executors
mod Platform
mod Deploying
mod Configured
mod Requests
mod Nodes
use application_as_service.Prelude.{ℕ, ◌+◌, none, some, List, [], ◌∷◌, String, refl, ◌≡◌}
use application_as_service.Time.{naive, aware}
use application_as_service.Value.{Value, Fields}
use application_as_service.Integers.{pos}
use application_as_service.Execution
use application_as_service.Execution.{Execution}
use application_as_service.Events.{Emitter, printing, silent}
use application_as_service.Postgres.{
  ExecutionOrm, Rows, claimed_row, started_row, final_row, domain_to_orm,
}
use application_as_service.Service.{World}
use application_as_service.Service.Calls.{PostgresWorld}

-- A database session in a zone one hour east of UTC.
abbrev pub session : ℕ → ℕ
session t = t + 3600000000

abbrev pub fresh : Execution
fresh = record {
  execution_id = 7;
  tenant_id = 1;
  application_id = 2;
  deployment_id = none;
  step_execution_id = none;
  execution_type = "deployment";
  target_resource_id = none;
  runtime_type = "docker";
  spec = Value.object (Fields.field "image" (Value.text "nginx") Fields.no_fields);
  state = Execution.created;
  created_at = aware 1000;
  queued_at = none;
  claimed_at = none;
  started_at = none;
  finished_at = none;
  lease_owner = none;
  lease_expires_at = none;
  deployment_result = none;
  error_message = none;
  retry_count = 0;
  max_retries = 3;
  priority = pos 5;
  version = 0;
}

abbrev pub fresh_row : ExecutionOrm
fresh_row = record {
  execution_id = 7;
  tenant_id = 1;
  application_id = 2;
  deployment_id = none;
  step_execution_id = none;
  execution_type = "deployment";
  target_resource_id = none;
  runtime_type = "docker";
  spec = Value.object (Fields.field "image" (Value.text "nginx") Fields.no_fields);
  state = Execution.created;
  created_at = 1000;
  queued_at = none;
  claimed_at = none;
  started_at = none;
  finished_at = none;
  lease_owner = none;
  lease_expires_at = none;
  deployment_result = none;
  error_message = none;
  retry_count = 0;
  max_retries = 3;
  priority = pos 5;
  version = 0;
}

abbrev pub queued_row : ExecutionOrm
queued_row = record fresh_row { state = Execution.queued; queued_at = some 2000; version = 1 }

abbrev pub leased_row : ExecutionOrm
leased_row = claimed_row 3000 "w1" 60 queued_row

abbrev pub running_row : ExecutionOrm
running_row = started_row 4000 leased_row

abbrev pub failed_row : ExecutionOrm
failed_row = record (final_row 5000 Execution.failed running_row) { error_message = some "timeout" }

abbrev pub other_row : ExecutionOrm
other_row = record queued_row { execution_id = 8; priority = pos 9 }

abbrev pub empty_world : PostgresWorld
empty_world = record { store = []; emitters = printing [] ∷ silent ∷ [] }
