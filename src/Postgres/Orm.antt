-- ===== src/Postgres/Orm.antt =====
-- The rows of the table `executions` (execution_engine/infrastructure/postgres/models.py), how an
-- execution becomes a row and back, and what the methods of the repository write to a row.
use application_as_service.Prelude.{
  ℕ, ◌+◌, ◌*◌, String, Bool, true, false, Option, none, some, List, ltb, leb,
}
use application_as_service.Time.{DateTime, naive, aware}
use application_as_service.Value.{Value}
use application_as_service.Integers.{ℤ}
use application_as_service.Execution.{Uuid, ExecutionState, claimed, started, Execution}

-- A row. A column of type `DateTime` holds a time without time zone.
pub record ExecutionOrm : Type 0 where
  pub execution_id : Uuid
  pub tenant_id : Uuid
  pub application_id : Uuid
  pub deployment_id : Option Uuid
  pub step_execution_id : Option Uuid
  pub execution_type : String
  pub target_resource_id : Option Uuid
  pub runtime_type : String
  pub spec : Value
  pub state : ExecutionState
  pub created_at : ℕ
  pub queued_at : Option ℕ
  pub claimed_at : Option ℕ
  pub started_at : Option ℕ
  pub finished_at : Option ℕ
  pub lease_owner : Option String
  pub lease_expires_at : Option ℕ
  pub deployment_result : Option Value
  pub error_message : Option String
  pub retry_count : ℕ
  pub max_retries : ℕ
  pub priority : ℤ
  pub version : ℕ

abbrev pub Rows : Type 0
Rows = List ExecutionOrm

abbrev pub row_id : ExecutionOrm → Uuid
row_id row = row.execution_id

abbrev pub read_time : Option ℕ → Option DateTime
read_time none = none
read_time (some t) = some (naive t)

unfoldable pub orm_to_domain : ExecutionOrm → Execution
orm_to_domain orm = record {
  execution_id = orm.execution_id;
  tenant_id = orm.tenant_id;
  application_id = orm.application_id;
  deployment_id = orm.deployment_id;
  step_execution_id = orm.step_execution_id;
  execution_type = orm.execution_type;
  target_resource_id = orm.target_resource_id;
  runtime_type = orm.runtime_type;
  spec = orm.spec;
  state = orm.state;
  created_at = naive orm.created_at;
  queued_at = read_time orm.queued_at;
  claimed_at = read_time orm.claimed_at;
  started_at = read_time orm.started_at;
  finished_at = read_time orm.finished_at;
  lease_owner = orm.lease_owner;
  lease_expires_at = read_time orm.lease_expires_at;
  deployment_result = orm.deployment_result;
  error_message = orm.error_message;
  retry_count = orm.retry_count;
  max_retries = orm.max_retries;
  priority = orm.priority;
  version = orm.version;
}

-- `expiry and expiry > now`, on a column
abbrev pub still_runs : Option ℕ → ℕ → Bool
still_runs none now = false
still_runs (some expiry) now = ltb now expiry

-- `not expiry or expiry <= now`, on a column
abbrev pub has_lapsed : Option ℕ → ℕ → Bool
has_lapsed none now = true
has_lapsed (some expiry) now = leb expiry now

abbrev pub read_row : Option ExecutionOrm → Option Execution
read_row none = none
read_row (some row) = some (orm_to_domain row)

-- What the methods write to the row that they have locked.
abbrev pub claimed_row : ℕ → String → ℕ → ExecutionOrm → ExecutionOrm
claimed_row now worker_id lease_seconds row = record row {
  state = claimed;
  lease_owner = some worker_id;
  lease_expires_at = some (now + lease_seconds * 1000000);
  claimed_at = some now;
  version = row.version + 1;
}

abbrev pub started_row : ℕ → ExecutionOrm → ExecutionOrm
started_row now row = record row {
  state = started;
  started_at = some now;
  version = row.version + 1;
}

abbrev pub renewed_row : ℕ → ℕ → ExecutionOrm → ExecutionOrm
renewed_row now lease_seconds row = record row {
  lease_expires_at = some (now + lease_seconds * 1000000);
  version = row.version + 1;
}

abbrev pub final_row : ℕ → ExecutionState → ExecutionOrm → ExecutionOrm
final_row now final_state row = record row {
  state = final_state;
  finished_at = some now;
  lease_owner = none;
  lease_expires_at = none;
  version = row.version + 1;
}

module _ (local : ℕ → ℕ) where
  -- What a column without time zone keeps of a time.
  abbrev pub column : DateTime → ℕ
  column (naive t) = t
  column (aware t) = local t

  abbrev pub write_time : Option DateTime → Option ℕ
  write_time none = none
  write_time (some t) = some (column t)

  unfoldable pub domain_to_orm : Execution → ExecutionOrm
  domain_to_orm e = record {
    execution_id = e.execution_id;
    tenant_id = e.tenant_id;
    application_id = e.application_id;
    deployment_id = e.deployment_id;
    step_execution_id = e.step_execution_id;
    execution_type = e.execution_type;
    target_resource_id = e.target_resource_id;
    runtime_type = e.runtime_type;
    spec = e.spec;
    state = e.state;
    created_at = column e.created_at;
    queued_at = write_time e.queued_at;
    claimed_at = write_time e.claimed_at;
    started_at = write_time e.started_at;
    finished_at = write_time e.finished_at;
    lease_owner = e.lease_owner;
    lease_expires_at = write_time e.lease_expires_at;
    deployment_result = e.deployment_result;
    error_message = e.error_message;
    retry_count = e.retry_count;
    max_retries = e.max_retries;
    priority = e.priority;
    version = e.version;
  }

  abbrev pub updated_row : Execution → ExecutionOrm → ExecutionOrm
  updated_row e current = record current {
    state = e.state;
    lease_owner = e.lease_owner;
    lease_expires_at = write_time e.lease_expires_at;
    queued_at = write_time e.queued_at;
    started_at = write_time e.started_at;
    finished_at = write_time e.finished_at;
    deployment_result = e.deployment_result;
    error_message = e.error_message;
    retry_count = e.retry_count;
    version = e.version;
  }
