-- ===== src/Domain/Resources.antt =====
-- The deployed resources: `DeployedResource` of execution_engine/domain/models.py, the table
-- `deployed_resources` of infrastructure/postgres/models.py, and class DeployedResourceRepository of
-- infrastructure/postgres/domain_repository.py.
use application_as_service.Prelude.{ℕ, String, Option, none, some, List, [], ◌∷◌, ◌++◌}
use application_as_service.Prelude.Table
use application_as_service.Outcome.{ok, err, Action, concurrency_error}
use application_as_service.Time.{DateTime, naive}
use application_as_service.Value.{Value}
use application_as_service.Execution.{Uuid}
use application_as_service.Postgres.{column, write_time, read_time}
use application_as_service.Domain.{HealthStatus}
use application_as_service.Domain.Deployments
use application_as_service.Domain.Deployments.{DeploymentOrm}
use application_as_service.Nodes.Table.{NodeRows, row_id as node_id_of}

pub data ResourceType : Type 0 where
  container database volume network : ResourceType

pub record DeployedResource : Type 0 where
  pub resource_id : Uuid
  pub deployment_id : Uuid
  pub resource_type : ResourceType
  pub external_id : String
  pub node_id : Uuid
  pub name : String
  pub spec : Value
  pub status : String
  pub health_status : HealthStatus
  pub consecutive_health_failures : ℕ
  pub last_health_check_at : Option DateTime
  pub created_at : DateTime

pub record DeployedResourceOrm : Type 0 where
  pub resource_id : Uuid
  pub deployment_id : Uuid
  pub resource_type : ResourceType
  pub external_id : String
  pub node_id : Uuid
  pub name : String
  pub spec : Value
  pub status : String
  pub health_status : HealthStatus
  pub consecutive_health_failures : ℕ
  pub last_health_check_at : Option ℕ
  pub created_at : ℕ

abbrev pub Resources : Type 0
Resources = List DeployedResourceOrm

abbrev pub row_id : DeployedResourceOrm → Uuid
row_id row = row.resource_id

abbrev pub to_domain : DeployedResourceOrm → DeployedResource
to_domain orm = record {
  resource_id = orm.resource_id;
  deployment_id = orm.deployment_id;
  resource_type = orm.resource_type;
  external_id = orm.external_id;
  node_id = orm.node_id;
  name = orm.name;
  spec = orm.spec;
  status = orm.status;
  health_status = orm.health_status;
  consecutive_health_failures = orm.consecutive_health_failures;
  last_health_check_at = read_time orm.last_health_check_at;
  created_at = naive orm.created_at;
}

abbrev pub read_row : Option DeployedResourceOrm → Option DeployedResource
read_row none = none
read_row (some row) = some (to_domain row)

unfoldable pub get : Uuid → Resources → Option DeployedResource
get id rows = read_row (Table.find row_id id rows)

module _ (local : ℕ → ℕ) where
  abbrev pub resource_to_orm : DeployedResource → DeployedResourceOrm
  resource_to_orm r = record {
    resource_id = r.resource_id;
    deployment_id = r.deployment_id;
    resource_type = r.resource_type;
    external_id = r.external_id;
    node_id = r.node_id;
    name = r.name;
    spec = r.spec;
    status = r.status;
    health_status = r.health_status;
    consecutive_health_failures = r.consecutive_health_failures;
    last_health_check_at = write_time local r.last_health_check_at;
    created_at = column local r.created_at;
  }

  -- A duplicate key is an error, and so are a deployment and a node that are not in the tables to
  -- which the columns are foreign keys.
  unfoldable pub create :
      {F : Type 0}
      → List DeploymentOrm
      → NodeRows F
      → DeployedResource
      → Action Resources (Unit {0})
  create deployments nodes r rows = elim (Table.find row_id r.resource_id rows) [
    | some old ↦ (err concurrency_error, rows)
    | none ↦ elim (Table.find Deployments.row_id r.deployment_id deployments) [
      | none ↦ (err concurrency_error, rows)
      | some deployment ↦ elim (Table.find node_id_of r.node_id nodes) [
        | none ↦ (err concurrency_error, rows)
        | some node ↦ (ok tt, rows ++ resource_to_orm r ∷ [])
      ]
    ]
  ]

  abbrev pub updated_row : DeployedResource → DeployedResourceOrm → DeployedResourceOrm
  updated_row r orm = record orm {
    external_id = r.external_id;
    status = r.status;
    health_status = r.health_status;
    consecutive_health_failures = r.consecutive_health_failures;
    last_health_check_at = write_time local r.last_health_check_at;
    spec = r.spec;
  }

  unfoldable pub update : DeployedResource → Action Resources (Unit {0})
  update r rows = elim (Table.find row_id r.resource_id rows) [
    | none ↦ (err concurrency_error, rows)
    | some orm ↦ (ok tt, Table.replace row_id (updated_row r orm) rows)
  ]
