-- ===== src/Domain/Deployments.antt =====
-- The repository of deployments: execution_engine/infrastructure/postgres/domain_repository.py,
-- class DeploymentRepository, and the table `deployments` of models.py. The class of the rows calls
-- its column `deployment_metadata`; `metadata` is the attribute of the declarative base. So `create`
-- leaves the column at its default, and `get` reads the attribute of the base.
use application_as_service.Prelude.{
  ◌≢◌, ◌⊎◌, inl, inr, Option-cases, ℕ, ◌≡◌, String, Bool, Option, none, some, List, [], ◌∷◌, ◌++◌,
  arith, if◌then◌else◌, ◌==◌,
}
use application_as_service.Prelude.Table
use application_as_service.Outcome.{ok, err, Action, concurrency_error}
use application_as_service.Time.{naive}
use application_as_service.Value.{Value, Fields}
use application_as_service.Execution.{Uuid}
use application_as_service.Postgres.{column, write_time, read_time}
use application_as_service.Postgres.Mapping.{stored_time}
use application_as_service.Domain.Applications
use application_as_service.Domain.Applications.{ApplicationOrm}
use application_as_service.Domain.{DeploymentStatus, Deployment, base_metadata}

pub record DeploymentOrm : Type 0 where
  pub deployment_id : Uuid
  pub application_id : Uuid
  pub tenant_id : Uuid
  pub template_id : String
  pub template_version : String
  pub resolved_config : Value
  pub status : DeploymentStatus
  pub current_step_index : ℕ
  pub total_steps : ℕ
  pub public_url : Option String
  pub internal_endpoints : Value
  pub error_message : Option String
  pub rollback_on_failure : Bool
  pub created_at : ℕ
  pub started_at : Option ℕ
  pub completed_at : Option ℕ
  pub deployment_metadata : Value

abbrev pub row_id : DeploymentOrm → Uuid
row_id row = row.deployment_id

abbrev pub to_domain : DeploymentOrm → Deployment
to_domain orm = record {
  deployment_id = orm.deployment_id;
  application_id = orm.application_id;
  tenant_id = orm.tenant_id;
  template_id = orm.template_id;
  template_version = orm.template_version;
  resolved_config = orm.resolved_config;
  status = orm.status;
  current_step_index = orm.current_step_index;
  total_steps = orm.total_steps;
  public_url = orm.public_url;
  internal_endpoints = orm.internal_endpoints;
  error_message = orm.error_message;
  rollback_on_failure = orm.rollback_on_failure;
  created_at = naive orm.created_at;
  started_at = read_time orm.started_at;
  completed_at = read_time orm.completed_at;
  metadata = base_metadata;
}

abbrev pub read_row : Option DeploymentOrm → Option Deployment
read_row none = none
read_row (some row) = some (to_domain row)

unfoldable pub get : Uuid → List DeploymentOrm → Option Deployment
get id rows = read_row (Table.find row_id id rows)

module _ (local : ℕ → ℕ) where
  abbrev pub deployment_to_orm : Deployment → DeploymentOrm
  deployment_to_orm d = record {
    deployment_id = d.deployment_id;
    application_id = d.application_id;
    tenant_id = d.tenant_id;
    template_id = d.template_id;
    template_version = d.template_version;
    resolved_config = d.resolved_config;
    status = d.status;
    current_step_index = d.current_step_index;
    total_steps = d.total_steps;
    public_url = d.public_url;
    internal_endpoints = d.internal_endpoints;
    error_message = d.error_message;
    rollback_on_failure = d.rollback_on_failure;
    created_at = column local d.created_at;
    started_at = write_time local d.started_at;
    completed_at = write_time local d.completed_at;
    deployment_metadata = Value.object Fields.no_fields;
  }

  -- A duplicate key is an error, and so is an application that is not in the table `applications`,
  -- to which the column is a foreign key.
  unfoldable pub create : List ApplicationOrm → Deployment → Action (List DeploymentOrm) (Unit {0})
  create applications d rows = elim (Table.find row_id d.deployment_id rows) [
    | some old ↦ (err concurrency_error, rows)
    | none ↦ elim (Table.find Applications.row_id d.application_id applications) [
      | none ↦ (err concurrency_error, rows)
      | some application ↦ (ok tt, rows ++ deployment_to_orm d ∷ [])
    ]
  ]

  abbrev pub updated_row : Deployment → DeploymentOrm → DeploymentOrm
  updated_row d orm = record orm {
    status = d.status;
    current_step_index = d.current_step_index;
    public_url = d.public_url;
    internal_endpoints = d.internal_endpoints;
    error_message = d.error_message;
    started_at = write_time local d.started_at;
    completed_at = write_time local d.completed_at;
  }

  unfoldable pub update : Deployment → Action (List DeploymentOrm) (Unit {0})
  update d rows = elim (Table.find row_id d.deployment_id rows) [
    | none ↦ (err concurrency_error, rows)
    | some orm ↦ (ok tt, Table.replace row_id (updated_row d orm) rows)
  ]

  -- A deployment that has been through the table.
  abbrev pub stored : Deployment → Deployment
  stored d = record d {
    created_at = naive (column local d.created_at);
    started_at = stored_time local d.started_at;
    completed_at = stored_time local d.completed_at;
    metadata = base_metadata;
  }

  pub read_back : (d : Deployment) → to_domain (deployment_to_orm d) ≡ stored d
  read_back d = ground arith

  -- The deployment is refused, nothing is written, and its id is taken or its application is not
  -- there.
  abbrev pub IsRefused : List ApplicationOrm → Deployment → List DeploymentOrm → Type 0
  IsRefused applications d rows =
      (create applications d rows ≡ (err concurrency_error, rows))
      × ((get d.deployment_id rows ≢ none)
          ⊎ (Applications.get d.application_id applications ≡ none))

  -- The deployment, whose id is new and whose application is there, is added.
  abbrev pub IsCreated : List ApplicationOrm → Deployment → List DeploymentOrm → Type 0
  IsCreated applications d rows =
      (get d.deployment_id rows ≡ none)
      × (Applications.get d.application_id applications ≢ none)
      × ((create applications d rows).0 ≡ ok tt)
      × ((j : Uuid)
          → get j (create applications d rows).1
            ≡ (if d.deployment_id == j then some (stored d) else get j rows))

  -- The creation of a deployment either raises ExecutionConcurrencyError and writes nothing, and
  -- its id is taken or its application is not in its table; or its id is new and its application
  -- is there, it returns, and get then gives it back with naive times and with the declarative
  -- base's own metadata object in place of its metadata, and gives the other deployments
  -- unchanged.
  pub get-create_metadata :
      (applications : List ApplicationOrm) (d : Deployment) (rows : List DeploymentOrm)
      → IsRefused applications d rows ⊎ IsCreated applications d rows
  unfolding create get Applications.get
  get-create_metadata applications d rows =
      elim (Option-cases (Table.find row_id d.deployment_id rows)) [
        | inr (old, taken) ↦ inl (ground arith, inl (λ e. ground arith))
        | inl new ↦
            elim (Option-cases (Table.find Applications.row_id d.application_id applications)) [
              | inl gone ↦ inl (ground arith, inr (ground arith))
              | inr (application, there) ↦ inr (
                ground arith,
                λ e. ground arith,
                ground arith,
                λ j. ground (
                  arith,
                  Table.find-append_if row_id (deployment_to_orm d) rows new j,
                  read_back d,
                ),
              )
            ]
      ]
