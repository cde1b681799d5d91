-- ===== src/Examples/Workers.antt =====
-- The theorems on the status updater and on the repository of deployments, at sample tables.
use application_as_service.Prelude.{
  ◌⊎◌, ℕ, ◌≡◌, ◌≢◌, refl, none, some, [], ◌∷◌, arith, true, false, All, Any, inl, sort_by,
}
use application_as_service.Prelude.Table
use application_as_service.Outcome.{ok}
use application_as_service.Value.{Value, Fields}
use application_as_service.Execution
use application_as_service.Execution.{Uuid, Execution, same_state}
use application_as_service.Postgres
use application_as_service.Postgres.{ExecutionOrm, Rows, orm_to_domain}
use application_as_service.Domain
use application_as_service.Domain.{Deployment, ApplicationStatus, DeploymentStatus, dictionary}
use application_as_service.Domain.Applications
use application_as_service.Domain.Applications.{ApplicationOrm}
use application_as_service.Domain.Deployments
use application_as_service.Domain.Deployments.{DeploymentOrm, get-create_metadata}
use application_as_service.StatusUpdater.{
  Tables, is_failed, is_completed, update_deployment, get_deployment_executions, errors_of,
  failure_message,
}
use application_as_service.StatusUpdater.Outcomes.{
  status_in, update_deployment_fails, update_deployment_runs, update_deployment_waits,
}
use application_as_service.Examples.{session, fresh_row, running_row, failed_row}

abbrev site : ApplicationOrm
site = record {
  application_id = 2;
  tenant_id = 1;
  template_id = "nginx";
  template_version = "1.0";
  name = "site";
  description = none;
  user_inputs = Value.object Fields.no_fields;
  current_deployment_id = some 4;
  status = Domain.creating;
  health_status = Domain.unknown;
  domain = none;
  public_url = none;
  ssl_enabled = false;
  resource_limits = none;
  created_at = 10;
  updated_at = 10;
  deleted_at = none;
}

abbrev rollout : DeploymentOrm
rollout = record {
  deployment_id = 4;
  application_id = 2;
  tenant_id = 1;
  template_id = "nginx";
  template_version = "1.0";
  resolved_config = Value.object Fields.no_fields;
  status = Domain.deploying;
  current_step_index = 0;
  total_steps = 1;
  public_url = none;
  internal_endpoints = Value.object Fields.no_fields;
  error_message = none;
  rollback_on_failure = true;
  created_at = 20;
  started_at = some 30;
  completed_at = none;
  deployment_metadata = Value.object Fields.no_fields;
}

abbrev onupdate : ApplicationOrm → ApplicationOrm → ℕ
onupdate before after = 77

abbrev tables : ExecutionOrm → Tables
tables e = record {
  executions = record e { deployment_id = some 4 } ∷ [];
  deployments = rollout ∷ [];
  applications = site ∷ [];
}

rollout_found : Table.find Deployments.row_id 4 (rollout ∷ []) ≡ some rollout
unfolding Table.find
rollout_found = refl

site_found : Table.find Applications.row_id 2 (site ∷ []) ≡ some site
unfolding Table.find
site_found = refl

abbrev done_row : ExecutionOrm
done_row = record fresh_row { state = Execution.completed }

executions_failed :
    get_deployment_executions 4 (tables failed_row).executions
    ≡ orm_to_domain (record failed_row { deployment_id = some 4 }) ∷ []
unfolding get_deployment_executions sort_by Postgres.get Table.find
executions_failed = refl

executions_done :
    get_deployment_executions 4 (tables done_row).executions
    ≡ orm_to_domain (record done_row { deployment_id = some 4 }) ∷ []
unfolding get_deployment_executions sort_by Postgres.get Table.find
executions_done = refl

executions_running :
    get_deployment_executions 4 (tables running_row).executions
    ≡ orm_to_domain (record running_row { deployment_id = some 4 }) ∷ []
unfolding get_deployment_executions sort_by Postgres.get Table.find
executions_running = refl

executions-Any :
    Any (λ e. is_failed e ≡ true) (get_deployment_executions 4 (tables failed_row).executions)
unfolding orm_to_domain
executions-Any = rw executions_failed (inl refl)

executions-All :
    All (λ e. is_completed e ≡ true) (get_deployment_executions 4 (tables done_row).executions)
unfolding orm_to_domain
executions-All = rw executions_done (refl, tt)

there_are : get_deployment_executions 4 (tables done_row).executions ≢ []
there_are = rw executions_done (λ e. ground arith)

none_failed :
    All (λ e. is_failed e ≡ false) (get_deployment_executions 4 (tables running_row).executions)
unfolding orm_to_domain
none_failed = rw executions_running (refl, tt)

one_running :
    Any (λ e. is_completed e ≡ false) (get_deployment_executions 4 (tables running_row).executions)
unfolding orm_to_domain
one_running = rw executions_running (inl refl)

update_deployment_fails_example :
    ((update_deployment session onupdate 9000 4 (tables failed_row)).0 ≡ ok tt)
    × (Table.find Deployments.row_id 4
          (update_deployment session onupdate 9000 4 (tables failed_row)).1.deployments
        ≡ some (record rollout {
          status = Domain.failed;
          completed_at = some (session 9000);
          error_message = some (
              failure_message
                (errors_of (get_deployment_executions 4 (tables failed_row).executions)));
        }))
    × (status_in 2 (update_deployment session onupdate 9000 4 (tables failed_row)).1.applications
        ≡ some ApplicationStatus.failed)
update_deployment_fails_example =
    update_deployment_fails session onupdate 9000 4 (tables failed_row) rollout site rollout_found
      refl site_found executions-Any

update_deployment_runs_example :
    ((update_deployment session onupdate 9000 4 (tables done_row)).0 ≡ ok tt)
    × (Table.find Deployments.row_id 4
          (update_deployment session onupdate 9000 4 (tables done_row)).1.deployments
        ≡ some (record rollout {
          status = DeploymentStatus.running;
          completed_at = some (session 9000);
        }))
    × (status_in 2 (update_deployment session onupdate 9000 4 (tables done_row)).1.applications
        ≡ some ApplicationStatus.running)
update_deployment_runs_example =
    update_deployment_runs session onupdate 9000 4 (tables done_row) rollout site rollout_found refl
      site_found there_are executions-All

update_deployment_waits_example :
    update_deployment session onupdate 9000 4 (tables running_row) ≡ (ok tt, tables running_row)
update_deployment_waits_example =
    update_deployment_waits session onupdate 9000 4 (tables running_row) none_failed one_running

abbrev planned : Deployment
planned = record (Deployments.to_domain rollout) {
  deployment_id = 5;
  metadata = dictionary (Value.object (Fields.field "by" (Value.text "ci") Fields.no_fields));
}

get-create_metadata_example :
    Deployments.IsRefused session (site ∷ []) planned (rollout ∷ [])
    ⊎ Deployments.IsCreated session (site ∷ []) planned (rollout ∷ [])
get-create_metadata_example = get-create_metadata session (site ∷ []) planned (rollout ∷ [])
