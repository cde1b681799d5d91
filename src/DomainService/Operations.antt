-- ===== src/DomainService/Operations.antt =====
-- The operations of class DomainService, execution_engine/domain/service.py. Besides the parameters
-- of the parts, `local` and `onupdate` are those of the repositories. The readings of the clock come
-- first, in the order in which they are taken, and then the UUIDs that are made.
use application_as_service.Prelude.{
  ℕ, String, Bool, true, false, Option, none, some, List, length, if◌then◌else◌,
}
use application_as_service.Outcome.{
  Result, Action, proceed, and_then, raise, pure, lift, validation_error,
}
use application_as_service.Time.{aware}
use application_as_service.Value.{Value, Fields}
use application_as_service.Integers.{ℤ}
use application_as_service.Execution.{Uuid}
use application_as_service.Validation.{is_given}
use application_as_service.Domain.{
  ApplicationStatus, DeploymentStatus, HealthStatus, Application, Deployment, dictionary,
}
use application_as_service.Domain.Applications
use application_as_service.Domain.Applications.{ApplicationOrm}
use application_as_service.Domain.Deployments
use application_as_service.Domain.Deployments.{DeploymentOrm}
use application_as_service.Templates.{ApplicationTemplate}
use application_as_service.Templates.Table
use application_as_service.Templates.Table.{TemplateRows}
use application_as_service.DomainService.Inputs.{validate_inputs}
use application_as_service.DomainService.Config.{Texts, resolve_config}

-- The tables that the service reads and writes.
pub record DomainTables : Type 0 where
  pub templates : TemplateRows
  pub applications : List ApplicationOrm
  pub deployments : List DeploymentOrm

abbrev pub put_templates :
    {A : Type 0} → DomainTables → Result A × TemplateRows → Result A × DomainTables
put_templates s (r, rows) = (r, record s { templates = rows })

abbrev pub put_applications :
    {A : Type 0} → DomainTables → Result A × List ApplicationOrm → Result A × DomainTables
put_applications s (r, rows) = (r, record s { applications = rows })

abbrev pub put_deployments :
    {A : Type 0} → DomainTables → Result A × List DeploymentOrm → Result A × DomainTables
put_deployments s (r, rows) = (r, record s { deployments = rows })

-- A call of the repository of applications, and one of the repository of deployments.
abbrev pub on_applications : {A : Type 0} → Action (List ApplicationOrm) A → Action DomainTables A
on_applications m s = put_applications s (m s.applications)

abbrev pub on_deployments : {A : Type 0} → Action (List DeploymentOrm) A → Action DomainTables A
on_deployments m s = put_deployments s (m s.deployments)

-- `if not x: raise ExecutionValidationError`, for an object that a repository looked up
abbrev pub require : {A : Type 0} → Option A → Action DomainTables A
require none = raise validation_error
require (some a) = pure a

-- A record of a new application, with the defaults of the class.
abbrev pub new_application :
    ℕ → ℕ → Uuid → Uuid → ApplicationTemplate → String → Fields → Option String → Application
new_application now now' id tenant_id template name inputs description = record {
  application_id = id;
  tenant_id = tenant_id;
  template_id = template.template_id;
  template_version = template.version;
  name = name;
  description = description;
  user_inputs = Value.object inputs;
  current_deployment_id = none;
  status = ApplicationStatus.creating;
  health_status = HealthStatus.unknown;
  domain = none;
  public_url = none;
  ssl_enabled = false;
  resource_limits = template.default_resources;
  created_at = aware now;
  updated_at = aware now';
  deleted_at = none;
}

abbrev pub new_deployment : ℕ → Uuid → Application → ApplicationTemplate → Value → Deployment
new_deployment now id app template config = record {
  deployment_id = id;
  application_id = app.application_id;
  tenant_id = app.tenant_id;
  template_id = template.template_id;
  template_version = template.version;
  resolved_config = config;
  status = DeploymentStatus.pending;
  current_step_index = 0;
  total_steps = length template.deployment_steps;
  public_url = none;
  internal_endpoints = Value.object Fields.no_fields;
  error_message = none;
  rollback_on_failure = true;
  created_at = aware now;
  started_at = none;
  completed_at = none;
  metadata = dictionary (Value.object Fields.no_fields);
}

unfoldable pub get_template : String → DomainTables → Result (Option ApplicationTemplate)
get_template id s = Table.get id s.templates

unfoldable pub list_templates : Option String → DomainTables → Result (List ApplicationTemplate)
list_templates category s = Table.list_active category s.templates

unfoldable pub get_application : Uuid → DomainTables → Option Application
get_application id s = Applications.get id s.applications

unfoldable pub list_applications : Uuid → DomainTables → List Application
list_applications tenant_id s = Applications.list_by_tenant tenant_id false s.applications

unfoldable pub get_deployment : Uuid → DomainTables → Option Deployment
get_deployment id s = Deployments.get id s.deployments

abbrev pub with_url : Option String → Application → Application
with_url url app = if is_given url then record app { public_url = url } else app

abbrev pub pointed_at : Uuid → Application → Application
pointed_at id app = record app {
  current_deployment_id = some id;
  status = ApplicationStatus.creating;
}

abbrev pub with_message : Option String → Deployment → Deployment
with_message message d = if is_given message then record d { error_message = message } else d

abbrev pub with_completion : ℕ → DeploymentStatus → Deployment → Deployment
with_completion now DeploymentStatus.running d = record d { completed_at = some (aware now) }
with_completion now status d = d

module _ (local : ℕ → ℕ) where
  unfoldable pub register_template : ApplicationTemplate → Action DomainTables (Unit {0})
  register_template template s = put_templates s (Table.create local template s.templates)

  -- The row of an application refers to the templates, and that of a deployment to the
  -- applications.
  abbrev pub insert_application : Application → Action DomainTables (Unit {0})
  insert_application app s = on_applications (Applications.create local s.templates app) s

  abbrev pub insert_deployment : Deployment → Action DomainTables (Unit {0})
  insert_deployment d s = on_deployments (Deployments.create local s.applications d) s

  module _ (parse : String → Option ℤ) (matches : String → Value → Result Bool) where
    abbrev pub create_from :
        ℕ
        → ℕ
        → Uuid
        → Uuid
        → String
        → Fields
        → Option String
        → ApplicationTemplate
        → Action DomainTables Application
    create_from now now' id tenant_id name inputs description template =
        and_then (lift (validate_inputs parse matches template.required_inputs inputs)) λ valid.
          let app = new_application now now' id tenant_id template name inputs description in
          and_then (insert_application app) λ created. pure app

    unfoldable pub create_application :
        ℕ
        → ℕ
        → Uuid
        → Uuid
        → String
        → String
        → Fields
        → Option String
        → Action DomainTables Application
    unfolding validate_inputs get_template
    create_application now now' id tenant_id template_id name inputs description s =
        proceed (get_template template_id s, s)
          λ found.
            and_then (require found) (create_from now now' id tenant_id name inputs description)

  module _ (onupdate : ApplicationOrm → ApplicationOrm → ℕ) where
    unfoldable pub update_application_status :
        Uuid → ApplicationStatus → Option String → Action DomainTables (Unit {0})
    unfolding get_application
    update_application_status id status url s = proceed (require (get_application id s) s) λ app.
        on_applications
          (Applications.update local onupdate (with_url url (record app { status = status })))

    unfoldable pub delete_application : ℕ → Uuid → Action DomainTables (Unit {0})
    unfolding get_application
    delete_application now id s = proceed (require (get_application id s) s) λ app.
        on_applications (
          Applications.update local onupdate
            (record app { status = ApplicationStatus.deleted; deleted_at = some (aware now) }))

    module _ (texts : Texts) where
      abbrev pub deploy_from :
          ℕ → Uuid → Application → ApplicationTemplate → Action DomainTables Deployment
      deploy_from now id app template =
          and_then (lift (resolve_config texts template app.user_inputs app.application_id))
            λ config.
              let deployment = new_deployment now id app template config in
              and_then (insert_deployment deployment) λ created.
                and_then (on_applications (Applications.update local onupdate (pointed_at id app)))
                  λ updated. pure deployment

      unfoldable pub create_deployment : ℕ → Uuid → Uuid → Action DomainTables Deployment
      unfolding get_application get_template resolve_config
      create_deployment now id application_id s =
          proceed (require (get_application application_id s) s) λ app s.
            proceed (get_template app.template_id s, s)
              λ found. and_then (require found) (deploy_from now id app)

  unfoldable pub update_deployment_status :
      ℕ → Uuid → DeploymentStatus → Option String → Action DomainTables (Unit {0})
  unfolding get_deployment
  update_deployment_status now id status message s = proceed (require (get_deployment id s) s) λ d.
      on_deployments (
        Deployments.update local
          (with_completion now status (with_message message (record d { status = status }))))
