-- ===== src/Domain.antt =====
-- execution_engine/domain/models.py: applications, their deployments, and what is deployed.
pub mod Applications
pub mod Deployments
pub mod Resources
use application_as_service.Prelude.{ℕ, String, Bool, true, false, Option}
use application_as_service.Time.{DateTime}
use application_as_service.Value.{Value}
use application_as_service.Execution.{Uuid}

pub data ApplicationStatus : Type 0 where
  creating running stopped failed deleting deleted : ApplicationStatus

pub data DeploymentStatus : Type 0 where
  pending deploying running failed rolled_back deleted : DeploymentStatus

pub data HealthStatus : Type 0 where
  unknown healthy unhealthy starting : HealthStatus

-- `a == b`
abbrev pub same_application_status : ApplicationStatus → ApplicationStatus → Bool
same_application_status creating creating = true
same_application_status running running = true
same_application_status stopped stopped = true
same_application_status failed failed = true
same_application_status deleting deleting = true
same_application_status deleted deleted = true
same_application_status _ _ = false

abbrev pub same_deployment_status : DeploymentStatus → DeploymentStatus → Bool
same_deployment_status pending pending = true
same_deployment_status deploying deploying = true
same_deployment_status running running = true
same_deployment_status failed failed = true
same_deployment_status rolled_back rolled_back = true
same_deployment_status deleted deleted = true
same_deployment_status _ _ = false

pub record ResourceLimits : Type 0 where
  pub cpu : String
  pub memory : String
  pub storage : String

pub record Application : Type 0 where
  pub application_id : Uuid
  pub tenant_id : Uuid
  pub template_id : String
  pub template_version : String
  pub name : String
  pub description : Option String
  pub user_inputs : Value
  pub current_deployment_id : Option Uuid
  pub status : ApplicationStatus
  pub health_status : HealthStatus
  pub domain : Option String
  pub public_url : Option String
  pub ssl_enabled : Bool
  pub resource_limits : Option ResourceLimits
  pub created_at : DateTime
  pub updated_at : DateTime
  pub deleted_at : Option DateTime

-- The `metadata` of a deployment: a dictionary, or the object of that name that every class of
-- SQLAlchemy's declarative base has.
pub data DeploymentMetadata : Type 0 where
  dictionary : Value → DeploymentMetadata
  base_metadata : DeploymentMetadata

pub record Deployment : Type 0 where
  pub deployment_id : Uuid
  pub application_id : Uuid
  pub tenant_id : Uuid
  pub template_id : String
  pub template_version : String
  pub resolved_config : Value
  pub status : DeploymentStatus
  pub current_step_index : ℕ
  pub total_steps : ℕ
  pub public_url : Option String
  pub internal_endpoints : Value
  pub error_message : Option String
  pub rollback_on_failure : Bool
  pub created_at : DateTime
  pub started_at : Option DateTime
  pub completed_at : Option DateTime
  pub metadata : DeploymentMetadata
