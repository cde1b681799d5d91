-- ===== src/Templates.antt =====
-- The templates of execution_engine/domain/models.py: what an application is made of.
pub mod Json
pub mod Reading
pub mod Table
pub mod RoundTrip
pub mod Storing
use application_as_service.Prelude.{ℕ, String, Bool, Option, List}
use application_as_service.Time.{DateTime}
use application_as_service.Value.{Value, Fields}
use application_as_service.Integers.{ℤ}
use application_as_service.Domain.{ResourceLimits}

pub record HealthCheckDefinition : Type 0 where
  pub type : String
  pub path : Option String
  pub port : Option ℕ
  pub command : Option String
  pub interval_seconds : ℕ
  pub timeout_seconds : ℕ
  pub retries : ℕ
  pub initial_delay_seconds : ℕ

pub record DeploymentStepDefinition : Type 0 where
  pub step_id : String
  pub step_name : String
  pub step_type : String
  pub order : ℕ
  pub depends_on : List String
  pub spec_template : Fields
  pub health_check : Option HealthCheckDefinition
  pub timeout_seconds : ℕ
  pub retry_on_failure : Bool
  pub max_retries : ℕ
  pub cleanup_on_failure : Bool

pub record TemplateInputField : Type 0 where
  pub field_name : String
  pub field_type : String
  pub label : String
  pub description : String
  pub required : Bool
  pub default_value : Value
  pub validation_regex : Option String
  pub options : Option (List String)
  pub min_value : Option ℤ
  pub max_value : Option ℤ
  pub placeholder : Option String

pub record ApplicationTemplate : Type 0 where
  pub template_id : String
  pub name : String
  pub description : String
  pub version : String
  pub category : String
  pub icon_url : Option String
  pub deployment_steps : List DeploymentStepDefinition
  pub database_required : Bool
  pub database_type : Option String
  pub required_inputs : List TemplateInputField
  pub default_resources : Option ResourceLimits
  pub created_at : DateTime
  pub updated_at : DateTime
  pub is_active : Bool
