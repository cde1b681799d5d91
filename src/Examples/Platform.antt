-- ===== src/Examples/Platform.antt =====
-- A template, an application, a deployment and a node, as samples.
use application_as_service.Prelude.{
  ℕ, ◌*◌, ◌/◌, ◌≡◌, refl, String, true, false, Option, none, some, [], ◌∷◌, leb, ltb, str_eq,
  if◌then◌else◌,
}
use application_as_service.Prelude.Table as Rows
use application_as_service.Outcome.{ok}
use application_as_service.Time.{naive, aware}
use application_as_service.Value.{Value, Fields}
use application_as_service.Integers.{ℤ, pos, negsuc}
use application_as_service.Floats.{Floats}
use application_as_service.Domain.{
  Deployment, ApplicationStatus, DeploymentStatus, HealthStatus, base_metadata,
}
use application_as_service.Domain.Applications.{ApplicationOrm}
use application_as_service.Domain.Deployments
use application_as_service.Domain.Deployments.{deployment_to_orm}
use application_as_service.Nodes
use application_as_service.Nodes.{InfrastructureNode}
use application_as_service.Nodes.Table.{InfrastructureNodeOrm}
use application_as_service.Templates.{
  HealthCheckDefinition, DeploymentStepDefinition, TemplateInputField, ApplicationTemplate,
}
use application_as_service.Templates.Json.{◌⊳◌}
use application_as_service.Templates.Table
use application_as_service.Templates.Table.{template_to_orm}
use application_as_service.Templates.Storing.{stored, to_template-template_to_orm}
use application_as_service.DomainService.Inputs.{halved}
use application_as_service.DomainService.Config.{Texts, config_of}
use application_as_service.DomainService.Operations.{DomainTables, get_template, get_deployment}
use application_as_service.Orchestrator.{Platform}
use application_as_service.Orchestrator.Steps.{Fresh}
use application_as_service.Examples.{session, empty_world}

-- Numbers of cores in thousandths.
abbrev pub thousandths : Floats ℕ
thousandths = record {
  at_least = λ a b. leb b a;
  below = λ a b. ltb a b;
  half = 500;
  parse = λ s. if str_eq s "0.5" then some 500 else if str_eq s "512" then some 512000 else none;
  from_integer = λ n. elim n [ pos k ↦ k * 1000 | negsuc k ↦ 0 ];
  from_fraction = λ is_negative m k. if is_negative then 0 else halved k (m * 1000);
  times_1024 = λ x. x * 1024;
  to_int = λ x. some (x / 1000);
}

abbrev pub no_integer : String → Option ℤ
no_integer s = none

abbrev pub web_spec : Fields
web_spec = ("name", Value.text "web") ⊳ ("image", Value.text "nginx") ⊳ Fields.no_fields

abbrev pub check : HealthCheckDefinition
check = record {
  type = "http";
  path = none;
  port = none;
  command = none;
  interval_seconds = 10;
  timeout_seconds = 5;
  retries = 3;
  initial_delay_seconds = 0;
}

abbrev pub web_step : DeploymentStepDefinition
web_step = record {
  step_id = "web";
  step_name = "Web server";
  step_type = "container";
  order = 1;
  depends_on = [];
  spec_template = web_spec;
  health_check = some check;
  timeout_seconds = 300;
  retry_on_failure = true;
  max_retries = 3;
  cleanup_on_failure = true;
}

abbrev pub workers_input : TemplateInputField
workers_input = record {
  field_name = "workers";
  field_type = "integer";
  label = "Workers";
  description = "How many workers";
  required = true;
  default_value = Value.null;
  validation_regex = none;
  options = none;
  min_value = some (pos 1);
  max_value = some (pos 8);
  placeholder = none;
}

abbrev pub nginx : ApplicationTemplate
nginx = record {
  template_id = "nginx";
  name = "Nginx";
  description = "A web server";
  version = "1";
  category = "web";
  icon_url = none;
  deployment_steps = web_step ∷ [];
  database_required = false;
  database_type = none;
  required_inputs = workers_input ∷ [];
  default_resources = none;
  created_at = aware 10;
  updated_at = aware 10;
  is_active = true;
}

abbrev pub two_workers : Fields
two_workers = ("workers", Value.number 2) ⊳ Fields.no_fields

abbrev pub site_row : ApplicationOrm
site_row = record {
  application_id = 2;
  tenant_id = 1;
  template_id = "nginx";
  template_version = "1";
  name = "site";
  description = none;
  user_inputs = Value.object two_workers;
  current_deployment_id = none;
  status = ApplicationStatus.deleted;
  health_status = HealthStatus.unknown;
  domain = none;
  public_url = none;
  ssl_enabled = false;
  resource_limits = none;
  created_at = 20;
  updated_at = 20;
  deleted_at = some 30;
}

abbrev pub rollout : Deployment
rollout = record {
  deployment_id = 4;
  application_id = 2;
  tenant_id = 1;
  template_id = "nginx";
  template_version = "1";
  resolved_config = config_of (web_step ∷ []);
  status = DeploymentStatus.pending;
  current_step_index = 0;
  total_steps = 1;
  public_url = none;
  internal_endpoints = Value.object Fields.no_fields;
  error_message = none;
  rollback_on_failure = true;
  created_at = naive 40;
  started_at = none;
  completed_at = none;
  metadata = base_metadata;
}

abbrev pub texts : Texts
texts = record {
  dumps = λ v. "{web}";
  loads = λ s. ok (config_of (web_step ∷ []));
  str = λ v. "None";
  uuid_text = λ id. "u";
}

abbrev pub node_row : InfrastructureNodeOrm ℕ
node_row = record {
  node_id = 6;
  node_name = "n1";
  node_type = Nodes.app_node;
  internal_ip = "10.0.0.1";
  runtime_agent_url = "http://10.0.0.1:9000";
  public_ip = none;
  supported_runtimes = "docker" ∷ [];
  total_cpu = 4000;
  total_memory = 8192;
  total_storage = 100;
  available_cpu = 4000;
  available_memory = 8192;
  available_storage = 100;
  max_containers = 10;
  active_containers = 0;
  status = Nodes.ready;
  health_status = Nodes.healthy;
  last_heartbeat_at = some 50;
  labels = Value.null;
  created_at = 10;
  registered_at = 10;
}

abbrev pub tables : DomainTables
tables = record {
  templates = template_to_orm session nginx ∷ [];
  applications = site_row ∷ [];
  deployments = deployment_to_orm session rollout ∷ [];
}

abbrev pub platform : Platform ℕ
platform = record { domain = tables; engine = empty_world; nodes = node_row ∷ []; resources = [] }

abbrev pub fresh_ids : Fresh
fresh_ids = record {
  execution_id = 7;
  created = 60;
  registered = 61;
  queued = 62;
  announced = 63;
  resource_id = 3;
  tracked = 64;
}

pub nginx_found : get_template "nginx" tables ≡ ok (some (stored session nginx))
unfolding get_template Table.get
nginx_found = rw (to_template-template_to_orm session nginx) refl

pub rollout_found : get_deployment 4 tables ≡ some rollout
unfolding get_deployment Deployments.get Rows.find
rollout_found = refl
