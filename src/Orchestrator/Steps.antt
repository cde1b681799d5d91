-- ===== src/Orchestrator/Steps.antt =====
-- The steps of a deployment: `_execute_step` and the methods that it calls, of
-- execution_engine/orchestrator/deployment_orchestrator.py.
use application_as_service.Prelude.{
  ℕ, String, Bool, true, false, Option, none, some, str_eq, if◌then◌else◌,
}
use application_as_service.Outcome.{
  Result, ok, err, ◌>>=◌, Action, proceed, and_then, lift, pure, raise, value_error, type_error,
  key_error, attribute_error, runtime_error,
}
use application_as_service.Time.{aware}
use application_as_service.Value.{Value, Fields, Elements, lookup, put}
use application_as_service.Integers.{ℤ}
use application_as_service.Floats.{Floats}
use application_as_service.Execution.{Uuid, Execution}
use application_as_service.Validation.{new_execution}
use application_as_service.Postgres.{postgres}
use application_as_service.Service.{register_execution, queue_execution}
use application_as_service.Domain.{HealthStatus, Deployment}
use application_as_service.Domain.Resources
use application_as_service.Domain.Resources.{DeployedResource, container}
use application_as_service.Nodes.{InfrastructureNode}
use application_as_service.Nodes.Manager.{select_node}
use application_as_service.Templates.{DeploymentStepDefinition}
use application_as_service.Templates.Json.{member, of_health_check, ◌⊳◌, read_text}
use application_as_service.DomainService.Config.{Texts}
use application_as_service.Orchestrator.{Platform, on_engine, on_resources}
use application_as_service.Orchestrator.Memory.{float_of, parse_memory}

-- `value[key]`, where a value that is no dictionary takes no text for an index
abbrev pub index : String → Value → Result Value
index key (Value.object fields) = elim (lookup key fields) [ none ↦ err key_error | some v ↦ ok v ]
index key _ = err type_error

-- `value.get(key, default)`
abbrev pub get_or : String → Value → Value → Result Value
get_or key default (Value.object fields) = ok (member key default fields)
get_or key default _ = err attribute_error

-- `value == text`
abbrev pub is_text : String → Value → Bool
is_text s (Value.text t) = str_eq t s
is_text s _ = false

abbrev pub chosen : Bool → Value → Result (Option Value) → Result (Option Value)
chosen true step rest = ok (some step)
chosen false step rest = rest

-- The loop over the steps of the resolved configuration, up to the first with the id.
unfoldable pub find_step : String → Elements → Result (Option Value)
find_step id Elements.no_elements = ok none
find_step id (Elements.element step steps) =
    let rest = find_step id steps in
    index "step_id" step >>= λ found. chosen (is_text id found) step rest

-- A text or a dictionary that is not empty is iterated over too: its first item is a text, which
-- takes no text for an index.
abbrev pub find_among : String → Value → Result (Option Value)
find_among id (Value.array steps) = find_step id steps
find_among id (Value.text s) = if str_eq s "" then ok none else err type_error
find_among id (Value.object Fields.no_fields) = ok none
find_among id _ = err type_error

abbrev pub found_step : Option Value → Result Value
found_step none = err value_error
found_step (some step) = ok step

unfoldable pub get_step_config : Deployment → String → Result Value
unfolding find_step lookup
get_step_config d id =
    get_or "steps" (Value.array Elements.no_elements) d.resolved_config >>= λ steps.
    find_among id steps >>= found_step

unfoldable pub execute_volume_step : Value → Result Value
unfolding lookup
execute_volume_step config = index "spec_template" config >>= λ spec.
    index "volume_name" spec >>= λ name.
    ok (Value.object (("volume_name", name) ⊳ ("status", Value.text "created") ⊳ Fields.no_fields))

unfoldable pub execute_database_step : Value → Result Value
unfolding lookup
execute_database_step config = index "spec_template" config >>= λ spec.
    index "db_name" spec >>= λ name. index "db_type" spec >>= λ kind.
    index "db_user" spec >>= λ user. ok (
      Value.object (
        ("db_type", kind)
        ⊳ ("db_name", name)
        ⊳ ("db_user", user)
        ⊳ ("db_host", Value.text "mysql-server.local")
        ⊳ ("db_port", Value.number 3306)
        ⊳ ("status", Value.text "ready")
        ⊳ Fields.no_fields))

-- `{**config, 'execution_id': ..., 'health_check': ...}`
abbrev pub tracked_spec : Value → Value → Value → Value
tracked_spec execution_text check (Value.object fields) =
    Value.object (put "health_check" check (put "execution_id" execution_text fields))
tracked_spec execution_text check v = v

-- The UUIDs that a step makes, and its readings of the clock in the order in which they are taken.
pub record Fresh : Type 0 where
  pub execution_id : Uuid
  pub created : ℕ
  pub registered : ℕ
  pub queued : ℕ
  pub announced : ℕ
  pub resource_id : Uuid
  pub tracked : ℕ

-- What a container step asks for.
pub record Demand (F : Type 0) : Type 0 where
  pub spec : Value
  pub name : Value
  pub cpu : F
  pub memory : ℕ

module _ {F : Type 0} (floats : Floats F) (parse : String → Option ℤ) where
  unfoldable pub demand_of : Value → Result (Demand F)
  unfolding lookup float_of parse_memory
  demand_of config = index "spec_template" config >>= λ spec. index "name" spec >>= λ name.
      get_or "resources" (Value.object Fields.no_fields) spec >>= λ resources.
      (get_or "cpu" (Value.text "0.5") resources >>= float_of floats) >>= λ cpu.
      (get_or "memory" (Value.text "512Mi") resources >>= parse_memory floats parse) >>= λ memory.
      ok (record { spec = spec; name = name; cpu = cpu; memory = memory })

module _ {F : Type 0} (texts : Texts) (fresh : Fresh) (d : Deployment)
    (node : InfrastructureNode F) where
  abbrev pub step_execution : Value → Execution
  step_execution spec =
      let made =
        new_execution fresh.created fresh.execution_id d.tenant_id d.application_id "docker" (
          Value.object (
            ("node_id", Value.text (texts.uuid_text node.node_id))
            ⊳ ("agent_url", Value.text node.runtime_agent_url)
            ⊳ ("container_spec", spec)
            ⊳ Fields.no_fields)) in
      record made { deployment_id = some d.deployment_id }

  abbrev pub step_resource : DeploymentStepDefinition → Value → String → DeployedResource
  step_resource step config name = record {
    resource_id = fresh.resource_id;
    deployment_id = d.deployment_id;
    resource_type = container;
    external_id = "pending";
    node_id = node.node_id;
    name = name;
    spec =
        tracked_spec (Value.text (texts.uuid_text fresh.execution_id))
          (of_health_check step.health_check) config;
    status = "pending";
    health_status = HealthStatus.unknown;
    consecutive_health_failures = 0;
    last_health_check_at = none;
    created_at = aware fresh.tracked;
  }

  abbrev pub step_result : Value → Value
  step_result name = Value.object (
      ("execution_id", Value.text (texts.uuid_text fresh.execution_id))
      ⊳ ("resource_id", Value.text (texts.uuid_text fresh.resource_id))
      ⊳ ("node_id", Value.text (texts.uuid_text node.node_id))
      ⊳ ("node_name", Value.text node.node_name)
      ⊳ ("container_name", name)
      ⊳ ("status", Value.text "queued")
      ⊳ Fields.no_fields)

module _ {F : Type 0} (floats : Floats F) (parse : String → Option ℤ) (texts : Texts)
    (local : ℕ → ℕ) where
  -- The row of a resource refers to the deployments and to the nodes.
  abbrev pub track : DeployedResource → Action (Platform F) (Unit {0})
  track resource s = on_resources (Resources.create local s.domain.deployments s.nodes resource) s

  -- The rest of a container step on the node that was selected. The name is taken to be a text: the
  -- model raises TypeError for another one.
  abbrev pub place_on :
      Fresh
      → Deployment
      → DeploymentStepDefinition
      → Value
      → Demand F
      → InfrastructureNode F
      → Action (Platform F) Value
  place_on fresh d step config demand node =
      let e = step_execution texts fresh d node demand.spec in
      and_then (on_engine (register_execution (postgres local) fresh.registered e)) λ registered.
        and_then
          (on_engine (queue_execution (postgres local) fresh.queued fresh.announced e.execution_id))
          λ queued. and_then (lift (read_text demand.name)) λ name.
            and_then (track (step_resource texts fresh d node step config name))
              λ tracked. pure (step_result texts fresh d node demand.name)

  abbrev pub place :
      Fresh
      → Deployment
      → DeploymentStepDefinition
      → Value
      → Demand F
      → Option (InfrastructureNode F)
      → Action (Platform F) Value
  place fresh d step config demand none = raise runtime_error
  place fresh d step config demand (some node) = place_on fresh d step config demand node

  unfoldable pub execute_container_step :
      Fresh → Deployment → DeploymentStepDefinition → Value → Action (Platform F) Value
  unfolding demand_of
  execute_container_step fresh d step config s =
      proceed (demand_of floats parse config, s)
        λ demand s.
          place fresh d step config demand
            (select_node floats "docker" demand.cpu demand.memory 1 s.nodes) s

  unfoldable pub execute_configured :
      Fresh → Deployment → DeploymentStepDefinition → Value → Action (Platform F) Value
  unfolding execute_container_step execute_volume_step execute_database_step
  execute_configured fresh d step config s =
      if str_eq step.step_type "volume"
      then (execute_volume_step config, s)
      else if str_eq step.step_type "database"
      then (execute_database_step config, s)
      else if str_eq step.step_type "container"
      then execute_container_step fresh d step config s
      else (err value_error, s)

  unfoldable pub execute_step :
      Fresh → Deployment → DeploymentStepDefinition → Action (Platform F) Value
  unfolding get_step_config execute_configured
  execute_step fresh d step s =
      proceed (get_step_config d step.step_id, s) (execute_configured fresh d step)
