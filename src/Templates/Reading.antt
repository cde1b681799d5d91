-- ===== src/Templates/Reading.antt =====
-- What the method `get` of class ApplicationTemplateRepository
-- (execution_engine/infrastructure/postgres/domain_repository.py) makes of the JSON columns. A
-- dataclass that is called with the members of a dictionary raises TypeError for a member that it
-- does not know, and for a required one that is not there.
use application_as_service.Prelude.{
  String, Bool, true, false, ◌&&◌, Option, none, some, List, [], ◌∷◌, str_eq, if◌then◌else◌,
}
use application_as_service.Outcome.{Result, ok, err, ◌>>=◌, key_error, type_error}
use application_as_service.Value.{Value, Fields, Elements, lookup, truthy}
use application_as_service.Domain.{ResourceLimits}
use application_as_service.Templates.{
  HealthCheckDefinition, DeploymentStepDefinition, TemplateInputField,
}
use application_as_service.Templates.Json.{
  member, required, read_text, read_number, read_boolean, read_object, read_optional_text,
  read_optional_number, read_integer, read_texts, read_options,
}

abbrev pub is_one_of : String → List String → Bool
is_one_of key [] = false
is_one_of key (k ∷ keys) = if str_eq k key then true else is_one_of key keys

-- Every member of the dictionary is one of the parameters.
abbrev pub are_known : List String → Fields → Bool
are_known keys Fields.no_fields = true
are_known keys (Fields.field k v fields) = is_one_of k keys && are_known keys fields

-- The members of a dictionary as keyword arguments.
abbrev pub with_keywords : {A : Type 0} → List String → (Fields → Result A) → Value → Result A
with_keywords keys make (Value.object fields) =
    if are_known keys fields then make fields else err type_error
with_keywords keys make _ = err type_error

abbrev pub health_check_keys : List String
health_check_keys =
    "type" ∷ "path" ∷ "port" ∷ "command" ∷ "interval_seconds" ∷ "timeout_seconds" ∷ "retries"
    ∷ "initial_delay_seconds" ∷ []

abbrev pub make_health_check : Fields → Result HealthCheckDefinition
make_health_check fields = (required type_error "type" fields >>= read_text) >>= λ kind.
    read_optional_text (member "path" Value.null fields) >>= λ path.
    read_optional_number (member "port" Value.null fields) >>= λ port.
    read_optional_text (member "command" Value.null fields) >>= λ command.
    read_number (member "interval_seconds" (Value.number 10) fields) >>= λ interval.
    read_number (member "timeout_seconds" (Value.number 5) fields) >>= λ timeout.
    read_number (member "retries" (Value.number 3) fields) >>= λ retries.
    read_number (member "initial_delay_seconds" (Value.number 0) fields) >>= λ delay. ok (record {
      type = kind;
      path = path;
      port = port;
      command = command;
      interval_seconds = interval;
      timeout_seconds = timeout;
      retries = retries;
      initial_delay_seconds = delay;
    })

abbrev pub read_given : Value → Result (Option HealthCheckDefinition)
read_given v = with_keywords health_check_keys make_health_check v >>= λ check. ok (some check)

-- `HealthCheckDefinition(**step["health_check"]) if step.get("health_check") else None`
unfoldable pub read_health_check : Value → Result (Option HealthCheckDefinition)
unfolding lookup truthy
read_health_check v = if truthy v then read_given v else ok none

unfoldable pub make_step : Fields → Result DeploymentStepDefinition
unfolding lookup read_health_check read_texts
make_step fields = (required key_error "step_id" fields >>= read_text) >>= λ step_id.
    (required key_error "step_name" fields >>= read_text) >>= λ step_name.
    (required key_error "step_type" fields >>= read_text) >>= λ step_type.
    (required key_error "order" fields >>= read_number) >>= λ order.
    read_texts (member "depends_on" (Value.array Elements.no_elements) fields) >>= λ needs.
    read_object (member "spec_template" (Value.object Fields.no_fields) fields) >>= λ spec.
    read_health_check (member "health_check" Value.null fields) >>= λ check.
    read_number (member "timeout_seconds" (Value.number 300) fields) >>= λ timeout.
    read_boolean (member "retry_on_failure" (Value.boolean true) fields) >>= λ retry.
    read_number (member "max_retries" (Value.number 3) fields) >>= λ retries.
    read_boolean (member "cleanup_on_failure" (Value.boolean true) fields) >>= λ cleanup.
    ok (record {
      step_id = step_id;
      step_name = step_name;
      step_type = step_type;
      order = order;
      depends_on = needs;
      spec_template = spec;
      health_check = check;
      timeout_seconds = timeout;
      retry_on_failure = retry;
      max_retries = retries;
      cleanup_on_failure = cleanup;
    })

unfoldable pub read_step : Value → Result DeploymentStepDefinition
unfolding make_step
read_step v = read_object v >>= make_step

abbrev pub input_keys : List String
input_keys =
    "field_name" ∷ "field_type" ∷ "label" ∷ "description" ∷ "required" ∷ "default_value"
    ∷ "validation_regex" ∷ "options" ∷ "min_value" ∷ "max_value" ∷ "placeholder" ∷ []

abbrev pub make_input : Fields → Result TemplateInputField
make_input fields = (required type_error "field_name" fields >>= read_text) >>= λ field_name.
    (required type_error "field_type" fields >>= read_text) >>= λ field_type.
    (required type_error "label" fields >>= read_text) >>= λ label.
    (required type_error "description" fields >>= read_text) >>= λ description.
    (required type_error "required" fields >>= read_boolean) >>= λ needed.
    read_optional_text (member "validation_regex" Value.null fields) >>= λ regex.
    read_options (member "options" Value.null fields) >>= λ options.
    read_integer (member "min_value" Value.null fields) >>= λ min_value.
    read_integer (member "max_value" Value.null fields) >>= λ max_value.
    read_optional_text (member "placeholder" Value.null fields) >>= λ placeholder. ok (record {
      field_name = field_name;
      field_type = field_type;
      label = label;
      description = description;
      required = needed;
      default_value = member "default_value" Value.null fields;
      validation_regex = regex;
      options = options;
      min_value = min_value;
      max_value = max_value;
      placeholder = placeholder;
    })

-- `TemplateInputField(**field)`
unfoldable pub read_input : Value → Result TemplateInputField
unfolding lookup read_options
read_input v = with_keywords input_keys make_input v

abbrev pub make_limits : Fields → Result ResourceLimits
make_limits fields = (required type_error "cpu" fields >>= read_text) >>= λ cpu.
    (required type_error "memory" fields >>= read_text) >>= λ memory.
    (required type_error "storage" fields >>= read_text) >>= λ storage.
    ok (record { cpu = cpu; memory = memory; storage = storage })

abbrev pub read_given_limits : Value → Result (Option ResourceLimits)
read_given_limits v =
    with_keywords ("cpu" ∷ "memory" ∷ "storage" ∷ []) make_limits v >>= λ limits. ok (some limits)

-- `ResourceLimits(**orm.default_resources) if orm.default_resources else None`
unfoldable pub read_limits : Value → Result (Option ResourceLimits)
unfolding lookup truthy
read_limits v = if truthy v then read_given_limits v else ok none
