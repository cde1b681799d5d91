-- ===== src/Templates/Json.antt =====
-- The JSON columns of the table of templates: `template_to_orm` of
-- execution_engine/infrastructure/postgres/domain_repository.py writes them, and the method `get` of
-- class ApplicationTemplateRepository reads them. The columns are those that `template_to_orm`
-- writes: the reader below raises TypeError at a member of another type, which Python would keep.
use application_as_service.Prelude.{ℕ, String, Bool, Option, none, some, List, [], ◌∷◌}
use application_as_service.Outcome.{Error, Result, ok, err, ◌>>=◌, type_error}
use application_as_service.Value.{Value, Fields, Elements, lookup}
use application_as_service.Integers.{ℤ, pos, negsuc, of_integer}
use application_as_service.Domain.{ResourceLimits}
use application_as_service.Templates.{
  HealthCheckDefinition, DeploymentStepDefinition, TemplateInputField,
}

-- Writing

abbrev pub of_text : Option String → Value
of_text none = Value.null
of_text (some s) = Value.text s

abbrev pub of_number : Option ℕ → Value
of_number none = Value.null
of_number (some n) = Value.number n

abbrev pub of_texts : List String → Elements
of_texts [] = Elements.no_elements
of_texts (s ∷ texts) = Elements.element (Value.text s) (of_texts texts)

abbrev pub of_options : Option (List String) → Value
of_options none = Value.null
of_options (some texts) = Value.array (of_texts texts)

-- `[f(x) for x in xs]` as a JSON array
abbrev pub array_of : {A : Type 0} → (A → Value) → List A → Elements
array_of f [] = Elements.no_elements
array_of f (x ∷ xs) = Elements.element (f x) (array_of f xs)

infixr 6 ◌⊳◌
-- The members of an object, one after the other.
abbrev pub ◌⊳◌ : String × Value → Fields → Fields
(k, v) ⊳ fields = Fields.field k v fields

abbrev pub health_check_fields : HealthCheckDefinition → Fields
health_check_fields check =
    ("type", Value.text check.type)
    ⊳ ("path", of_text check.path)
    ⊳ ("port", of_number check.port)
    ⊳ ("command", of_text check.command)
    ⊳ ("interval_seconds", Value.number check.interval_seconds)
    ⊳ ("timeout_seconds", Value.number check.timeout_seconds)
    ⊳ ("retries", Value.number check.retries)
    ⊳ ("initial_delay_seconds", Value.number check.initial_delay_seconds)
    ⊳ Fields.no_fields

abbrev pub of_health_check : Option HealthCheckDefinition → Value
of_health_check none = Value.null
of_health_check (some check) = Value.object (health_check_fields check)

abbrev pub of_step : DeploymentStepDefinition → Value
of_step step = Value.object (
    ("step_id", Value.text step.step_id)
    ⊳ ("step_name", Value.text step.step_name)
    ⊳ ("step_type", Value.text step.step_type)
    ⊳ ("order", Value.number step.order)
    ⊳ ("depends_on", Value.array (of_texts step.depends_on))
    ⊳ ("spec_template", Value.object step.spec_template)
    ⊳ ("health_check", of_health_check step.health_check)
    ⊳ ("timeout_seconds", Value.number step.timeout_seconds)
    ⊳ ("retry_on_failure", Value.boolean step.retry_on_failure)
    ⊳ ("max_retries", Value.number step.max_retries)
    ⊳ ("cleanup_on_failure", Value.boolean step.cleanup_on_failure)
    ⊳ Fields.no_fields)

abbrev pub of_input : TemplateInputField → Value
of_input input = Value.object (
    ("field_name", Value.text input.field_name)
    ⊳ ("field_type", Value.text input.field_type)
    ⊳ ("label", Value.text input.label)
    ⊳ ("description", Value.text input.description)
    ⊳ ("required", Value.boolean input.required)
    ⊳ ("default_value", input.default_value)
    ⊳ ("validation_regex", of_text input.validation_regex)
    ⊳ ("options", of_options input.options)
    ⊳ ("min_value", of_integer input.min_value)
    ⊳ ("max_value", of_integer input.max_value)
    ⊳ ("placeholder", of_text input.placeholder)
    ⊳ Fields.no_fields)

abbrev pub of_limits : Option ResourceLimits → Value
of_limits none = Value.null
of_limits (some limits) = Value.object (
    ("cpu", Value.text limits.cpu)
    ⊳ ("memory", Value.text limits.memory)
    ⊳ ("storage", Value.text limits.storage)
    ⊳ Fields.no_fields)

-- Reading

-- `value.get(key, default)`
abbrev pub member : String → Value → Fields → Value
member key default fields = elim (lookup key fields) [ none ↦ default | some v ↦ v ]

-- `fields[key]` and a keyword argument without a default, which raise different exceptions.
abbrev pub required : Error → String → Fields → Result Value
required e key fields = elim (lookup key fields) [ none ↦ err e | some v ↦ ok v ]

abbrev pub read_text : Value → Result String
read_text (Value.text s) = ok s
read_text _ = err type_error

abbrev pub read_number : Value → Result ℕ
read_number (Value.number n) = ok n
read_number _ = err type_error

abbrev pub read_boolean : Value → Result Bool
read_boolean (Value.boolean b) = ok b
read_boolean _ = err type_error

abbrev pub read_object : Value → Result Fields
read_object (Value.object fields) = ok fields
read_object _ = err type_error

abbrev pub read_optional_text : Value → Result (Option String)
read_optional_text Value.null = ok none
read_optional_text (Value.text s) = ok (some s)
read_optional_text _ = err type_error

abbrev pub read_optional_number : Value → Result (Option ℕ)
read_optional_number Value.null = ok none
read_optional_number (Value.number n) = ok (some n)
read_optional_number _ = err type_error

abbrev pub read_integer : Value → Result (Option ℤ)
read_integer Value.null = ok none
read_integer (Value.number n) = ok (some (pos n))
read_integer (Value.negative n) = ok (some (negsuc n))
read_integer _ = err type_error

unfoldable pub read_all : {A : Type 0} → (Value → Result A) → Elements → Result (List A)
read_all read Elements.no_elements = ok []
read_all read (Elements.element v vs) = read v >>= λ a. read_all read vs >>= λ rest. ok (a ∷ rest)

unfoldable pub read_texts : Value → Result (List String)
unfolding read_all
read_texts (Value.array vs) = read_all read_text vs
read_texts _ = err type_error

unfoldable pub read_options : Value → Result (Option (List String))
unfolding read_texts
read_options Value.null = ok none
read_options v = read_texts v >>= λ texts. ok (some texts)
