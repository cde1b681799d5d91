-- ===== src/Templates/RoundTrip.antt =====
-- Of the JSON columns of a template: what is read of what was written.
use application_as_service.Prelude.{ℕ, ◌≡◌, refl, String, Option, none, some, List, [], ◌∷◌}
use application_as_service.Outcome.{Result, ok}
use application_as_service.Value.{Value}
use application_as_service.Integers.{ℤ, pos, negsuc, of_integer}
use application_as_service.Domain.{ResourceLimits}
use application_as_service.Templates.{
  HealthCheckDefinition, DeploymentStepDefinition, TemplateInputField,
}
use application_as_service.Templates.Json.{
  of_text, of_number, of_texts, of_options, array_of, of_health_check, of_step, of_input, of_limits,
  read_text, read_all, read_optional_text, read_optional_number, read_integer, read_options,
}
use application_as_service.Templates.Reading.{read_health_check, read_step, read_input, read_limits}

read-text : (o : Option String) → read_optional_text (of_text o) ≡ ok o
read-text none = refl
read-text (some s) = refl

read-number : (o : Option ℕ) → read_optional_number (of_number o) ≡ ok o
read-number none = refl
read-number (some n) = refl

read-integer : (o : Option ℤ) → read_integer (of_integer o) ≡ ok o
read-integer none = refl
read-integer (some (pos n)) = refl
read-integer (some (negsuc n)) = refl

pub read-array :
    {A : Type 0} (write : A → Value) (read : Value → Result A)
    → ((a : A) → read (write a) ≡ ok a)
    → (xs : List A) → read_all read (array_of write xs) ≡ ok xs
unfolding read_all
read-array write read back [] = refl
read-array write read back (x ∷ xs) = rw (back x, read-array write read back xs) refl

read-texts : (texts : List String) → read_all read_text (of_texts texts) ≡ ok texts
unfolding read_all
read-texts [] = refl
read-texts (s ∷ texts) = rw (read-texts texts) refl

read-options : (o : Option (List String)) → read_options (of_options o) ≡ ok o
unfolding read_options
read-options none = refl
read-options (some texts) = rw (read-texts texts) refl

read-health_check :
    (o : Option HealthCheckDefinition) → read_health_check (of_health_check o) ≡ ok o
unfolding read_health_check
read-health_check none = refl
read-health_check (some check) =
    rw (read-text check.path, read-number check.port, read-text check.command) refl

pub read-limits : (o : Option ResourceLimits) → read_limits (of_limits o) ≡ ok o
unfolding read_limits
read-limits none = refl
read-limits (some limits) = refl

pub read-step : (step : DeploymentStepDefinition) → read_step (of_step step) ≡ ok step
unfolding read_step
read-step step = rw (read-texts step.depends_on, read-health_check step.health_check) refl

pub read-input : (input : TemplateInputField) → read_input (of_input input) ≡ ok input
unfolding read_input
read-input input =
    rw
      (
        read-text input.validation_regex,
        read-options input.options,
        read-integer input.min_value,
        read-integer input.max_value,
        read-text input.placeholder,
      )
      refl
