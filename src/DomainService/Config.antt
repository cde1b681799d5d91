-- ===== src/DomainService/Config.antt =====
-- The configuration of a deployment: `_resolve_config` of execution_engine/domain/service.py. The
-- steps of the template become a JSON text, in which each placeholder is replaced, one variable
-- after the other; the text is parsed again. What `json.dumps`, `json.loads` and `str` make of a
-- value is a parameter.
use Prim.Native.String.{[] as empty, ◌∷◌ as ◌::◌}
use application_as_service.Prelude.{
  ℕ, zero, suc, ◌-◌, ◌≡◌, refl, ap, String, true, false, List, length, arith,
}
use application_as_service.Prelude.Text.{codes, append, is_prefix, contains}
use application_as_service.Outcome.{Result, ok, ◌>>=◌}
use application_as_service.Value.{Value, Fields, put}
use application_as_service.Execution.{Uuid}
use application_as_service.Templates.{DeploymentStepDefinition, ApplicationTemplate}
use application_as_service.Templates.Json.{of_texts, array_of, ◌⊳◌, read_object}

pub record Texts : Type 0 where
  pub dumps : Value → String
  pub loads : String → Result Value
  pub str : Value → String
  pub uuid_text : Uuid → String

-- `s[:n]`
abbrev pub first : ℕ → String → String
first zero s = ""
first (suc n) empty = ""
first (suc n) (c :: s) = c :: first n s

-- The rest of `s.replace(old, new)`, when the next `skip` characters belong to an occurrence.
unfoldable pub replace_from : ℕ → String → String → String → String
unfolding is_prefix append
replace_from skip old new empty = empty
replace_from (suc skip) old new (c :: s) = replace_from skip old new s
replace_from zero old new (c :: s) = elim (is_prefix (codes old) (codes (c :: s))) [
  | true ↦ append new (replace_from (length (codes old) - 1) old new s)
  | false ↦ c :: replace_from zero old new s
]

-- `s.replace(old, new)`, for an `old` that is not empty
unfoldable pub replace : String → String → String → String
unfolding replace_from
replace old new s = replace_from zero old new s

-- `f"{{{{{key}}}}}"`
unfoldable pub placeholder : String → String
unfolding append
placeholder key = append "{{" (append key "}}")

-- `{**variables, **inputs}`
unfoldable pub merge : Fields → Fields → Fields
unfolding put
merge variables Fields.no_fields = variables
merge variables (Fields.field k v inputs) = merge (put k v variables) inputs

-- The members of a step that the configuration keeps.
abbrev pub step_config : DeploymentStepDefinition → Value
step_config step = Value.object (
    ("step_id", Value.text step.step_id)
    ⊳ ("step_name", Value.text step.step_name)
    ⊳ ("step_type", Value.text step.step_type)
    ⊳ ("order", Value.number step.order)
    ⊳ ("depends_on", Value.array (of_texts step.depends_on))
    ⊳ ("spec_template", Value.object step.spec_template)
    ⊳ Fields.no_fields)

abbrev pub config_of : List DeploymentStepDefinition → Value
config_of steps =
    Value.object (("steps", Value.array (array_of step_config steps)) ⊳ Fields.no_fields)

replace_from_absent :
    (old new s : String) → contains (codes old) (codes s) ≡ false → replace_from zero old new s ≡ s
unfolding replace_from contains
replace_from_absent old new empty h = refl
replace_from_absent old new (c :: s) h =
    let here : is_prefix (codes old) (codes (c :: s)) ≡ false = ground arith in
    rw (here, replace_from) (ap (λ t. c :: t) (replace_from_absent old new s (ground arith)))

replace_absent :
    (old new s : String) → contains (codes old) (codes s) ≡ false → replace old new s ≡ s
unfolding replace
replace_absent old new s h = replace_from_absent old new s h

module _ (texts : Texts) where
  unfoldable pub variables_of : Uuid → Fields → Fields
  unfolding merge
  variables_of id inputs =
      merge
        (("application_id", Value.text (texts.uuid_text id))
          ⊳ ("application_id_short", Value.text (first 8 (texts.uuid_text id)))
          ⊳ Fields.no_fields)
        inputs

  unfoldable pub substitute : Fields → String → String
  unfolding replace placeholder
  substitute Fields.no_fields s = s
  substitute (Fields.field k v variables) s =
      substitute variables (replace (placeholder k) (texts.str v) s)

  unfoldable pub resolve_config : ApplicationTemplate → Value → Uuid → Result Value
  unfolding substitute variables_of
  resolve_config template inputs id = read_object inputs >>= λ members.
      texts.loads
        (substitute (variables_of id members) (texts.dumps (config_of template.deployment_steps)))

  -- No placeholder of these variables occurs in the text.
  abbrev pub IsPlain : Fields → String → Type 0
  IsPlain Fields.no_fields s = Unit {0}
  IsPlain (Fields.field k v variables) s =
      (contains (codes (placeholder k)) (codes s) ≡ false) × IsPlain variables s

  substitute-plain :
      (variables : Fields) (s : String) → IsPlain variables s → substitute variables s ≡ s
  unfolding substitute
  substitute-plain Fields.no_fields s h = refl
  substitute-plain (Fields.field k v variables) s h =
      rw (replace_absent (placeholder k) (texts.str v) s h.0) (substitute-plain variables s h.1)

  -- A text without placeholders is parsed as it is.
  pub resolve_config-plain :
      (template : ApplicationTemplate) (inputs : Fields) (id : Uuid)
      → texts.loads (texts.dumps (config_of template.deployment_steps))
        ≡ ok (config_of template.deployment_steps)
      → IsPlain (variables_of id inputs) (texts.dumps (config_of template.deployment_steps))
      → resolve_config template (Value.object inputs) id ≡ ok (config_of template.deployment_steps)
  unfolding resolve_config
  resolve_config-plain template inputs id json plain =
      let config = config_of template.deployment_steps in
      rw (substitute-plain (variables_of id inputs) (texts.dumps config) plain) json
