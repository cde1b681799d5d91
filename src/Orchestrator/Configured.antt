-- ===== src/Orchestrator/Configured.antt =====
-- From the domain service to the orchestrator: the steps that `_execute_step` looks up in the resolved
-- configuration of a deployment.
use application_as_service.Prelude.{
  ℕ, ◌≡◌, inl, inr, refl, String, Option, some, List, [], ◌∷◌, arith, str_eq, Any, Bool-cases,
}
use text.Mathlib.TextEquality.{eq_iff}
use application_as_service.Outcome.{ok}
use application_as_service.Value.{Value, Fields, lookup}
use application_as_service.Execution.{Uuid}
use application_as_service.Domain.{Application}
use application_as_service.Templates.{DeploymentStepDefinition, ApplicationTemplate}
use application_as_service.Templates.Json.{array_of}
use application_as_service.DomainService.Config.{
  Texts, step_config, config_of, variables_of, resolve_config, IsPlain, resolve_config-plain,
}
use application_as_service.DomainService.Operations.{new_deployment}
use application_as_service.Orchestrator.Steps.{find_step, get_step_config}

-- The configuration of a step with the id is among those of the steps.
abbrev pub IsFound : String → Option Value → Type 0
IsFound id r =
    (step : DeploymentStepDefinition) × (step.step_id ≡ id) × (r ≡ some (step_config step))

find_step-IsFound :
    (id : String) (steps : List DeploymentStepDefinition)
    → Any (λ step. step.step_id ≡ id) steps
    → (r : Option Value) × (find_step id (array_of step_config steps) ≡ ok r) × IsFound id r
unfolding find_step lookup
find_step-IsFound id [] h = elim h [ ]
find_step-IsFound id (step ∷ steps) h = elim (Bool-cases (str_eq step.step_id id)) [
  | inl here ↦
      (some (step_config step), rw here refl, (step, (eq_iff step.step_id id).0 here, refl))
  | inr other ↦ elim h [
    | inl same ↦ absurd (ground (arith, eq_iff step.step_id id))
    | inr there ↦
        let (r, found, known) = find_step-IsFound id steps there in (r, rw other found, known)
  ]
]

-- If the inputs of an application are a dictionary, no placeholder of a variable occurs in the
-- JSON text of the steps of its template, and the parser gives back what that text was made of,
-- the configuration is resolved, and in a deployment with it the orchestrator finds for the id of
-- each step of the template the configuration of a step with this id.
pub get_step_config-plain :
    (texts : Texts) (template : ApplicationTemplate) (inputs : Fields) (app : Application) (now : ℕ)
    (id : Uuid)
    → app.user_inputs ≡ Value.object inputs
    → texts.loads (texts.dumps (config_of template.deployment_steps))
      ≡ ok (config_of template.deployment_steps)
    → IsPlain texts
        (variables_of texts app.application_id inputs)
        (texts.dumps (config_of template.deployment_steps))
    → (step_id : String) → Any (λ step. step.step_id ≡ step_id) template.deployment_steps
    → (config : Value) × (step : DeploymentStepDefinition) × (resolve_config texts template
          app.user_inputs app.application_id
        ≡ ok config)
      × (step.step_id ≡ step_id)
      × (get_step_config (new_deployment now id app template config) step_id
          ≡ ok (step_config step))
unfolding get_step_config lookup
get_step_config-plain texts template inputs app now id given json plain step_id h =
    let config = config_of template.deployment_steps in
    let (r, found, (step, same, known)) = find_step-IsFound step_id template.deployment_steps h in
    (
      config,
      step,
      rw given (resolve_config-plain texts template inputs app.application_id json plain),
      same,
      rw (found, known) refl,
    )
