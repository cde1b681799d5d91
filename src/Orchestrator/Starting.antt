-- ===== src/Orchestrator/Starting.antt =====
-- `start_deployment` of execution_engine/orchestrator/deployment_orchestrator.py. `text_of` is `str` of
-- an exception, and `fresh i` what the step in place i takes of the clock and of the UUIDs.
use application_as_service.Prelude.{
  ℕ, suc, String, Bool, Option, none, some, List, [], ◌∷◌, leb, sort_by,
}
use application_as_service.Prelude.Text.{append}
use application_as_service.Outcome.{
  Error, Result, ok, err, Action, proceed, and_then, pure, raise, value_error,
}
use application_as_service.Time.{aware}
use application_as_service.Integers.{ℤ}
use application_as_service.Floats.{Floats}
use application_as_service.Execution.{Uuid}
use application_as_service.Domain.{DeploymentStatus, Deployment}
use application_as_service.Domain.Deployments
use application_as_service.Templates.{DeploymentStepDefinition, ApplicationTemplate}
use application_as_service.DomainService.Config.{Texts}
use application_as_service.DomainService.Operations.{on_deployments, get_template, get_deployment}
use application_as_service.Orchestrator.{Platform, on_domain}
use application_as_service.Orchestrator.Steps.{Fresh, execute_step}

abbrev pub earlier_step : DeploymentStepDefinition → DeploymentStepDefinition → Bool
earlier_step a b = leb a.order b.order

abbrev pub deploying : ℕ → Deployment → Deployment
deploying now d = record d { status = DeploymentStatus.deploying; started_at = some (aware now) }

abbrev pub broken : ℕ → String → Deployment → Deployment
broken now message d = record d {
  status = DeploymentStatus.failed;
  error_message = some (append "Orchestration error: " message);
  completed_at = some (aware now);
}

abbrev pub or_value_error : {S A : Type 0} → Option A → Action S A
or_value_error none = raise value_error
or_value_error (some a) = pure a

module _ {F : Type 0} (local : ℕ → ℕ) where
  abbrev pub save : Deployment → Action (Platform F) (Unit {0})
  save d = on_domain (on_deployments (Deployments.update local d))

module _ {F : Type 0} (floats : Floats F) (parse : String → Option ℤ) (texts : Texts)
    (local : ℕ → ℕ) where
  -- The loop over the sorted steps.
  unfoldable pub execute_steps :
      (ℕ → Fresh) → ℕ → Deployment → List DeploymentStepDefinition → Action (Platform F) (Unit {0})
  unfolding execute_step
  execute_steps fresh i d [] s = (ok tt, s)
  execute_steps fresh i d (step ∷ steps) s =
      proceed (execute_step floats parse texts local (fresh i) d step s)
        λ result. execute_steps fresh (suc i) d steps

  module _ (text_of : Error → String) where
    -- What `start_deployment` does once the loop has ended or has raised.
    abbrev pub after_steps :
        ℕ → Deployment → Result (Unit {0}) × Platform F → Result (Unit {0}) × Platform F
    after_steps now d (ok done, s) = (ok tt, s)
    after_steps now d (err e, s) =
        and_then (save local (broken now (text_of e) d)) (λ saved. raise e) s

    abbrev pub start_steps :
        ℕ → ℕ → (ℕ → Fresh) → Deployment → ApplicationTemplate → Action (Platform F) (Unit {0})
    start_steps now now' fresh d template = and_then (save local (deploying now d)) λ saved s.
        after_steps now' (deploying now d) (
          execute_steps fresh 0 (deploying now d) (sort_by earlier_step template.deployment_steps)
            s)

    unfoldable pub start_deployment : ℕ → ℕ → (ℕ → Fresh) → Uuid → Action (Platform F) (Unit {0})
    unfolding execute_steps get_deployment get_template
    start_deployment now now' fresh id s =
        proceed (or_value_error (get_deployment id s.domain) s) λ d s.
          proceed (get_template d.template_id s.domain, s)
            λ found. and_then (or_value_error found) (start_steps now now' fresh d)
