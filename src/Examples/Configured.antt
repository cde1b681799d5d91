-- ===== src/Examples/Configured.antt =====
-- The theorem on the steps of a resolved configuration, at the samples.
use application_as_service.Prelude.{◌≡◌, refl, inl}
use application_as_service.Prelude.Text.{append, contains, is_prefix}
use application_as_service.Outcome.{ok}
use application_as_service.Value.{Value, put}
use application_as_service.Templates.{DeploymentStepDefinition}
use application_as_service.Domain.Applications.{to_domain}
use application_as_service.DomainService.Config.{
  resolve_config, step_config, variables_of, IsPlain, merge, placeholder,
}
use application_as_service.DomainService.Operations.{new_deployment}
use application_as_service.Orchestrator.Steps.{get_step_config}
use application_as_service.Orchestrator.Configured.{get_step_config-plain}
use application_as_service.Examples.Platform.{nginx, two_workers, site_row, texts}

two_workers-IsPlain : IsPlain texts (variables_of texts 2 two_workers) "{web}"
unfolding variables_of merge put contains placeholder is_prefix append
two_workers-IsPlain = (refl, (refl, (refl, tt)))

get_step_config-plain_example :
    (config : Value) × (step : DeploymentStepDefinition) × (resolve_config texts nginx
        (Value.object two_workers)
        2
      ≡ ok config)
    × (step.step_id ≡ "web")
    × (get_step_config (new_deployment 80 9 (to_domain site_row) nginx config) "web"
        ≡ ok (step_config step))
get_step_config-plain_example =
    get_step_config-plain texts nginx two_workers (to_domain site_row) 80 9 refl refl
      two_workers-IsPlain "web" (inl refl)
