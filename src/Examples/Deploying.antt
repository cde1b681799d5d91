-- ===== src/Examples/Deploying.antt =====
-- The theorems on templates, on the domain service and on the orchestrator, at the samples.
use application_as_service.Prelude.{
  ℕ, ◌*◌, ◌+◌, ◌<◌, ◌≡◌, ◌⊎◌, ◌↔◌, refl, String, Bool, true, false, Option, none, some, [], ◌∷◌,
  str_eq, All, arith, if◌then◌else◌,
}
use application_as_service.Outcome.{Result, Error, ok}
use application_as_service.Value.{Value, truthy}
use application_as_service.Execution.{Execution}
use application_as_service.Domain.Applications.{ApplicationOrm}
use application_as_service.Nodes.Table.{orm_to_node}
use application_as_service.Nodes.{InfrastructureNode}
use application_as_service.Templates.{ApplicationTemplate}
use application_as_service.Templates.Table
use application_as_service.Templates.Table.{find_template}
use application_as_service.Templates.Storing.{stored, get-create_template}
use application_as_service.DomainService.Inputs.{validate_inputs, IsAccepted}
use application_as_service.DomainService.Accepting.{validate_inputs_iff}
use application_as_service.DomainService.Applying.{IsRefused, IsCreated, create_application_outcome}
use application_as_service.DomainService.Deploying.{IsDeployed, create_deployment_outcome}
use application_as_service.DomainService.Operations.{
  get_template, get_application, create_application, create_deployment,
}
use application_as_service.Orchestrator.Starting.{start_deployment}
use application_as_service.Orchestrator.Outcomes.{IsSettled, IsConfined, start_deployment_outcome}
use application_as_service.Orchestrator.Waiting.{IsFirst, wait_for_execution_ends}
use application_as_service.Orchestrator.Delivery.{IsDelivered, execute_deployment-step_execution}
use application_as_service.Orchestrator.Steps.{step_execution}
use application_as_service.RuntimeAgent.Client.{timeout, execute_deployment}
use application_as_service.Examples.{session}
use application_as_service.Examples.Platform.{
  thousandths, no_integer, web_spec, workers_input, nginx, two_workers, rollout, texts, node_row,
  tables, platform, fresh_ids, nginx_found, rollout_found,
}

no_template : find_template "nginx" [] ≡ none
unfolding find_template
no_template = refl

get-create_template_example :
    ((Table.create session nginx []).0 ≡ ok tt)
    × ((id : String)
        → Table.get id (Table.create session nginx []).1
          ≡ (if str_eq "nginx" id then ok (some (stored session nginx)) else Table.get id []))
get-create_template_example = get-create_template session nginx [] no_template

abbrev no_match : String → Value → Result Bool
no_match regex value = ok false

validate_inputs_iff_example :
    (validate_inputs no_integer no_match (workers_input ∷ []) two_workers ≡ ok tt)
    ↔ All (IsAccepted no_integer no_match two_workers) (workers_input ∷ [])
validate_inputs_iff_example =
    validate_inputs_iff no_integer no_match two_workers (workers_input ∷ [])

create_application_outcome_example :
    IsRefused tables (
      create_application session no_integer no_match 70 71 5 1 "nginx" "shop" two_workers none
        tables)
    ⊎ ((template : ApplicationTemplate) × (get_template "nginx" tables ≡ ok (some template))
        × IsCreated session no_integer no_match 70 71 5 1 "shop" two_workers none template tables (
            create_application session no_integer no_match 70 71 5 1 "nginx" "shop" two_workers none
              tables))
create_application_outcome_example =
    create_application_outcome session no_integer no_match 70 71 5 1 "shop" two_workers none "nginx"
      tables

abbrev touch : ApplicationOrm → ApplicationOrm → ℕ
touch before after = 90

create_deployment_outcome_example :
    IsRefused tables (create_deployment session touch texts 80 9 2 tables)
    ⊎ ((app : _) × (template : ApplicationTemplate) × (get_application 2 tables ≡ some app)
        × (get_template app.template_id tables ≡ ok (some template))
        × IsDeployed session touch texts 80 9 app template tables
            (create_deployment session touch texts 80 9 2 tables))
create_deployment_outcome_example = create_deployment_outcome session touch texts 80 9 2 tables

abbrev text_of : Error → String
text_of e = "no node"

start_deployment_outcome_example :
    IsSettled session text_of 100 101 rollout (
      start_deployment thousandths no_integer texts session text_of 100 101
        (λ i. fresh_ids)
        4
        platform)
    × IsConfined session text_of 100 101 4 platform (
        start_deployment thousandths no_integer texts session text_of 100 101
          (λ i. fresh_ids)
          4
          platform)
start_deployment_outcome_example =
    start_deployment_outcome session text_of 100 101 thousandths no_integer texts (λ i. fresh_ids) 4
      platform rollout (stored session nginx) rollout_found nginx_found

abbrev never_there : ℕ → Option Execution
never_there i = none

wait_for_execution_ends_example :
    (n : ℕ) × (n < 152) × IsFirst texts never_there (λ i. 5 + i * 2000000) 5 300 152 0 n
wait_for_execution_ends_example =
    wait_for_execution_ends texts never_there (λ i. 5 + i * 2000000) 5 300 (λ i. omega arith)

abbrev node_6 : InfrastructureNode ℕ
node_6 = orm_to_node node_row

execute_deployment-step_execution_example :
    IsDelivered
      (λ url. true)
      (λ url spec. timeout)
      "120"
      (Value.text "u")
      "http://10.0.0.1:9000"
      (Value.object web_spec)
      (execute_deployment
        (λ url. true)
        (λ url spec. timeout)
        "120"
        (step_execution texts fresh_ids rollout node_6 (Value.object web_spec)).spec)
unfolding truthy
execute_deployment-step_execution_example =
    execute_deployment-step_execution (λ url. true) (λ url spec. timeout) "120" texts fresh_ids
      rollout node_6 (Value.object web_spec) refl refl refl
