-- ===== src/Examples/Nodes.antt =====
-- The theorems on nodes and on the steps of a deployment, at the samples.
use application_as_service.Prelude.{ℕ, ◌≡◌, ◌⊎◌, refl, none, some, [], ◌∷◌, arith, sort_by}
use application_as_service.Prelude.Table as Rows
use application_as_service.Outcome.{ok, err, type_error}
use application_as_service.Value.{Value, Fields}
use application_as_service.Postgres.{row_id}
use application_as_service.Domain.Deployments
use application_as_service.Domain.Deployments.{deployment_to_orm}
use application_as_service.Domain.Resources
use application_as_service.Templates.Json.{◌⊳◌}
use application_as_service.Executor.Thread.{find_resource}
use application_as_service.Nodes.{InfrastructureNode, ready}
use application_as_service.Nodes.Table.{NodeRows, orm_to_node, get}
use application_as_service.Nodes.Manager.{select_node, report_capacity, check_stale_nodes}
use application_as_service.Nodes.Selection.{Best, select_node-Best}
use application_as_service.Nodes.Upkeep.{check_stale_nodes_never, report_capacity_ready}
use application_as_service.Orchestrator.{Platform}
use application_as_service.Orchestrator.Steps.{
  Demand, demand_of, execute_container_step, step_result,
}
use application_as_service.Orchestrator.Queued.{IsAwaited, execute_container_step-IsAwaited}
use application_as_service.Examples.{session}
use application_as_service.Examples.Platform.{
  tables, thousandths, no_integer, web_spec, web_step, rollout, texts, node_row, platform,
  fresh_ids,
}

abbrev nodes : NodeRows ℕ
nodes = record node_row { node_id = 5; active_containers = 3 } ∷ node_row ∷ []

select_node-Best_example :
    Best thousandths "docker" 500 512 1 nodes (select_node thousandths "docker" 500 512 1 nodes)
select_node-Best_example = select_node-Best thousandths "docker" 500 512 1 nodes

check_stale_nodes_never_example :
    (check_stale_nodes session 900000000 5 nodes ≡ (err type_error, nodes))
    ⊎ (check_stale_nodes session 900000000 5 nodes ≡ (ok [], nodes))
check_stale_nodes_never_example = check_stale_nodes_never session 900000000 5 nodes

abbrev node_6 : InfrastructureNode ℕ
node_6 = orm_to_node node_row

found_6 : get 6 nodes ≡ some node_6
unfolding get Rows.find
found_6 = refl

report_capacity_ready_example :
    ((report_capacity session thousandths 6 1000 512 10 2 nodes).0 ≡ ok tt)
    × (get 6 (report_capacity session thousandths 6 1000 512 10 2 nodes).1
        ≡ some (record node_6 {
          available_cpu = 1000;
          available_memory = 512;
          available_storage = 10;
          active_containers = 2;
          status = ready;
        }))
report_capacity_ready_example =
    report_capacity_ready session thousandths 6 1000 512 10 2 node_6 nodes found_6 (omega arith)
      refl

abbrev web_config : Fields
web_config =
    ("step_id", Value.text "web") ⊳ ("spec_template", Value.object web_spec) ⊳ Fields.no_fields

abbrev wanted : Demand ℕ
wanted = record { spec = Value.object web_spec; name = Value.text "web"; cpu = 500; memory = 512 }

demanded : demand_of thousandths no_integer (Value.object web_config) ≡ ok wanted
unfolding demand_of
demanded = refl

chosen : select_node thousandths "docker" 500 512 1 (node_row ∷ []) ≡ some node_6
unfolding select_node sort_by
chosen = refl

no_execution : Rows.find row_id 7 [] ≡ none
unfolding Rows.find
no_execution = refl

no_resource : Rows.find Resources.row_id 3 [] ≡ none
unfolding Rows.find
no_resource = refl

unseen : find_resource texts.uuid_text 7 [] ≡ none
unfolding find_resource
unseen = refl

deployment_kept :
    Rows.find Deployments.row_id 4 tables.deployments ≡ some (deployment_to_orm session rollout)
unfolding Rows.find
deployment_kept = refl

execute_container_step-IsAwaited_example :
    (after : Platform ℕ) × (execute_container_step thousandths no_integer texts session fresh_ids
        rollout web_step
        (Value.object web_config)
        platform
      ≡ (ok (step_result texts fresh_ids rollout node_6 (Value.text "web")), after))
    × IsAwaited thousandths no_integer texts session fresh_ids rollout node_6 after
execute_container_step-IsAwaited_example =
    execute_container_step-IsAwaited thousandths no_integer texts session fresh_ids rollout web_step
      web_config wanted "web" node_6 platform (deployment_to_orm session rollout) demanded refl
      chosen no_execution no_resource unseen deployment_kept
