-- ===== src/Orchestrator/Queued.antt =====
-- What a container step leaves for the executor.
use application_as_service.Prelude.{
  ℕ, ◌≡◌, inl, inr, refl, ◌∙◌, String, true, false, Option, none, some, [], ◌∷◌, ◌++◌, arith,
  str_eq, Bool-cases,
}
use text.Mathlib.TextEquality.{eq_iff}
use application_as_service.Prelude.Table
use application_as_service.Outcome.{ok}
use application_as_service.Value.{Value, Fields, lookup, put}
use application_as_service.Integers.{ℤ}
use application_as_service.Floats.{Floats}
use application_as_service.Execution
use application_as_service.Execution.{Uuid, Execution}
use application_as_service.Postgres
use application_as_service.Postgres.{
  Rows, row_id, postgres, orm_to_domain, domain_to_orm, updated_row,
}
use application_as_service.Service.Calls.{PostgresWorld}
use application_as_service.Events.{execution_registered, take_all}
use application_as_service.Service.Accepted.{register_accepted, queued_execution, queue_accepted}
use application_as_service.Domain.{Deployment}
use application_as_service.Domain.Deployments
use application_as_service.Domain.Deployments.{DeploymentOrm}
use application_as_service.Domain.Resources
use application_as_service.Domain.Resources.{DeployedResourceOrm, Resources, resource_to_orm}
use application_as_service.Nodes.{InfrastructureNode}
use application_as_service.Nodes.Manager.{select_node}
use application_as_service.Nodes.Selection.{select_node-found}
use application_as_service.Templates.{DeploymentStepDefinition}
use application_as_service.Templates.Json.{of_health_check}
use application_as_service.DomainService.Config.{Texts}
use application_as_service.Executor.Thread.{is_for, find_resource}
use application_as_service.Orchestrator.{Platform}
use application_as_service.Orchestrator.Steps.{
  Fresh, Demand, demand_of, step_execution, step_resource, step_result, tracked_spec,
  execute_container_step,
}

str_eq_refl : (s : String) → str_eq s s ≡ true
str_eq_refl s = (eq_iff s s).1 refl

lookup-put_self : (k : String) (v : Value) (members : Fields) → lookup k (put k v members) ≡ some v
unfolding lookup put
lookup-put_self k v Fields.no_fields = ground (arith, eq_iff k k)
lookup-put_self k v (Fields.field j w members) =
    ground (arith, lookup-put_self k v members, eq_iff j k)

lookup-put_other :
    (k j : String) (v : Value) (members : Fields)
    → str_eq j k ≡ false
    → lookup k (put j v members) ≡ lookup k members
unfolding lookup put
lookup-put_other k j v Fields.no_fields h = ground arith
lookup-put_other k j v (Fields.field i w members) h =
    ground (arith, lookup-put_other k j v members h, eq_iff i j, eq_iff i k, eq_iff j k)

module _ (uuid_text : Uuid → String) where
  tracked_spec-is_for :
      (id : Uuid) (check : Value) (members : Fields)
      → is_for uuid_text id (tracked_spec (Value.text (uuid_text id)) check (Value.object members))
        ≡ true
  tracked_spec-is_for id check members =
      let inner = put "execution_id" (Value.text (uuid_text id)) members in
      let e =
        lookup-put_other "execution_id" "health_check" check inner refl
        ∙ lookup-put_self "execution_id" (Value.text (uuid_text id)) members in
      rw e (str_eq_refl (uuid_text id))

  find_resource-append :
      (id : Uuid) (row : DeployedResourceOrm) (rows : Resources)
      → is_for uuid_text id row.spec ≡ true
      → find_resource uuid_text id rows ≡ none
      → find_resource uuid_text id (rows ++ row ∷ []) ≡ some row
  unfolding find_resource
  find_resource-append id row [] h missing = rw h refl
  find_resource-append id row (old ∷ rows) h missing =
      elim (Bool-cases (is_for uuid_text id old.spec)) [
        | inl here ↦ absurd (ground arith)
        | inr other ↦ rw other (find_resource-append id row rows h (rw other at missing))
      ]

module _ {F : Type 0} (floats : Floats F) (parse : String → Option ℤ) (texts : Texts)
    (local : ℕ → ℕ) where
  -- The execution is QUEUED for the deployment, and the resource that waits for it is on the node.
  abbrev pub IsAwaited : Fresh → Deployment → InfrastructureNode F → Platform F → Type 0
  IsAwaited fresh d node after =
      ((e : Execution) × (Postgres.get fresh.execution_id after.engine.store ≡ some e)
        × (e.state ≡ Execution.queued)
        × (e.deployment_id ≡ some d.deployment_id))
      × ((row : DeployedResourceOrm) × (find_resource texts.uuid_text fresh.execution_id
              after.resources
            ≡ some row)
          × (row.status ≡ "pending")
          × (row.deployment_id ≡ d.deployment_id)
          × (row.node_id ≡ node.node_id))

  -- A container step of a deployment in the table, whose configuration can be read, whose name is
  -- a text, for which a node is selected, whose execution and resource have new ids, and whose
  -- execution no resource refers to, returns; then its execution is QUEUED for the deployment,
  -- and the query of the executor finds for it a resource of the deployment, on the node and with
  -- the status pending.
  pub execute_container_step-IsAwaited :
      (fresh : Fresh) (d : Deployment) (step : DeploymentStepDefinition) (members : Fields)
      (demand : Demand F) (name : String) (node : InfrastructureNode F) (s : Platform F)
      (planned : DeploymentOrm)
      → demand_of floats parse (Value.object members) ≡ ok demand
      → demand.name ≡ Value.text name
      → select_node floats "docker" demand.cpu demand.memory 1 s.nodes ≡ some node
      → Table.find row_id fresh.execution_id s.engine.store ≡ none
      → Table.find Resources.row_id fresh.resource_id s.resources ≡ none
      → find_resource texts.uuid_text fresh.execution_id s.resources ≡ none
      → Table.find Deployments.row_id d.deployment_id s.domain.deployments ≡ some planned
      → (after : Platform F) × (execute_container_step floats parse texts local fresh d step
            (Value.object members)
            s
          ≡ (ok (step_result texts fresh d node demand.name), after))
        × IsAwaited fresh d node after
  unfolding execute_container_step domain_to_orm orm_to_domain Resources.create Postgres.get
  execute_container_step-IsAwaited fresh d step members demand name node s planned wanted named
        chosen new untracked unseen kept =
      let (node_row, there_node) =
        select_node-found floats "docker" demand.cpu demand.memory 1 s.nodes node chosen in
      let e = step_execution texts fresh d node demand.spec in
      let row = domain_to_orm local e in
      let one = register_accepted local fresh.registered e s.engine new in
      let there = Table.find-append_self row_id row s.engine.store new in
      let engine : PostgresWorld = record {
        store = s.engine.store ++ row ∷ [];
        emitters = take_all (execution_registered fresh.registered e) s.engine.emitters;
      } in
      let two =
        queue_accepted local fresh.queued fresh.announced e.execution_id engine row there refl in
      let queued_row =
        updated_row local (queued_execution local fresh.queued (orm_to_domain row)) row in
      let last =
        Table.find-replace_found row_id fresh.execution_id queued_row (s.engine.store ++ row ∷ [])
          row refl there in
      let resource =
        resource_to_orm local (step_resource texts fresh d node step (Value.object members) name) in
      rw (wanted, chosen, one, two, named, untracked, kept, there_node, Resources.create)
        (
          _,
          refl,
          (
            (orm_to_domain queued_row, rw (last, Postgres.get) refl, refl, refl),
            (
              resource,
              find_resource-append texts.uuid_text fresh.execution_id resource s.resources
                  (tracked_spec-is_for texts.uuid_text fresh.execution_id
                    (of_health_check step.health_check) members)
                  unseen,
              refl,
              refl,
              refl,
            ),
          ),
        )
