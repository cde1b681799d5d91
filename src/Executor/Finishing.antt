-- ===== src/Executor/Finishing.antt =====
-- How the thread of an execution ends.
use application_as_service.Prelude.{
  ℕ, ◌+◌, ◌<◌, ◌≡◌, ◌==◌, if◌then◌else◌, refl, str_eq, String, false, some, arith, ap, ◌∙◌, ◌⊎◌,
  Option-cases, inl, inr,
}
use application_as_service.Prelude.Table
use application_as_service.Outcome.{Error}
use application_as_service.Value.{Value, Fields, put}
use application_as_service.Domain.{starting}
use application_as_service.Domain.Resources
use application_as_service.Domain.Resources.{DeployedResourceOrm}
use application_as_service.Execution
use application_as_service.Execution.{Uuid, Execution}
use application_as_service.Postgres
use application_as_service.Postgres.{
  ExecutionOrm, Rows, row_id, postgres, orm_to_domain, final_row, updated_row,
}
use application_as_service.Service.Accepted.{complete_accepted}
use application_as_service.Slots.{give_back}
use application_as_service.Executor.{forget}
use application_as_service.Executor.Thread.{
  Deployed, done, raised, Host, update_deployed_resource, with_result, save_and_complete,
  execute_in_thread, finish, mark_failed, find_resource, deployed_row, merged,
}

Deployed-cases :
    (d : Deployed)
    → ((reason : String) × (d ≡ raised reason))
      ⊎ ((container_id : String) × (result : Value) × (d ≡ done container_id result))
Deployed-cases (raised reason) = inl (reason, refl)
Deployed-cases (done container_id result) = inr (container_id, result, refl)

-- The row with the result of its deployment.
abbrev pub result_row : Value → ExecutionOrm → ExecutionOrm
result_row result row = record row { deployment_result = some result; version = row.version + 1 }

module _ (local : ℕ → ℕ) where
  save_accepted :
      (result : Value) (id : Uuid) (row : ExecutionOrm) (rows : Rows)
      → Table.find row_id id rows ≡ some row
      → (Postgres.update local (with_result result (orm_to_domain row)) rows).1
        ≡ Table.replace row_id (result_row result row) rows
  unfolding Postgres.update orm_to_domain
  save_accepted result id row rows found =
      let key = Table.key-find row_id id rows row found in
      let found' = ap (λ k. Table.find row_id k rows) key ∙ found in ground (arith, found')

  module _ (executor_id : String) (uuid_text : Uuid → String) (text_of : Error → String)
      (deploy : Uuid → Value → Deployed) (clock : ℕ → ℕ) where
    save_keeps :
        (id : Uuid) (container_id : String) (result : Value) (e : Execution) (h : Host)
        → let h' =
            save_and_complete local executor_id uuid_text text_of deploy clock id container_id
              result e h in
          (h'.machine.slots ≡ h.machine.slots) × (h'.machine.running ≡ h.machine.running)
    unfolding save_and_complete mark_failed
    save_keeps id container_id result e h = ground arith

    -- Whatever happens in the thread of an execution, at its end its slot is given back and it is
    -- not among the running ones, and nothing else of the slots and of the running executions is
    -- changed.
    pub execute_in_thread_releases :
        (id : Uuid) (h : Host)
        → let h' = execute_in_thread local executor_id uuid_text text_of deploy clock id h in
          (h'.machine.slots ≡ give_back id h.machine.slots)
          × (h'.machine.running ≡ forget id h.machine.running)
    unfolding execute_in_thread finish mark_failed
    execute_in_thread_releases id h = elim (Option-cases (Postgres.get id h.machine.world.store)) [
      | inl missing ↦ ground arith
      | inr (e, found) ↦ elim (Deployed-cases (deploy id e.spec)) [
        | inl (reason, failed) ↦ ground arith
        | inr (container_id, result, deployed) ↦
            ground (arith, save_keeps id container_id result e h)
      ]
    ]

    -- A STARTED execution with a lease of this executor that is not over when it is completed,
    -- and whose deployment succeeds, is COMPLETED with the result at the end of its thread.
    execute_in_thread_completes :
        (id : Uuid) (h : Host) (row : ExecutionOrm) (expiry : ℕ) (container_id : String)
        (result : Value)
        → Table.find row_id id h.machine.world.store ≡ some row
        → row.state ≡ Execution.started
        → row.lease_owner ≡ some executor_id
        → row.lease_expires_at ≡ some expiry
        → clock 0 < expiry
        → clock 1 < expiry
        → deploy id row.spec ≡ done container_id result
        → let h' = execute_in_thread local executor_id uuid_text text_of deploy clock id h in
          (Table.find row_id id h'.machine.world.store
            ≡ some (final_row (clock 1) Execution.completed (result_row result row)))
          × (h'.resources ≡ update_deployed_resource uuid_text id container_id result h.resources)
    unfolding execute_in_thread save_and_complete finish Postgres.get orm_to_domain
    execute_in_thread_completes id h row expiry container_id result found ready owned leased live
          live' deployed =
        let row₁ = result_row result row in
        let saved = save_accepted result id row h.machine.world.store found in
        let found₁ = Table.find-replace_found row_id id row₁ h.machine.world.store row refl found in
        let w₁ = record h.machine.world {
          store = Table.replace row_id row₁ h.machine.world.store;
        } in
        let completed =
          complete_accepted local (clock 0) (clock 1) (clock 2) id executor_id w₁ row₁ expiry found₁
            owned leased live live' ready in
        let after =
          Table.find-replace_found row_id id (final_row (clock 1) Execution.completed row₁) w₁.store
            row₁ refl found₁ in
        ground (arith, found, deployed, saved, completed, after)

    -- A STARTED execution with a lease of this executor that is not over when it is completed,
    -- and whose deployment succeeds with a container, is COMPLETED with the result at the end of
    -- its thread. If the query by the execution's id finds a resource, which its own id finds too
    -- and whose specification is a dictionary, that resource then has the container's id, the
    -- status running and the health STARTING, and the result under deployment_result in its
    -- specification; and the other resources are as they were.
    pub execute_in_thread_delivers :
        (id : Uuid) (h : Host) (row : ExecutionOrm) (expiry : ℕ) (container_id : String)
        (result : Value) (resource : DeployedResourceOrm) (members : Fields)
        → Table.find row_id id h.machine.world.store ≡ some row
        → row.state ≡ Execution.started
        → row.lease_owner ≡ some executor_id
        → row.lease_expires_at ≡ some expiry
        → clock 0 < expiry
        → clock 1 < expiry
        → deploy id row.spec ≡ done container_id result
        → str_eq container_id "" ≡ false
        → find_resource uuid_text id h.resources ≡ some resource
        → Table.find Resources.row_id resource.resource_id h.resources ≡ some resource
        → resource.spec ≡ Value.object members
        → let h' = execute_in_thread local executor_id uuid_text text_of deploy clock id h in
          (Table.find row_id id h'.machine.world.store
            ≡ some (final_row (clock 1) Execution.completed (result_row result row)))
          × ((j : Uuid)
              → Table.find Resources.row_id j h'.resources ≡ (
                  if resource.resource_id == j
                  then some (record resource {
                    external_id = container_id;
                    status = "running";
                    health_status = starting;
                    spec = Value.object (put "deployment_result" result members);
                  })
                  else Table.find Resources.row_id j h.resources))
    unfolding update_deployed_resource
    execute_in_thread_delivers id h row expiry container_id result resource members found ready
          owned leased live live' deployed named sought kept held =
        let (completed, written) =
          execute_in_thread_completes id h row expiry container_id result found ready owned leased
            live live' deployed in
        let shown = deployed_row uuid_text container_id result resource in
        let updated : update_deployed_resource uuid_text id container_id result h.resources
            ≡ Table.replace Resources.row_id shown h.resources =
          rw (named, sought) refl in
        let merged_spec : merged uuid_text result resource.spec
            ≡ Value.object (put "deployment_result" result members) =
          rw held refl in
        (
          completed,
          λ j.
              rw (written, updated, ← merged_spec)
                (Table.find-replace_if Resources.row_id shown h.resources resource kept j),
        )
