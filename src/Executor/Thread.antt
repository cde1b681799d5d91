-- ===== src/Executor/Thread.antt =====
-- execution_engine/executor/executor.py, `_execute_in_thread`: what the thread of an execution does
-- once it is claimed. `deploy` is the runtime executor: the result of the deployment, with the
-- container's id in it, or the text of the exception. `text_of` is `str` of an exception of the
-- engine, and `uuid_text` that of a UUID.
use application_as_service.Prelude.{
  ℕ, ◌+◌, String, Bool, false, Option, none, some, [], ◌∷◌, str_eq, if◌then◌else◌,
}
use application_as_service.Prelude.Table
use application_as_service.Outcome.{Result, ok, err, Error, runtime_error}
use application_as_service.Value.{Value, lookup, put}
use application_as_service.Execution.{Uuid, Execution}
use application_as_service.Domain.{starting}
use application_as_service.Domain.Resources
use application_as_service.Domain.Resources.{DeployedResourceOrm, Resources}
use application_as_service.Postgres
use application_as_service.Postgres.{
  ExecutionOrm, Rows, row_id, postgres, orm_to_domain, final_row, updated_row,
}
use application_as_service.Service.{complete_execution, fail_execution}
use application_as_service.Service.Calls.{PostgresWorld}
use application_as_service.Slots.{give_back}
use application_as_service.Executor.{Machine, forget}

pub data Deployed : Type 0 where
  done : String → Value → Deployed
  raised : String → Deployed

-- What the thread reaches: the machine of the executor and the table of the resources.
pub record Host : Type 0 where
  pub machine : Machine
  pub resources : Resources

module _ (uuid_text : Uuid → String) where
  -- `spec->>'execution_id' = :execution_id`
  abbrev pub same_text : Uuid → Option Value → Bool
  same_text id (some (Value.text s)) = str_eq s (uuid_text id)
  same_text id _ = false

  abbrev pub is_for : Uuid → Value → Bool
  is_for id (Value.object fields) = same_text id (lookup "execution_id" fields)
  is_for id _ = false

  -- `fetchone` of the query: the first row.
  unfoldable pub find_resource : Uuid → Resources → Option DeployedResourceOrm
  find_resource id [] = none
  find_resource id (row ∷ rows) =
      let rest = find_resource id rows in if is_for id row.spec then some row else rest

  abbrev pub merged : Value → Value → Value
  merged result (Value.object fields) = Value.object (put "deployment_result" result fields)
  merged result v = v

  abbrev pub deployed_row : String → Value → DeployedResourceOrm → DeployedResourceOrm
  deployed_row container_id result row = record row {
    external_id = container_id;
    status = "running";
    health_status = starting;
    spec = merged result row.spec;
  }

  abbrev pub set_deployed : String → Value → Resources → Option DeployedResourceOrm → Resources
  set_deployed container_id result rows none = rows
  set_deployed container_id result rows (some row) =
      Table.replace Resources.row_id (deployed_row container_id result row) rows

  -- `_update_deployed_resource`, whose exceptions are logged
  unfoldable pub update_deployed_resource : Uuid → String → Value → Resources → Resources
  unfolding find_resource
  update_deployed_resource id container_id result rows =
      if str_eq container_id ""
      then rows
      else set_deployed container_id result rows (find_resource id rows)

-- The execution with the result of its deployment.
abbrev pub with_result : Value → Execution → Execution
with_result result e = record e { deployment_result = some result; version = e.version + 1 }

module _ (local : ℕ → ℕ) (executor_id : String) (uuid_text : Uuid → String)
    (text_of : Error → String) (deploy : Uuid → Value → Deployed) (clock : ℕ → ℕ) where
  abbrev pub put_world : PostgresWorld → Host → Host
  put_world w h = record h { machine = record h.machine { world = w } }

  -- `finally`: the slot is released and the execution forgotten.
  unfoldable pub finish : Uuid → Host → Host
  finish id h = record h {
    machine = record h.machine {
      slots = give_back id h.machine.slots;
      running = forget id h.machine.running;
    };
  }

  -- `except`: the execution fails; an exception of that is logged.
  unfoldable pub mark_failed : Uuid → String → Host → Host
  mark_failed id reason h =
      put_world
        (fail_execution (postgres local) (clock 3) (clock 4) (clock 5) id executor_id reason
          h.machine.world).1
        h

  abbrev pub after_complete : Uuid → Host → Result (Unit {0}) × PostgresWorld → Host
  after_complete id h (ok completed, w) = put_world w h
  after_complete id h (err x, w) = mark_failed id (text_of x) (put_world w h)

  -- From the fresh execution on; an exception of `update` is logged.
  unfoldable pub save_and_complete : Uuid → String → Value → Execution → Host → Host
  unfolding update_deployed_resource mark_failed
  save_and_complete id container_id result e h =
      let w = h.machine.world in
      let saved = record w { store = (Postgres.update local (with_result result e) w.store).1 } in
      let shown = update_deployed_resource uuid_text id container_id result h.resources in
      let h' = record (put_world saved h) { resources = shown } in
      after_complete id h' (
        complete_execution (postgres local) (clock 0) (clock 1) (clock 2) id executor_id
          h'.machine.world)

  abbrev pub with_fresh : Uuid → String → Value → Option Execution → Host → Host
  with_fresh id container_id result none h = mark_failed id (text_of runtime_error) h
  with_fresh id container_id result (some e) h = save_and_complete id container_id result e h

  abbrev pub after_deploy : Uuid → Deployed → Host → Host
  after_deploy id (raised reason) h = mark_failed id reason h
  after_deploy id (done container_id result) h =
      with_fresh id container_id result (Postgres.get id h.machine.world.store) h

  abbrev pub with_execution : Uuid → Option Execution → Host → Host
  with_execution id none h = h
  with_execution id (some e) h = after_deploy id (deploy id e.spec) h

  -- `_execute_in_thread`
  unfoldable pub execute_in_thread : Uuid → Host → Host
  unfolding finish save_and_complete mark_failed
  execute_in_thread id h = finish id (with_execution id (Postgres.get id h.machine.world.store) h)
