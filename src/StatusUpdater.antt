-- ===== src/StatusUpdater.antt =====
-- execution_engine/status_updater/updater.py: the worker that sets the status of a deployment and
-- of its application from the states of the deployment's executions. A cycle reads the clock at most
-- once for each deployment: `clock i` is the reading for the i-th.
pub mod Outcomes
use application_as_service.Prelude.{
  ℕ, suc, ◌≡◌, String, Bool, true, false, not, Option, none, some, List, [], ◌∷◌, ltb, leb, ◌==◌,
  str_eq, length, select, count_if, sort_by, if◌then◌else◌,
}
use application_as_service.Prelude.Text.{append}
use application_as_service.Prelude.Table
use application_as_service.Outcome.{Result, ok, err, Action, proceed, and_then, pure}
use application_as_service.Time.{aware}
use application_as_service.Execution
use application_as_service.Execution.{Uuid, Execution, same_state}
use application_as_service.Postgres
use application_as_service.Postgres.{ExecutionOrm, Rows, orm_to_domain}
use application_as_service.Domain.{
  ApplicationStatus, DeploymentStatus, Application, Deployment, same_deployment_status,
  same_application_status,
}
use application_as_service.Domain.Applications
use application_as_service.Domain.Applications.{ApplicationOrm}
use application_as_service.Domain.Deployments
use application_as_service.Domain.Deployments.{DeploymentOrm}

-- The tables that the worker reads and writes.
pub record Tables : Type 0 where
  pub executions : Rows
  pub deployments : List DeploymentOrm
  pub applications : List ApplicationOrm

abbrev pub older_deployment : DeploymentOrm → DeploymentOrm → Bool
older_deployment a b = leb a.created_at b.created_at

abbrev ids_of : List DeploymentOrm → List Uuid
ids_of [] = []
ids_of (row ∷ rows) = row.deployment_id ∷ ids_of rows

-- `_find_active_deployments`
unfoldable pub find_active_deployments : List DeploymentOrm → List Uuid
find_active_deployments rows = ids_of (
    sort_by older_deployment
      (select (λ row. same_deployment_status row.status DeploymentStatus.deploying) rows))

-- `e.deployment_id = :deployment_id` in SQL
abbrev pub belongs_to : Uuid → ExecutionOrm → Bool
belongs_to id row = elim row.deployment_id [ none ↦ false | some d ↦ d == id ]

abbrev pub older_execution : ExecutionOrm → ExecutionOrm → Bool
older_execution a b = leb a.created_at b.created_at

-- The execution of each row that was read is read again by its id.
unfoldable pub read_again : Rows → Rows → List Execution
read_again table [] = []
read_again table (row ∷ rows) =
    let rest = read_again table rows in
    elim (Postgres.get row.execution_id table) [ none ↦ rest | some e ↦ e ∷ rest ]

-- `_get_deployment_executions`
unfoldable pub get_deployment_executions : Uuid → Rows → List Execution
unfolding read_again
get_deployment_executions id table =
    read_again table (sort_by older_execution (select (belongs_to id) table))

abbrev pub is_completed : Execution → Bool
is_completed e = same_state e.state Execution.completed

abbrev pub is_failed : Execution → Bool
is_failed e = same_state e.state Execution.failed

-- `new_status`, from the counts of the executions
unfoldable pub new_status : List Execution → Option DeploymentStatus
new_status executions =
    if ltb 0 (count_if is_failed executions)
    then some DeploymentStatus.failed
    else if count_if is_completed executions == length executions
    then some DeploymentStatus.running
    else none

-- `[e.error_message for e in executions if e.error_message]`
unfoldable pub errors_of : List Execution → List String
errors_of [] = []
errors_of (e ∷ es) =
    let rest = errors_of es in
    elim e.error_message [ none ↦ rest | some m ↦ if str_eq m "" then rest else m ∷ rest ]

unfoldable pub join_errors : List String → String
join_errors [] = ""
join_errors (m ∷ []) = m
join_errors (m ∷ n ∷ ms) = append m (append "; " (join_errors (n ∷ ms)))

abbrev pub failure_message : List String → String
failure_message [] = "Deployment failed"
failure_message (m ∷ ms) = join_errors (m ∷ ms)

-- What `_apply_deployment_status` makes of the deployment.
abbrev pub with_status : ℕ → DeploymentStatus → List Execution → Deployment → Deployment
with_status now DeploymentStatus.running es d = record d {
  status = DeploymentStatus.running;
  completed_at = some (aware now);
}
with_status now DeploymentStatus.failed es d = record d {
  status = DeploymentStatus.failed;
  completed_at = some (aware now);
  error_message = some (failure_message (errors_of es));
}
with_status now s es d = record d { status = s }

-- The status of the application for that of its deployment, where there is one.
abbrev pub application_status : DeploymentStatus → Option ApplicationStatus
application_status DeploymentStatus.running = some ApplicationStatus.running
application_status DeploymentStatus.failed = some ApplicationStatus.failed
application_status _ = none

module _ (local : ℕ → ℕ) (onupdate : ApplicationOrm → ApplicationOrm → ℕ) where
  abbrev pub on_deployments :
      {A : Type 0} → Tables → Result A × List DeploymentOrm → Result A × Tables
  on_deployments t (r, rows) = (r, record t { deployments = rows })

  abbrev pub on_applications :
      {A : Type 0} → Tables → Result A × List ApplicationOrm → Result A × Tables
  on_applications t (r, rows) = (r, record t { applications = rows })

  -- `_update_application_status`
  unfoldable pub update_application_status : Uuid → DeploymentStatus → Action Tables (Unit {0})
  update_application_status application_id status t =
      elim (Applications.get application_id t.applications) [
        | none ↦ (ok tt, t)
        | some app ↦ elim (application_status status) [
          | none ↦ (ok tt, t)
          | some new ↦
              if same_application_status app.status new
              then (ok tt, t)
              else on_applications t
                  (Applications.update local onupdate (record app { status = new }) t.applications)
        ]
      ]

  -- `_apply_deployment_status`
  unfoldable pub apply_deployment_status :
      ℕ → Deployment → DeploymentStatus → List Execution → Action Tables (Unit {0})
  unfolding update_application_status errors_of
  apply_deployment_status now d new es t =
      proceed (on_deployments t (Deployments.update local (with_status now new es d) t.deployments))
        (λ done. update_application_status d.application_id new)

  -- The end of `_update_deployment`.
  abbrev pub apply_new :
      ℕ → Deployment → List Execution → Option DeploymentStatus → Action Tables (Unit {0})
  apply_new now d es none t = (ok tt, t)
  apply_new now d es (some new) t =
      if same_deployment_status new d.status
      then (ok tt, t)
      else apply_deployment_status now d new es t

  abbrev pub decide : ℕ → Deployment → List Execution → Action Tables (Unit {0})
  decide now d [] t = (ok tt, t)
  decide now d (e ∷ es) t = apply_new now d (e ∷ es) (new_status (e ∷ es)) t

  -- `_update_deployment`
  unfoldable pub update_deployment : ℕ → Uuid → Action Tables (Unit {0})
  unfolding apply_deployment_status new_status get_deployment_executions
  update_deployment now id t = elim (Deployments.get id t.deployments) [
    | none ↦ (ok tt, t)
    | some d ↦ decide now d (get_deployment_executions id t.executions) t
  ]

  -- An exception of one deployment is logged, and the loop goes on.
  unfoldable pub update_all : (ℕ → ℕ) → ℕ → List Uuid → Tables → Tables
  unfolding update_deployment
  update_all clock i [] t = t
  update_all clock i (id ∷ ids) t =
      update_all clock (suc i) ids (update_deployment (clock i) id t).1

  -- `_update_cycle`
  unfoldable pub update_cycle : (ℕ → ℕ) → Tables → Tables
  unfolding update_all find_active_deployments
  update_cycle clock t = update_all clock 0 (find_active_deployments t.deployments) t
