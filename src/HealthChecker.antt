-- ===== src/HealthChecker.antt =====
-- execution_engine/health_checker/checker.py: the worker that checks the deployed containers and has
-- the unhealthy ones restarted. What the network answers is a parameter: `probe` is the outcome of
-- the check of a type on a container, or an exception, and `reply` the status code of the runtime
-- agent's answer to a restart, if it answers. The state holds the table and, in their order, the
-- containers whose restart was requested.
pub mod Strikes
pub mod Probes
pub mod Portless
use application_as_service.Prelude.{
  ℕ, suc, ◌+◌, ◌≡◌, String, Bool, true, false, not, ◌&&◌, Option, none, some, List, [], ◌∷◌, ◌++◌,
  ltb, leb, ◌==◌, str_eq, select, sort_by, if◌then◌else◌,
}
use application_as_service.Prelude.Table
use application_as_service.Outcome.{Result, ok, err, Error, type_error}
use application_as_service.Value
use application_as_service.Value.{Value, Fields, truthy, lookup}
use application_as_service.Execution.{Uuid}
use application_as_service.Domain.{HealthStatus, healthy, unhealthy, starting}
use application_as_service.Domain.Resources.{
  ResourceType, container, DeployedResourceOrm, Resources, row_id,
}

-- What the query reads of a container and of its node.
pub record Container : Type 0 where
  pub resource_id : Uuid
  pub deployment_id : Uuid
  pub external_id : String
  pub name : String
  pub spec : Value
  pub node_id : Uuid
  pub health_status : HealthStatus
  pub consecutive_failures : ℕ
  pub last_check_at : Option ℕ
  pub runtime_agent_url : String

-- The columns of a node that the query reads.
pub record NodeAddress : Type 0 where
  pub node_id : Uuid
  pub runtime_agent_url : String

abbrev pub is_container : DeployedResourceOrm → Bool
is_container row = elim row.resource_type [ container ↦ true | _ ↦ false ]

abbrev pub wants_check : DeployedResourceOrm → Bool
wants_check row =
    is_container row && str_eq row.status "running" && not (str_eq row.external_id "pending")

-- `ORDER BY last_health_check_at ASC NULLS FIRST`
abbrev pub checked_before : DeployedResourceOrm → DeployedResourceOrm → Bool
checked_before a b = elim a.last_health_check_at [
  | none ↦ true
  | some t ↦ elim b.last_health_check_at [ none ↦ false | some t' ↦ leb t t' ]
]

abbrev pub container_of : DeployedResourceOrm → String → Container
container_of row url = record {
  resource_id = row.resource_id;
  deployment_id = row.deployment_id;
  external_id = row.external_id;
  name = row.name;
  spec = row.spec;
  node_id = row.node_id;
  health_status = row.health_status;
  consecutive_failures = row.consecutive_health_failures;
  last_check_at = row.last_health_check_at;
  runtime_agent_url = url;
}

abbrev node_key : NodeAddress → Uuid
node_key node = node.node_id

-- The join: a resource without its node is left out.
unfoldable pub join_nodes : List NodeAddress → Resources → List Container
join_nodes nodes [] = []
join_nodes nodes (row ∷ rows) =
    let rest = join_nodes nodes rows in
    elim (Table.find node_key row.node_id nodes) [
      | none ↦ rest
      | some node ↦ container_of row node.runtime_agent_url ∷ rest
    ]

-- `_find_containers_to_check`
unfoldable pub find_containers_to_check : List NodeAddress → Resources → List Container
unfolding join_nodes
find_containers_to_check nodes rows =
    join_nodes nodes (sort_by checked_before (select wants_check rows))

pub record Checked : Type 0 where
  pub resources : Resources
  pub restarts : List String

abbrev pub put_resources : Resources → Checked → Checked
put_resources rows s = record s { resources = rows }

-- `UPDATE ... WHERE resource_id = :resource_id`
abbrev pub set_row : (DeployedResourceOrm → DeployedResourceOrm) → Uuid → Resources → Resources
set_row f id rows = elim (Table.find row_id id rows) [
  | none ↦ rows
  | some row ↦ Table.replace row_id (f row) rows
]

module _ (local : ℕ → ℕ) (failure_threshold : ℕ) where
  abbrev pub new_failures : Bool → ℕ → ℕ
  new_failures is_healthy current = if is_healthy then 0 else current + 1

  abbrev pub health_of : Bool → ℕ → HealthStatus
  health_of is_healthy current =
      if is_healthy
      then healthy
      else if leb failure_threshold (current + 1)
      then unhealthy
      else healthy

  abbrev pub checked_row : ℕ → Bool → ℕ → DeployedResourceOrm → DeployedResourceOrm
  checked_row now is_healthy current row = record row {
    health_status = health_of is_healthy current;
    consecutive_health_failures = new_failures is_healthy current;
    last_health_check_at = some (local now);
  }

  -- `_update_health_status`
  unfoldable pub update_health_status : ℕ → Uuid → Bool → ℕ → Checked → Checked
  update_health_status now id is_healthy current s = record s {
    resources = set_row (checked_row now is_healthy current) id s.resources;
  }

  abbrev pub restarted_row : DeployedResourceOrm → DeployedResourceOrm
  restarted_row row = record row { health_status = starting; consecutive_health_failures = 0 }

  -- `_restart_container`: the request is made in any case.
  unfoldable pub restart_container : Option ℕ → Container → Checked → Checked
  restart_container reply c s =
      let asked = record s { restarts = s.restarts ++ c.external_id ∷ [] } in
      elim reply [
        | none ↦ asked
        | some code ↦
            if code == 200
            then record asked { resources = set_row restarted_row c.resource_id s.resources }
            else asked
      ]

  -- `_handle_unhealthy_container`
  unfoldable pub handle_unhealthy_container : Option ℕ → Container → Checked → Checked
  unfolding restart_container
  handle_unhealthy_container reply c s =
      if c.consecutive_failures + 1 == failure_threshold then restart_container reply c s else s

  -- The rest of `_check_container_health` once the check has an outcome or has raised.
  unfoldable pub after_check : ℕ → Option ℕ → Container → Result Bool → Checked → Checked
  unfolding update_health_status handle_unhealthy_container
  after_check now reply c (err x) s =
      update_health_status now c.resource_id false c.consecutive_failures s
  after_check now reply c (ok true) s =
      update_health_status now c.resource_id true c.consecutive_failures s
  after_check now reply c (ok false) s =
      handle_unhealthy_container reply c
        (update_health_status now c.resource_id false c.consecutive_failures s)

  -- `health_check.get('type', 'http')`
  abbrev pub check_type : Fields → Value
  check_type fields = elim (lookup "type" fields) [ none ↦ Value.text "http" | some v ↦ v ]

  -- A type that is none of the three is taken for healthy.
  unfoldable pub run_check : (String → Result Bool) → Value → Result Bool
  run_check probe (Value.text kind) =
      if str_eq kind "http"
      then probe "http"
      else if str_eq kind "tcp"
      then probe "tcp"
      else if str_eq kind "command"
      then probe "command"
      else ok true
  run_check probe _ = ok true

  -- The check that the specification configures; `.get` of what is no dictionary raises.
  abbrev pub check_configured :
      (String → Result Bool) → ℕ → Option ℕ → Container → Option Value → Checked → Checked
  check_configured probe now reply c none s =
      update_health_status now c.resource_id true c.consecutive_failures s
  check_configured probe now reply c (some (Value.object fields)) s =
      if truthy (Value.object fields)
      then after_check now reply c (run_check probe (check_type fields)) s
      else update_health_status now c.resource_id true c.consecutive_failures s
  check_configured probe now reply c (some v) s =
      if truthy v then s else update_health_status now c.resource_id true c.consecutive_failures s

  -- `_check_container_health`. An exception that it raises is logged by the cycle.
  unfoldable pub check_container_health :
      (String → Result Bool) → ℕ → Option ℕ → Container → Checked → Checked
  unfolding after_check run_check update_health_status
  check_container_health probe now reply c s = elim c.spec [
    | Value.object fields ↦ check_configured probe now reply c (lookup "health_check" fields) s
    | _ ↦ s
  ]

  -- The loop of `_check_cycle`, with the clock, the probes and the replies of each turn.
  unfoldable pub check_all :
      (ℕ → Container → String → Result Bool)
      → (ℕ → ℕ)
      → (ℕ → Option ℕ)
      → ℕ
      → List Container
      → Checked
      → Checked
  unfolding check_container_health
  check_all probe clock reply i [] s = s
  check_all probe clock reply i (c ∷ cs) s =
      check_all probe clock reply (suc i) cs
        (check_container_health (probe i c) (clock i) (reply i) c s)

  -- `_check_cycle`
  unfoldable pub check_cycle :
      List NodeAddress
      → (ℕ → Container → String → Result Bool)
      → (ℕ → ℕ)
      → (ℕ → Option ℕ)
      → Checked
      → Checked
  unfolding check_all find_containers_to_check
  check_cycle nodes probe clock reply s =
      check_all probe clock reply 0 (find_containers_to_check nodes s.resources) s
