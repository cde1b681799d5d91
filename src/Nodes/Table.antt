-- ===== src/Nodes/Table.antt =====
-- execution_engine/infrastructure/postgres/node_repository.py and the table `infrastructure_nodes` of
-- models.py, whose key is the id and whose names are unique.
use application_as_service.Prelude.{
  ℕ, String, Bool, true, false, not, ◌&&◌, ◌||◌, Option, none, some, List, [], ◌∷◌, ◌++◌, leb,
  str_eq, select, sort_by, if◌then◌else◌,
}
use application_as_service.Prelude
use application_as_service.Outcome.{ok, err, Action, concurrency_error}
use application_as_service.Time.{naive}
use application_as_service.Value.{Value}
use application_as_service.Execution.{Uuid}
use application_as_service.Postgres.{column, write_time, read_time}
use application_as_service.Nodes.{
  NodeType, NodeStatus, NodeHealthStatus, healthy, unknown, is_ready, InfrastructureNode,
}

module _ (F : Type 0) where
  pub record InfrastructureNodeOrm : Type 0 where
    pub node_id : Uuid
    pub node_name : String
    pub node_type : NodeType
    pub internal_ip : String
    pub public_ip : Option String
    pub runtime_agent_url : String
    pub supported_runtimes : List String
    pub total_cpu : F
    pub total_memory : ℕ
    pub total_storage : ℕ
    pub available_cpu : F
    pub available_memory : ℕ
    pub available_storage : ℕ
    pub max_containers : ℕ
    pub active_containers : ℕ
    pub status : NodeStatus
    pub health_status : NodeHealthStatus
    pub last_heartbeat_at : Option ℕ
    pub labels : Value
    pub created_at : ℕ
    pub registered_at : ℕ

  abbrev pub NodeRows : Type 0
  NodeRows = List InfrastructureNodeOrm

-- READY, and HEALTHY or UNKNOWN: the filter of the query of `list_available`
abbrev pub is_accepted : NodeHealthStatus → Bool
is_accepted healthy = true
is_accepted unknown = true
is_accepted _ = false

-- `runtime_type in node.supported_runtimes`
abbrev pub supports : String → List String → Bool
supports runtime [] = false
supports runtime (r ∷ rs) = str_eq r runtime || supports runtime rs

module _ {F : Type 0} where
  abbrev pub row_id : InfrastructureNodeOrm F → Uuid
  row_id row = row.node_id

  abbrev pub orm_to_node : InfrastructureNodeOrm F → InfrastructureNode F
  orm_to_node orm = record {
    node_id = orm.node_id;
    node_name = orm.node_name;
    node_type = orm.node_type;
    internal_ip = orm.internal_ip;
    public_ip = orm.public_ip;
    runtime_agent_url = orm.runtime_agent_url;
    supported_runtimes = orm.supported_runtimes;
    total_cpu = orm.total_cpu;
    total_memory = orm.total_memory;
    total_storage = orm.total_storage;
    available_cpu = orm.available_cpu;
    available_memory = orm.available_memory;
    available_storage = orm.available_storage;
    max_containers = orm.max_containers;
    active_containers = orm.active_containers;
    status = orm.status;
    health_status = orm.health_status;
    last_heartbeat_at = read_time orm.last_heartbeat_at;
    labels = orm.labels;
    created_at = naive orm.created_at;
    registered_at = naive orm.registered_at;
  }

  abbrev pub read_row : Option (InfrastructureNodeOrm F) → Option (InfrastructureNode F)
  read_row none = none
  read_row (some row) = some (orm_to_node row)

  unfoldable pub get : Uuid → NodeRows F → Option (InfrastructureNode F)
  get id rows = read_row (Prelude.Table.find row_id id rows)

  unfoldable pub find_name : String → NodeRows F → Option (InfrastructureNodeOrm F)
  find_name name [] = none
  find_name name (row ∷ rows) = if str_eq row.node_name name then some row else find_name name rows

  unfoldable pub get_by_name : String → NodeRows F → Option (InfrastructureNode F)
  unfolding find_name
  get_by_name name rows = read_row (find_name name rows)

  abbrev pub is_open : InfrastructureNodeOrm F → Bool
  is_open row = is_ready row.status && is_accepted row.health_status

  abbrev pub less_loaded : InfrastructureNodeOrm F → InfrastructureNodeOrm F → Bool
  less_loaded a b = leb a.active_containers b.active_containers

  abbrev pub with_runtime :
      Option String → List (InfrastructureNode F) → List (InfrastructureNode F)
  with_runtime none nodes = nodes
  with_runtime (some runtime) nodes =
      if str_eq runtime ""
      then nodes
      else select (λ node. supports runtime node.supported_runtimes) nodes

  abbrev pub read_all : NodeRows F → List (InfrastructureNode F)
  read_all [] = []
  read_all (row ∷ rows) = orm_to_node row ∷ read_all rows

  unfoldable pub list_available : Option String → NodeRows F → List (InfrastructureNode F)
  list_available runtime_type rows =
      with_runtime runtime_type (read_all (sort_by less_loaded (select is_open rows)))

  module _ (local : ℕ → ℕ) where
    abbrev pub node_to_orm : InfrastructureNode F → InfrastructureNodeOrm F
    node_to_orm node = record {
      node_id = node.node_id;
      node_name = node.node_name;
      node_type = node.node_type;
      internal_ip = node.internal_ip;
      public_ip = node.public_ip;
      runtime_agent_url = node.runtime_agent_url;
      supported_runtimes = node.supported_runtimes;
      total_cpu = node.total_cpu;
      total_memory = node.total_memory;
      total_storage = node.total_storage;
      available_cpu = node.available_cpu;
      available_memory = node.available_memory;
      available_storage = node.available_storage;
      max_containers = node.max_containers;
      active_containers = node.active_containers;
      status = node.status;
      health_status = node.health_status;
      last_heartbeat_at = write_time local node.last_heartbeat_at;
      labels = node.labels;
      created_at = column local node.created_at;
      registered_at = column local node.registered_at;
    }

    unfoldable pub create : InfrastructureNode F → Action (NodeRows F) (Unit {0})
    unfolding find_name
    create node rows = elim (Prelude.Table.find row_id node.node_id rows) [
      | some old ↦ (err concurrency_error, rows)
      | none ↦ elim (find_name node.node_name rows) [
        | some old ↦ (err concurrency_error, rows)
        | none ↦ (ok tt, rows ++ node_to_orm node ∷ [])
      ]
    ]

    abbrev pub updated_row :
        InfrastructureNode F → InfrastructureNodeOrm F → InfrastructureNodeOrm F
    updated_row node orm = record orm {
      available_cpu = node.available_cpu;
      available_memory = node.available_memory;
      available_storage = node.available_storage;
      active_containers = node.active_containers;
      status = node.status;
      health_status = node.health_status;
      last_heartbeat_at = write_time local node.last_heartbeat_at;
    }

    unfoldable pub update : InfrastructureNode F → Action (NodeRows F) (Unit {0})
    update node rows = elim (Prelude.Table.find row_id node.node_id rows) [
      | none ↦ (err concurrency_error, rows)
      | some orm ↦ (ok tt, Prelude.Table.replace row_id (updated_row node orm) rows)
    ]

    unfoldable pub update_heartbeat : ℕ → Uuid → Action (NodeRows F) (Unit {0})
    update_heartbeat now id rows = elim (Prelude.Table.find row_id id rows) [
      | none ↦ (err concurrency_error, rows)
      | some orm ↦ (
        ok tt,
        Prelude.Table.replace row_id (record orm { last_heartbeat_at = some (local now) }) rows,
      )
    ]
