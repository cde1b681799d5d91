-- ===== src/Nodes.antt =====
-- execution_engine/node_manager/models.py: the nodes that run containers. The amounts of CPU are
-- floating-point numbers, a parameter.
pub mod Table
pub mod Manager
pub mod Selection
pub mod Upkeep
use application_as_service.Prelude.{
  ℕ, String, Bool, true, false, ◌&&◌, Option, List, ltb, leb, if◌then◌else◌,
}
use application_as_service.Time.{DateTime}
use application_as_service.Value.{Value}
use application_as_service.Execution.{Uuid}
use application_as_service.Floats.{Floats}

pub data NodeType : Type 0 where
  app_node db_node edge_node : NodeType

pub data NodeStatus : Type 0 where
  ready full maintenance offline : NodeStatus

pub data NodeHealthStatus : Type 0 where
  healthy unhealthy unknown : NodeHealthStatus

-- `status == NodeStatus.READY`
abbrev pub is_ready : NodeStatus → Bool
is_ready ready = true
is_ready _ = false

-- `health_status == NodeHealthStatus.HEALTHY`
abbrev pub is_healthy : NodeHealthStatus → Bool
is_healthy healthy = true
is_healthy _ = false

module _ (F : Type 0) where
  pub record InfrastructureNode : Type 0 where
    pub node_id : Uuid
    pub node_name : String
    pub node_type : NodeType
    pub internal_ip : String
    pub runtime_agent_url : String
    pub public_ip : Option String
    pub supported_runtimes : List String
    pub total_cpu : F
    pub total_memory : ℕ
    pub total_storage : ℕ
    pub available_cpu : F
    pub available_memory : ℕ
    pub available_storage : ℕ
    pub max_containers : ℕ
    pub active_containers : ℕ
    pub status : NodeStatus
    pub health_status : NodeHealthStatus
    pub last_heartbeat_at : Option DateTime
    pub labels : Value
    pub created_at : DateTime
    pub registered_at : DateTime

module _ {F : Type 0} where
  unfoldable pub update_capacity : F → ℕ → ℕ → ℕ → InfrastructureNode F → InfrastructureNode F
  update_capacity cpu memory storage active node = record node {
    available_cpu = cpu;
    available_memory = memory;
    available_storage = storage;
    active_containers = active;
  }

  unfoldable pub is_available : InfrastructureNode F → Bool
  is_available node = is_ready node.status && is_healthy node.health_status

  module _ (floats : Floats F) where
    unfoldable pub can_accommodate : F → ℕ → ℕ → InfrastructureNode F → Bool
    can_accommodate cpu memory storage node =
        floats.at_least node.available_cpu cpu
        && leb memory node.available_memory
        && leb storage node.available_storage
        && ltb node.active_containers node.max_containers
