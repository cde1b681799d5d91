-- ===== src/Nodes/Manager.antt =====
-- execution_engine/node_manager/service.py. The number that comes first is the reading of the clock.
use application_as_service.Prelude.{
  ℕ, ◌*◌, ◌-◌, String, Bool, false, Option, none, some, List, [], ◌∷◌, ltb, leb, str_eq, select,
  if◌then◌else◌,
}
use application_as_service.Outcome.{Result, ok, err, Action, proceed, ◌>>=◌, validation_error}
use application_as_service.Time.{DateTime, aware, before}
use application_as_service.Execution.{Uuid}
use application_as_service.Floats.{Floats}
use application_as_service.Nodes
use application_as_service.Nodes.{
  NodeStatus, NodeHealthStatus, ready, full, offline, healthy, unhealthy, InfrastructureNode,
  can_accommodate,
}
use application_as_service.Nodes.Table.{NodeRows, get, create, update, list_available}

module _ {F : Type 0} where
  -- `min(nodes, key=lambda n: n.active_containers)`: the first of the least.
  abbrev pub lighter : InfrastructureNode F → InfrastructureNode F → InfrastructureNode F
  lighter a b = if ltb b.active_containers a.active_containers then b else a

  unfoldable pub least : InfrastructureNode F → List (InfrastructureNode F) → InfrastructureNode F
  least a [] = a
  least a (b ∷ nodes) = least (lighter a b) nodes

  abbrev pub least_of : List (InfrastructureNode F) → Option (InfrastructureNode F)
  least_of [] = none
  least_of (a ∷ nodes) = some (least a nodes)

  module _ (floats : Floats F) where
    unfoldable pub select_node : String → F → ℕ → ℕ → NodeRows F → Option (InfrastructureNode F)
    unfolding least can_accommodate list_available
    select_node runtime_type cpu memory storage rows = least_of (
        select (can_accommodate floats cpu memory storage)
          (list_available (some runtime_type) rows))

    -- The status for the amounts that a node reports.
    abbrev pub capacity_status : InfrastructureNode F → NodeStatus
    capacity_status node =
        if leb node.max_containers node.active_containers
        then full
        else if floats.below node.available_cpu floats.half
        then full
        else ready

  module _ (local : ℕ → ℕ) where
    abbrev pub registered : ℕ → InfrastructureNode F → InfrastructureNode F
    registered now node = record node {
      status = ready;
      health_status = healthy;
      last_heartbeat_at = some (aware now);
    }

    unfoldable pub register_node : ℕ → InfrastructureNode F → Action (NodeRows F) (Unit {0})
    register_node now node rows =
        if str_eq node.runtime_agent_url ""
        then (err validation_error, rows)
        else if str_eq node.internal_ip ""
        then (err validation_error, rows)
        else create local (registered now node) rows

    module _ (floats : Floats F) where
      abbrev pub with_capacity : InfrastructureNode F → InfrastructureNode F
      with_capacity node = record node { status = capacity_status floats node }

      unfoldable pub report_capacity : Uuid → F → ℕ → ℕ → ℕ → Action (NodeRows F) (Unit {0})
      unfolding Nodes.update_capacity
      report_capacity id cpu memory storage active rows = elim (get id rows) [
        | none ↦ (err validation_error, rows)
        | some node ↦
            update local (with_capacity (Nodes.update_capacity cpu memory storage active node)) rows
      ]

    unfoldable pub report_heartbeat : ℕ → Uuid → NodeHealthStatus → Action (NodeRows F) (Unit {0})
    report_heartbeat now id health rows = elim (get id rows) [
      | none ↦ (err validation_error, rows)
      | some node ↦
          update local
            (record node { health_status = health; last_heartbeat_at = some (aware now) }) rows
    ]

    -- `[node for node in nodes if node.last_heartbeat_at and node.last_heartbeat_at < cutoff]`
    abbrev pub is_stale : DateTime → InfrastructureNode F → Result Bool
    is_stale cutoff node = elim node.last_heartbeat_at [
      | none ↦ ok false
      | some t ↦ before t cutoff
    ]

    unfoldable pub stale_of :
        DateTime → List (InfrastructureNode F) → Result (List (InfrastructureNode F))
    stale_of cutoff [] = ok []
    stale_of cutoff (node ∷ nodes) = is_stale cutoff node >>= λ stale.
        stale_of cutoff nodes >>= λ rest. ok (if stale then node ∷ rest else rest)

    abbrev pub lost : InfrastructureNode F → InfrastructureNode F
    lost node = record node { status = offline; health_status = unhealthy }

    unfoldable pub mark_offline :
        List (InfrastructureNode F) → Action (NodeRows F) (List (InfrastructureNode F))
    mark_offline [] rows = (ok [], rows)
    mark_offline (node ∷ nodes) rows =
        proceed (update local (lost node) rows)
          λ done rows. proceed (mark_offline nodes rows) λ rest rows. (ok (lost node ∷ rest), rows)

    abbrev pub mark_found :
        Result (List (InfrastructureNode F)) → Action (NodeRows F) (List (InfrastructureNode F))
    mark_found (err x) rows = (err x, rows)
    mark_found (ok nodes) rows = mark_offline nodes rows

    -- The clock is past the first minutes of the epoch.
    unfoldable pub check_stale_nodes : ℕ → ℕ → Action (NodeRows F) (List (InfrastructureNode F))
    unfolding stale_of mark_offline
    check_stale_nodes now minutes rows =
        mark_found
          (stale_of (aware (now - minutes * 60000000)) (list_available (some "docker") rows)) rows
