-- ===== src/Nodes/Upkeep.antt =====
-- What the reports of a node and the search for stale nodes do to the table.
use application_as_service.Prelude.{
  ℕ, ◌*◌, ◌-◌, ◌<◌, ◌≡◌, refl, ◌⊎◌, inl, inr, String, Bool, true, false, Option, none, some, List,
  [], ◌∷◌, arith, str_eq, select, sort_by, All, All-select, if◌then◌else◌, Bool-cases, Option-cases,
  ap, ◌∙◌,
}
use application_as_service.Prelude
use application_as_service.Outcome.{ok, err, type_error}
use application_as_service.Time.{naive, aware}
use application_as_service.Execution.{Uuid}
use application_as_service.Floats.{Floats}
use application_as_service.Nodes.{ready, InfrastructureNode, update_capacity}
use application_as_service.Nodes.Table.{
  NodeRows, row_id, get, update, updated_row, orm_to_node, read_all, is_open, less_loaded,
  list_available,
}
use application_as_service.Nodes.Manager.{
  stale_of, mark_offline, check_stale_nodes, report_capacity, with_capacity,
}

module _ {F : Type 0} where
  -- The time of the last heartbeat is naive, if there is one.
  abbrev IsNaiveBeat : InfrastructureNode F → Type 0
  IsNaiveBeat node =
      (node.last_heartbeat_at ≡ none) ⊎ ((t : ℕ) × (node.last_heartbeat_at ≡ some (naive t)))

  read_all-IsNaiveBeat : (rows : NodeRows F) → All IsNaiveBeat (read_all rows)
  read_all-IsNaiveBeat [] = tt
  read_all-IsNaiveBeat (row ∷ rows) = elim (Option-cases row.last_heartbeat_at) [
    | inl missing ↦ (inl (rw missing refl), read_all-IsNaiveBeat rows)
    | inr (t, known) ↦ (inr (t, rw known refl), read_all-IsNaiveBeat rows)
  ]

  list_available-IsNaiveBeat :
      (runtime : String) (rows : NodeRows F) → All IsNaiveBeat (list_available (some runtime) rows)
  unfolding list_available
  list_available-IsNaiveBeat runtime rows =
      let nodes = read_all (sort_by less_loaded (select is_open rows)) in
      elim (Bool-cases (str_eq runtime "")) [
        | inl any_runtime ↦
            rw any_runtime (read_all-IsNaiveBeat (sort_by less_loaded (select is_open rows)))
        | inr wanted ↦ rw wanted (
            All-select IsNaiveBeat _ nodes
              (read_all-IsNaiveBeat (sort_by less_loaded (select is_open rows))))
      ]

  module _ (local : ℕ → ℕ) where
    stale_of-naive :
        (now : ℕ) (nodes : List (InfrastructureNode F))
        → All IsNaiveBeat nodes
        → (stale_of local (aware now) nodes ≡ err type_error)
          ⊎ (stale_of local (aware now) nodes ≡ ok [])
    unfolding stale_of
    stale_of-naive now [] h = inr refl
    stale_of-naive now (node ∷ nodes) h = ground (arith, stale_of-naive now nodes h.1)

    -- The search for stale nodes either raises TypeError or finds none, and in both cases leaves
    -- the nodes as they were: no node is ever marked OFFLINE.
    pub check_stale_nodes_never :
        (now minutes : ℕ) (rows : NodeRows F)
        → (check_stale_nodes local now minutes rows ≡ (err type_error, rows))
          ⊎ (check_stale_nodes local now minutes rows ≡ (ok [], rows))
    unfolding check_stale_nodes mark_offline
    check_stale_nodes_never now minutes rows =
        elim (stale_of-naive (now - minutes * 60000000) (list_available (some "docker") rows)
          (list_available-IsNaiveBeat "docker" rows)) [
            | inl raised ↦ inl (rw (raised, check_stale_nodes) refl)
            | inr nothing ↦ inr (rw (nothing, check_stale_nodes) refl)
          ]

    module _ (floats : Floats F) where
      -- A report of a node that is there, with fewer containers than its maximum and a CPU that
      -- is not below half a core, returns; it stores the amounts and makes the node READY,
      -- whatever its status was, MAINTENANCE and OFFLINE too.
      pub report_capacity_ready :
          (id : Uuid) (cpu : F) (memory storage active : ℕ) (node : InfrastructureNode F)
          (rows : NodeRows F)
          → get id rows ≡ some node
          → active < node.max_containers
          → floats.below cpu floats.half ≡ false
          → ((report_capacity local floats id cpu memory storage active rows).0 ≡ ok tt)
            × (get id (report_capacity local floats id cpu memory storage active rows).1
                ≡ some (record node {
                  available_cpu = cpu;
                  available_memory = memory;
                  available_storage = storage;
                  active_containers = active;
                  status = ready;
                }))
      unfolding report_capacity get update update_capacity
      report_capacity_ready id cpu memory storage active node rows known room enough =
          elim (Option-cases (Prelude.Table.find row_id id rows)) [
            | inl missing ↦ absurd (ground arith)
            | inr (row, found) ↦
                let key = Prelude.Table.key-find row_id id rows row found in
                let found' = ap (λ k. Prelude.Table.find row_id k rows) key ∙ found in
                let node' =
                  with_capacity local floats
                    (update_capacity cpu memory storage active (orm_to_node row)) in
                ground (
                  arith,
                  found',
                  Prelude.Table.find-replace_found row_id id (updated_row local node' row) rows row
                      refl found,
                )
          ]
