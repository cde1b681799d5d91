-- ===== src/Nodes/Selection.antt =====
-- Which node `select_node` chooses.
use application_as_service.Prelude.{
  ℕ, ◌≤◌, ◌≡◌, refl, inl, inr, String, Bool, true, ◌&&◌, ◌||◌, ltb, Option, none, some, List, [],
  ◌∷◌, arith, str_eq, select, sort_by, All, Any, All-map, Bool-cases, ap,
}
use application_as_service.Prelude
use application_as_service.Prelude.Orders.{
  All-select_elim, All-select_intro, Any-select, Any-select_intro, Any-map, All-sort_by_elim,
  Any-sort_by,
}
use application_as_service.Floats.{Floats}
use application_as_service.Nodes.{InfrastructureNode, can_accommodate}
use application_as_service.Nodes.Table.{
  InfrastructureNodeOrm, NodeRows, orm_to_node, read_all, is_open, supports, less_loaded,
  with_runtime, list_available, row_id,
}
use application_as_service.Nodes.Manager.{least, least_of, lighter, select_node}

module _ {F : Type 0} where
  least-All :
      (a : InfrastructureNode F) (nodes : List (InfrastructureNode F))
      → All (λ n. (least a nodes).active_containers ≤ n.active_containers) (a ∷ nodes)
  unfolding least
  least-All a [] = (omega arith, tt)
  least-All a (b ∷ nodes) = ground (arith, least-All (lighter a b) nodes)

  least-Any :
      (a : InfrastructureNode F) (nodes : List (InfrastructureNode F))
      → Any (λ n. n ≡ least a nodes) (a ∷ nodes)
  unfolding least
  least-Any a [] = inl refl
  least-Any a (b ∷ nodes) = elim (least-Any (lighter a b) nodes) [
    | inr there ↦ inr (inr there)
    | inl here ↦ elim (Bool-cases (ltb b.active_containers a.active_containers)) [
      | inl less ↦ inr (inl (rw less (rw less at here)))
      | inr more ↦ inl (rw more (rw more at here))
    ]
  ]

  module _ (P : InfrastructureNode F → Type 0) where
    read_all-All :
        (rows : NodeRows F) → All P (read_all rows) → All (λ row. P (orm_to_node row)) rows
    read_all-All [] h = tt
    read_all-All (row ∷ rows) h = (h.0, read_all-All rows h.1)

    read_all-Any :
        (rows : NodeRows F) → Any P (read_all rows) → Any (λ row. P (orm_to_node row)) rows
    read_all-Any [] h = h
    read_all-Any (row ∷ rows) (inl here) = inl here
    read_all-Any (row ∷ rows) (inr there) = inr (read_all-Any rows there)

  no_items : (rows : NodeRows F) → All (λ row. ⊥) rows → rows ≡ []
  no_items [] h = refl
  no_items (row ∷ rows) h = absurd h.0

  module _ (floats : Floats F) (runtime : String) (cpu : F) (memory storage : ℕ) where
    -- No runtime is asked for, or the node supports it.
    abbrev pub is_supported : List String → Bool
    is_supported runtimes = str_eq runtime "" || supports runtime runtimes

    -- The node is open for deployments, supports the runtime, and has the room that is asked for.
    abbrev pub is_suitable : InfrastructureNodeOrm F → Bool
    is_suitable row =
        is_open row
        && is_supported row.supported_runtimes
        && can_accommodate floats cpu memory storage (orm_to_node row)

    -- What is chosen among the rows: a suitable one with the fewest containers, or none if there is no
    -- suitable one.
    abbrev pub Best : NodeRows F → Option (InfrastructureNode F) → Type 0
    Best rows none = select is_suitable rows ≡ []
    Best rows (some node) =
        Any (λ row. orm_to_node row ≡ node) (select is_suitable rows)
        × All (λ row. node.active_containers ≤ row.active_containers) (select is_suitable rows)

    abbrev candidates : NodeRows F → List (InfrastructureNode F)
    candidates rows =
        select (can_accommodate floats cpu memory storage) (list_available (some runtime) rows)

    module _ (P : InfrastructureNode F → Type 0) where
      with_runtime-All :
          (nodes : List (InfrastructureNode F))
          → All P (with_runtime (some runtime) nodes)
          → All (λ n. is_supported n.supported_runtimes ≡ true → P n) nodes
      with_runtime-All nodes h = elim (Bool-cases (str_eq runtime "")) [
        | inl any_runtime ↦
            let h' : All P nodes = rw any_runtime at h in All-map _ _ (λ n p e. p) nodes h'
        | inr wanted ↦
            let h' : All P (select (λ n. supports runtime n.supported_runtimes) nodes) =
              rw wanted at h in
            rw wanted (All-select_elim P (λ n. supports runtime n.supported_runtimes) nodes h')
      ]

      with_runtime-Any :
          (nodes : List (InfrastructureNode F))
          → Any P (with_runtime (some runtime) nodes)
          → Any (λ n. (is_supported n.supported_runtimes ≡ true) × P n) nodes
      with_runtime-Any nodes h = elim (Bool-cases (str_eq runtime "")) [
        | inl any_runtime ↦
            let h' : Any P nodes = rw any_runtime at h in
            Any-map _ _ (λ n p. (rw any_runtime refl, p)) nodes h'
        | inr wanted ↦
            let h' : Any P (select (λ n. supports runtime n.supported_runtimes) nodes) =
              rw wanted at h in
            rw wanted (Any-select P (λ n. supports runtime n.supported_runtimes) nodes h')
      ]

    module _ (P : InfrastructureNode F → Type 0) where
      candidates-All :
          (rows : NodeRows F)
          → All P (candidates rows)
          → All (λ row. P (orm_to_node row)) (select is_suitable rows)
      unfolding list_available
      candidates-All rows h =
          let fits = can_accommodate floats cpu memory storage in
          let open_rows = select is_open rows in
          let sorted = sort_by less_loaded open_rows in
          let roomy = All-select_elim P fits (with_runtime (some runtime) (read_all sorted)) h in
          let supported = with_runtime-All (λ n. fits n ≡ true → P n) (read_all sorted) roomy in
          let read = read_all-All _ sorted supported in
          let unsorted = All-sort_by_elim _ less_loaded open_rows read in
          All-select_intro _ is_suitable rows (
            All-map _ _ (λ row p e. p (ground arith) (ground arith) (ground arith)) rows
              (All-select_elim _ is_open rows unsorted))

      candidates-Any :
          (rows : NodeRows F)
          → Any P (candidates rows)
          → Any (λ row. P (orm_to_node row)) (select is_suitable rows)
      unfolding list_available
      candidates-Any rows h =
          let fits = can_accommodate floats cpu memory storage in
          let open_rows = select is_open rows in
          let sorted = sort_by less_loaded open_rows in
          let roomy = Any-select P fits (with_runtime (some runtime) (read_all sorted)) h in
          let supported = with_runtime-Any (λ n. (fits n ≡ true) × P n) (read_all sorted) roomy in
          let read = read_all-Any _ sorted supported in
          let unsorted = Any-sort_by _ less_loaded open_rows read in
          Any-select_intro _ is_suitable rows (
            Any-map _ _ (λ row p. (ground (arith, p), p.1.1.1)) rows
              (Any-select _ is_open rows unsorted))

    least_of-Best :
        (rows : NodeRows F) (nodes : List (InfrastructureNode F))
        → candidates rows ≡ nodes
        → Best rows (least_of nodes)
    least_of-Best rows [] h =
        no_items (select is_suitable rows) (candidates-All (λ n. ⊥) rows (rw h tt))
    least_of-Best rows (a ∷ nodes) h = (
      candidates-Any (λ n. n ≡ least a nodes) rows (rw h (least-Any a nodes)),
      candidates-All (λ n. (least a nodes).active_containers ≤ n.active_containers) rows
          (rw h (least-All a nodes)),
    )

    -- The node that is selected is READY, of HEALTHY or UNKNOWN health, supports the runtime,
    -- unless that is the empty text, and has the room that is asked for, and no node of that kind
    -- has fewer containers; if none is selected, there is no node of that kind.
    pub select_node-Best :
        (rows : NodeRows F) → Best rows (select_node floats runtime cpu memory storage rows)
    unfolding select_node
    select_node-Best rows = least_of-Best rows (candidates rows) refl

    -- The row of the node that is selected is in the table.
    pub select_node-found :
        (rows : NodeRows F) (node : InfrastructureNode F)
        → select_node floats runtime cpu memory storage rows ≡ some node
        → (row : InfrastructureNodeOrm F) × (Prelude.Table.find row_id node.node_id rows ≡ some row)
    select_node-found rows node h =
        let best : Best rows (some node) = rw h at (select_node-Best rows) in
        Prelude.Table.find-Any row_id node.node_id rows (
          Any-map _ _ (λ row e. ap (λ n. n.node_id) e.1) rows
            (Any-select _ is_suitable rows best.0))
