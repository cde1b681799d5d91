-- ===== src/Orchestrator/Frames.antt =====
-- What the steps of a deployment leave alone.
use application_as_service.Prelude.{
  ℕ, suc, ◌≡◌, inl, inr, refl, ◌∙◌, String, Option, none, some, List, [], ◌∷◌, str_eq, Bool-cases,
}
use application_as_service.Outcome.{Result, ok, err, Action, proceed, Outcome-cases}
use application_as_service.Value.{Value}
use application_as_service.Integers.{ℤ}
use application_as_service.Floats.{Floats}
use application_as_service.Domain.{Deployment}
use application_as_service.Domain.Resources
use application_as_service.Postgres.{postgres}
use application_as_service.Service.{register_execution, queue_execution}
use application_as_service.Templates.Json.{read_text}
use application_as_service.Nodes.Manager.{select_node}
use application_as_service.Nodes.{InfrastructureNode}
use application_as_service.Templates.{DeploymentStepDefinition}
use application_as_service.DomainService.Config.{Texts}
use application_as_service.Orchestrator.{Platform}
use application_as_service.Orchestrator.Steps.{
  Fresh, Demand, step_execution, step_resource, demand_of, place, execute_container_step,
  execute_configured, execute_step, get_step_config,
}
use application_as_service.Orchestrator.Starting.{execute_steps}

module _ {F : Type 0} where
  -- The tables of the domain service and the nodes are as they were.
  abbrev pub IsKept : {A : Type 0} → Platform F → Result A × Platform F → Type 0
  IsKept s r = (r.1.domain ≡ s.domain) × (r.1.nodes ≡ s.nodes)

  module _ {A B : Type 0} where
    proceed-IsKept :
        (s : Platform F) (r : Result A × Platform F) (f : A → Action (Platform F) B)
        → IsKept s r
        → ((a : A) (t : Platform F) → IsKept t (f a t))
        → IsKept s (proceed r f)
    proceed-IsKept s (err e, t) f kept h = kept
    proceed-IsKept s (ok a, t) f kept h = ((h a t).0 ∙ kept.0, (h a t).1 ∙ kept.1)

  module _ (floats : Floats F) (parse : String → Option ℤ) (texts : Texts) (local : ℕ → ℕ) where
    place-IsKept :
        (fresh : Fresh) (d : Deployment) (step : DeploymentStepDefinition) (config : Value)
        (demand : Demand F) (o : Option (InfrastructureNode F)) (s : Platform F)
        → IsKept s (place floats parse texts local fresh d step config demand o s)
    place-IsKept fresh d step config demand none s = (refl, refl)
    place-IsKept fresh d step config demand (some node) s =
        let e = step_execution texts fresh d node demand.spec in
        let one = register_execution (postgres local) fresh.registered e s.engine in
        let two =
          queue_execution (postgres local) fresh.queued fresh.announced e.execution_id one.1 in
        elim (Outcome-cases one.0) [
          | inl (x, raised) ↦ rw raised (refl, refl)
          | inr (u, registered) ↦ elim (Outcome-cases two.0) [
            | inl (x, raised) ↦ rw (registered, raised) (refl, refl)
            | inr (u, queued) ↦ elim (Outcome-cases (read_text demand.name)) [
              | inl (x, raised) ↦ rw (registered, queued, raised) (refl, refl)
              | inr (name, named) ↦
                  elim (Outcome-cases
                    (Resources.create local s.domain.deployments s.nodes
                      (step_resource texts fresh d node step config name) s.resources).0) [
                        | inl (x, raised) ↦ rw (registered, queued, named, raised) (refl, refl)
                        | inr (u, tracked) ↦ rw (registered, queued, named, tracked) (refl, refl)
                      ]
            ]
          ]
        ]

    execute_container_step-IsKept :
        (fresh : Fresh) (d : Deployment) (step : DeploymentStepDefinition) (config : Value)
        (s : Platform F)
        → IsKept s (execute_container_step floats parse texts local fresh d step config s)
    unfolding execute_container_step
    execute_container_step-IsKept fresh d step config s =
        proceed-IsKept s (demand_of floats parse config, s) _ (refl, refl)
          λ demand t.
            place-IsKept fresh d step config demand
              (select_node floats "docker" demand.cpu demand.memory 1 t.nodes) t

    execute_configured-IsKept :
        (fresh : Fresh) (d : Deployment) (step : DeploymentStepDefinition) (config : Value)
        (s : Platform F)
        → IsKept s (execute_configured floats parse texts local fresh d step config s)
    unfolding execute_configured
    execute_configured-IsKept fresh d step config s =
        elim (Bool-cases (str_eq step.step_type "volume")) [
          | inl volume ↦ rw volume (refl, refl)
          | inr other ↦ elim (Bool-cases (str_eq step.step_type "database")) [
            | inl database ↦ rw (other, database) (refl, refl)
            | inr neither ↦ elim (Bool-cases (str_eq step.step_type "container")) [
              | inl container ↦
                  rw (other, neither, container)
                    (execute_container_step-IsKept fresh d step config s)
              | inr unknown ↦ rw (other, neither, unknown) (refl, refl)
            ]
          ]
        ]

    execute_step-IsKept :
        (fresh : Fresh) (d : Deployment) (step : DeploymentStepDefinition) (s : Platform F)
        → IsKept s (execute_step floats parse texts local fresh d step s)
    unfolding execute_step
    execute_step-IsKept fresh d step s =
        proceed-IsKept s (get_step_config d step.step_id, s) _ (refl, refl)
          (execute_configured-IsKept fresh d step)

    pub execute_steps-IsKept :
        (fresh : ℕ → Fresh) (i : ℕ) (d : Deployment) (steps : List DeploymentStepDefinition)
        (s : Platform F)
        → IsKept s (execute_steps floats parse texts local fresh i d steps s)
    unfolding execute_steps
    execute_steps-IsKept fresh i d [] s = (refl, refl)
    execute_steps-IsKept fresh i d (step ∷ steps) s =
        proceed-IsKept s (execute_step floats parse texts local (fresh i) d step s) _
          (execute_step-IsKept (fresh i) d step s)
          λ result t. execute_steps-IsKept fresh (suc i) d steps t
