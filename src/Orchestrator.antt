-- ===== src/Orchestrator.antt =====
-- execution_engine/orchestrator/deployment_orchestrator.py: class DeploymentOrchestrator, which turns
-- the steps of a deployment into executions.
pub mod Memory
pub mod Steps
pub mod Starting
pub mod Frames
pub mod Marks
pub mod Outcomes
pub mod Waiting
pub mod Queued
pub mod Delivery
pub mod Configured
use application_as_service.Prelude.{List}
use application_as_service.Outcome.{Result, Action}
use application_as_service.Nodes.Table.{NodeRows}
use application_as_service.Domain.Resources.{Resources}
use application_as_service.DomainService.Operations.{DomainTables}
use application_as_service.Service.Calls.{PostgresWorld}

module _ (F : Type 0) where
  -- What the orchestrator reaches: the tables of the domain service, the execution service with its
  -- table and its emitters, the nodes, and the deployed resources.
  pub record Platform : Type 0 where
    pub domain : DomainTables
    pub engine : PostgresWorld
    pub nodes : NodeRows F
    pub resources : Resources

module _ {F : Type 0} where
  abbrev pub put_engine :
      {A : Type 0} → Platform F → Result A × PostgresWorld → Result A × Platform F
  put_engine s (r, engine) = (r, record s { engine = engine })

  abbrev pub put_resources :
      {A : Type 0} → Platform F → Result A × Resources → Result A × Platform F
  put_resources s (r, rows) = (r, record s { resources = rows })

  abbrev pub put_domain :
      {A : Type 0} → Platform F → Result A × DomainTables → Result A × Platform F
  put_domain s (r, tables) = (r, record s { domain = tables })

  -- A call of the execution service, of the repository of resources, and of the tables of the domain.
  abbrev pub on_engine : {A : Type 0} → Action PostgresWorld A → Action (Platform F) A
  on_engine m s = put_engine s (m s.engine)

  abbrev pub on_resources : {A : Type 0} → Action Resources A → Action (Platform F) A
  on_resources m s = put_resources s (m s.resources)

  abbrev pub on_domain : {A : Type 0} → Action DomainTables A → Action (Platform F) A
  on_domain m s = put_domain s (m s.domain)
