-- ===== src/Orchestrator/Marks.antt =====
-- The row of a deployment, as `start_deployment` of
-- execution_engine/orchestrator/deployment_orchestrator.py writes it.
use application_as_service.Prelude.{
  ℕ, ◌≡◌, ◌≢◌, inl, inr, refl, String, Option, none, some, List, arith, Option-cases,
}
use application_as_service.Prelude.Table
use application_as_service.Execution.{Uuid}
use application_as_service.Postgres.{write_time, read_time}
use application_as_service.Postgres.Mapping.{stored_time}
use application_as_service.Domain.{Deployment}
use application_as_service.Domain.Deployments
use application_as_service.Domain.Deployments.{
  DeploymentOrm, row_id, to_domain, updated_row, stored,
}
use application_as_service.DomainService.Operations.{DomainTables, get_deployment}
use application_as_service.Orchestrator.Starting.{deploying, broken}

pub get-replace :
    (id : Uuid) (row orm : DeploymentOrm) (rows : List DeploymentOrm)
    → row_id row ≡ row_id orm
    → Table.find row_id id rows ≡ some orm
    → Deployments.get id (Table.replace row_id row rows) ≡ some (to_domain row)
unfolding Deployments.get
get-replace id row orm rows key found =
    rw (Table.find-replace_found row_id id row rows orm key found) refl

pub get-replace_other :
    (j : Uuid) (row : DeploymentOrm) (rows : List DeploymentOrm)
    → row_id row ≢ j
    → Deployments.get j (Table.replace row_id row rows) ≡ Deployments.get j rows
unfolding Deployments.get
get-replace_other j row rows differs = rw (Table.find-replace_ne row_id j row rows differs) refl

pub found_row :
    (id : Uuid) (tables : DomainTables) (d : Deployment)
    → get_deployment id tables ≡ some d
    → (orm : DeploymentOrm) × (Table.find row_id id tables.deployments ≡ some orm)
      × (d ≡ to_domain orm)
      × (orm.deployment_id ≡ id)
unfolding get_deployment Deployments.get
found_row id tables d h = elim (Option-cases (Table.find row_id id tables.deployments)) [
  | inl absent ↦ absurd (ground arith)
  | inr (orm, there) ↦
      (orm, there, ground arith, Table.key-find row_id id tables.deployments orm there)
]

module _ (local : ℕ → ℕ) (now now' : ℕ) where
  reread :
      (o : Option ℕ) → read_time (write_time local (read_time o)) ≡ stored_time local (read_time o)
  reread none = refl
  reread (some t) = refl

  pub deploying-to_domain :
      (d : Deployment) (orm : DeploymentOrm)
      → d ≡ to_domain orm
      → to_domain (updated_row local (deploying now d) orm) ≡ stored local (deploying now d)
  deploying-to_domain d orm same = rw (same, reread orm.completed_at) refl

  pub broken-to_domain :
      (message : String) (d : Deployment) (orm : DeploymentOrm)
      → d ≡ to_domain orm
      → to_domain (
          updated_row local
            (broken now' message (deploying now d))
            (updated_row local (deploying now d) orm))
        ≡ stored local (broken now' message (deploying now d))
  broken-to_domain message d orm same = rw same refl
