-- ===== src/Orchestrator/Outcomes.antt =====
-- How `start_deployment` leaves the deployment.
use application_as_service.Prelude.{
  ℕ, ◌≡◌, ◌≢◌, ◌⊎◌, inl, inr, refl, sym, ◌∙◌, ap, subst, String, Option, some, sort_by,
}
use application_as_service.Prelude.Table
use application_as_service.Outcome.{Error, Result, ok, err}
use application_as_service.Integers.{ℤ}
use application_as_service.Floats.{Floats}
use application_as_service.Execution.{Uuid}
use application_as_service.Domain.{Deployment}
use application_as_service.Domain.Deployments
use application_as_service.Domain.Deployments.{
  DeploymentOrm, row_id, to_domain, updated_row, stored,
}
use application_as_service.Templates.{ApplicationTemplate}
use application_as_service.DomainService.Config.{Texts}
use application_as_service.DomainService.Operations.{get_template, get_deployment}
use application_as_service.Orchestrator.{Platform}
use application_as_service.Orchestrator.Steps.{Fresh}
use application_as_service.Orchestrator.Starting.{
  earlier_step, deploying, broken, execute_steps, save, after_steps, start_deployment,
}
use application_as_service.Orchestrator.Marks.{
  get-replace, get-replace_other, found_row, deploying-to_domain, broken-to_domain,
}
use application_as_service.Orchestrator.Frames.{IsKept, execute_steps-IsKept}

module _ {F : Type 0} (local : ℕ → ℕ) (text_of : Error → String) (now now' : ℕ) where
  -- The deployment was started, or it is FAILED with the text of the exception that was raised.
  abbrev pub IsSettled : Deployment → Result (Unit {0}) × Platform F → Type 0
  IsSettled d r =
      ((r.0 ≡ ok tt)
        × (get_deployment d.deployment_id r.1.domain ≡ some (stored local (deploying now d))))
      ⊎ ((e : Error) × (r.0 ≡ err e)
          × (get_deployment d.deployment_id r.1.domain
              ≡ some (stored local (broken now' (text_of e) (deploying now d)))))

  -- Nothing but this deployment, the executions and the resources has changed.
  abbrev pub IsConfined : Uuid → Platform F → Result (Unit {0}) × Platform F → Type 0
  IsConfined id s r =
      (r.1.nodes ≡ s.nodes)
      × (r.1.domain.applications ≡ s.domain.applications)
      × (r.1.domain.templates ≡ s.domain.templates)
      × ((j : Uuid) → id ≢ j → get_deployment j r.1.domain ≡ get_deployment j s.domain)

  abbrev rows_with : DeploymentOrm → Platform F → Platform F
  rows_with row s = record s {
    domain = record s.domain { deployments = Table.replace row_id row s.domain.deployments };
  }

  saved :
      (d : Deployment) (s : Platform F) (orm : DeploymentOrm)
      → Table.find row_id d.deployment_id s.domain.deployments ≡ some orm
      → save local d s ≡ (ok tt, rows_with (updated_row local d orm) s)
  unfolding Deployments.update
  saved d s orm found = rw (found, Deployments.update) refl

  module _ (floats : Floats F) (parse : String → Option ℤ) (texts : Texts) (fresh : ℕ → Fresh) where
    not_key :
        (d : Deployment) (orm : DeploymentOrm) (j : Uuid)
        → d ≡ to_domain orm
        → d.deployment_id ≢ j
        → row_id orm ≢ j
    not_key d orm j same differs e = differs (ap (λ x. x.deployment_id) same ∙ e)

    after_steps_outcome :
        (d : Deployment) (s : Platform F) (orm : DeploymentOrm)
        → Table.find row_id d.deployment_id s.domain.deployments ≡ some orm
        → d ≡ to_domain orm
        → (r : Result (Unit {0}) × Platform F)
        → IsKept (rows_with (updated_row local (deploying now d) orm) s) r
        → IsSettled d (after_steps floats parse texts local text_of now' (deploying now d) r)
          × IsConfined d.deployment_id s
              (after_steps floats parse texts local text_of now' (deploying now d) r)
    unfolding get_deployment
    after_steps_outcome d s orm found same (ok done, t) kept =
        let row = updated_row local (deploying now d) orm in
        let rows = s.domain.deployments in
        let after : t.domain.deployments ≡ Table.replace row_id row rows =
          ap (λ x. x.deployments) kept.0 in
        (
          inl (
            refl,
            rw
                (
                  after,
                  get-replace d.deployment_id row orm rows refl found,
                  deploying-to_domain local now now' d orm same,
                )
                refl,
          ),
          (
            kept.1,
            ap (λ x. x.applications) kept.0,
            ap (λ x. x.templates) kept.0,
            λ j differs.
                ap (Deployments.get j) after
                ∙ get-replace_other j row rows (not_key d orm j same differs),
          ),
        )
    after_steps_outcome d s orm found same (err e, t) kept =
        let row = updated_row local (deploying now d) orm in
        let last = broken now' (text_of e) (deploying now d) in
        let row' = updated_row local last row in
        let rows = s.domain.deployments in
        let after : t.domain.deployments ≡ Table.replace row_id row rows =
          ap (λ x. x.deployments) kept.0 in
        let there : Table.find row_id d.deployment_id t.domain.deployments ≡ some row =
          ap (Table.find row_id d.deployment_id) after
          ∙ Table.find-replace_found row_id d.deployment_id row rows orm refl found in
        rw (saved last t row there) (
          inr (
            e,
            refl,
            get-replace d.deployment_id row' row t.domain.deployments refl there
                ∙ ap some (broken-to_domain local now now' (text_of e) d orm same),
          ),
          (
            kept.1,
            ap (λ x. x.applications) kept.0,
            ap (λ x. x.templates) kept.0,
            λ j differs.
                get-replace_other j row' t.domain.deployments (not_key d orm j same differs)
                ∙ ap (Deployments.get j) after
                ∙ get-replace_other j row rows (not_key d orm j same differs),
          ),
        )

    -- The start of a deployment that is there, and whose template is there and can be read, has
    -- one of two outcomes: it returns, and the deployment is DEPLOYING with the time of the
    -- start; or it raises an exception of its steps, and the deployment is FAILED with the text
    -- of that exception and the times of the start and of the failure. In both the nodes, the
    -- applications, the templates and the other deployments are as they were: no capacity of a
    -- node is taken.
    pub start_deployment_outcome :
        (id : Uuid) (s : Platform F) (d : Deployment) (template : ApplicationTemplate)
        → get_deployment id s.domain ≡ some d
        → get_template d.template_id s.domain ≡ ok (some template)
        → IsSettled d (start_deployment floats parse texts local text_of now now' fresh id s)
          × IsConfined d.deployment_id s
              (start_deployment floats parse texts local text_of now now' fresh id s)
    unfolding start_deployment
    start_deployment_outcome id s d template found known =
        let (orm, there, same, key) = found_row id s.domain d found in
        let key' : d.deployment_id ≡ id = ap (λ x. x.deployment_id) same ∙ key in
        let there' =
          subst (λ k. Table.find row_id k s.domain.deployments ≡ some orm) (sym key') there in
        let steps = sort_by earlier_step template.deployment_steps in
        let s' = rows_with (updated_row local (deploying now d) orm) s in
        rw (found, known, saved (deploying now d) s orm there')
          (after_steps_outcome d s orm there' same
            (execute_steps floats parse texts local fresh 0 (deploying now d) steps s')
            (execute_steps-IsKept floats parse texts local fresh 0 (deploying now d) steps s'))
