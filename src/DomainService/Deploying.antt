-- ===== src/DomainService/Deploying.antt =====
-- What the creation of a deployment leaves in the tables.
use application_as_service.Prelude.{
  ℕ, ◌≡◌, ◌⊎◌, inl, inr, refl, sym, subst, ◌∙◌, ap, Option, none, some, List, [], ◌∷◌, ◌++◌, arith,
  ◌==◌, if◌then◌else◌, Option-cases,
}
use application_as_service.Prelude.Table
use application_as_service.Outcome.{Result, ok, concurrency_error, validation_error, Outcome-cases}
use application_as_service.Value.{Value}
use application_as_service.Execution.{Uuid}
use application_as_service.Postgres.{write_time, read_time}
use application_as_service.Domain.{ApplicationStatus, Application, Deployment}
use application_as_service.Domain.Applications
use application_as_service.Domain.Applications.{ApplicationOrm, to_domain, updated_row}
use application_as_service.Domain.Deployments
use application_as_service.Domain.Deployments.{DeploymentOrm, deployment_to_orm, stored, read_back}
use application_as_service.Templates.{ApplicationTemplate}
use application_as_service.DomainService.Config.{Texts, resolve_config}
use application_as_service.DomainService.Applying.{IsRefused}
use application_as_service.DomainService.Operations.{
  DomainTables, new_deployment, get_template, get_application, get_deployment, pointed_at,
  deploy_from, create_deployment,
}

module _ (local : ℕ → ℕ) (onupdate : ApplicationOrm → ApplicationOrm → ℕ) (texts : Texts) (now : ℕ)
    (id : Uuid) where
  -- The application as it is after a deployment was made for it.
  abbrev pub IsPointed : Application → DomainTables → Type 0
  IsPointed app after =
      (app' : Application) × (get_application app.application_id after ≡ some app')
      × (app'.status ≡ ApplicationStatus.creating)
      × (app'.current_deployment_id ≡ some id)
      × (app'.deleted_at ≡ app.deleted_at)

  abbrev pub IsDeployed :
      Application → ApplicationTemplate → DomainTables → Result Deployment × DomainTables → Type 0
  IsDeployed app template s r =
      (config : Value) × (resolve_config texts template app.user_inputs app.application_id
        ≡ ok config)
      × (r.0 ≡ ok (new_deployment now id app template config))
      × ((j : Uuid)
          → get_deployment j r.1 ≡ (
              if id == j
              then some (stored local (new_deployment now id app template config))
              else get_deployment j s))
      × IsPointed app r.1

  get-append :
      (d : Deployment) (rows : List DeploymentOrm)
      → Table.find Deployments.row_id d.deployment_id rows ≡ none
      → (j : Uuid)
      → Deployments.get j (rows ++ deployment_to_orm local d ∷ [])
        ≡ (if d.deployment_id == j then some (stored local d) else Deployments.get j rows)
  unfolding Deployments.get
  get-append d rows h j = ground (
    arith,
    Table.find-append_if Deployments.row_id (deployment_to_orm local d) rows h j,
    read_back local d,
  )

  found_row :
      (application_id : Uuid) (s : DomainTables) (app : Application)
      → get_application application_id s ≡ some app
      → (orm : ApplicationOrm) × (Table.find Applications.row_id application_id s.applications
          ≡ some orm)
        × (app ≡ to_domain orm)
        × (orm.application_id ≡ application_id)
  unfolding get_application Applications.get
  found_row application_id s app h =
      elim (Option-cases (Table.find Applications.row_id application_id s.applications)) [
        | inl absent ↦ absurd (ground arith)
        | inr (orm, there) ↦ (
          orm,
          there,
          ground arith,
          Table.key-find Applications.row_id application_id s.applications orm there,
        )
      ]

  replaced :
      (app : Application) (s : DomainTables) (orm : ApplicationOrm)
      → Table.find Applications.row_id app.application_id s.applications ≡ some orm
      → Table.find Applications.row_id app.application_id (
          Table.replace Applications.row_id
            (updated_row local onupdate (pointed_at id app) orm)
            s.applications)
        ≡ some (updated_row local onupdate (pointed_at id app) orm)
  replaced app s orm there =
      let row = updated_row local onupdate (pointed_at id app) orm in
      Table.find-replace_found Applications.row_id app.application_id row s.applications orm refl
        there

  reread : (o : Option ℕ) → read_time (write_time local (read_time o)) ≡ read_time o
  reread none = refl
  reread (some t) = refl

  deploy_from_outcome :
      (app : Application) (template : ApplicationTemplate) (s : DomainTables)
      → get_application app.application_id s ≡ some app
      → IsRefused s (deploy_from local onupdate texts now id app template s)
        ⊎ IsDeployed app template s (deploy_from local onupdate texts now id app template s)
  unfolding Deployments.create Applications.update get_deployment get_application Applications.get
  deploy_from_outcome app template s h =
      let (orm, there, same, key) = found_row app.application_id s app h in
      elim (Outcome-cases (resolve_config texts template app.user_inputs app.application_id)) [
        | inl (x, refused) ↦ inl (x, rw refused refl)
        | inr (config, resolved) ↦
            elim (Option-cases (Table.find Deployments.row_id id s.deployments)) [
              | inr (old, taken) ↦
                  inl (concurrency_error, rw (resolved, taken, Deployments.create) refl)
              | inl new ↦ inr (
                  rw (resolved, new, there, Deployments.create, Applications.update, there)
                    (
                      config,
                      refl,
                      refl,
                      get-append (new_deployment now id app template config) s.deployments new,
                      (
                        to_domain (updated_row local onupdate (pointed_at id app) orm),
                        rw (replaced app s orm there) refl,
                        refl,
                        refl,
                        rw same (reread orm.deleted_at),
                      ),
                    ))
            ]
      ]

  own_id :
      (application_id : Uuid) (s : DomainTables) (app : Application)
      → get_application application_id s ≡ some app
      → get_application app.application_id s ≡ some app
  own_id application_id s app found =
      let (orm, there, same, key) = found_row application_id s app found in
      let key' : app.application_id ≡ application_id = ap (λ a. a.application_id) same ∙ key in
      subst (λ k. get_application k s ≡ some app) (sym key') found

  -- The creation of a deployment either raises and changes nothing, or it returns the PENDING
  -- deployment with the configuration that was resolved for the application and its template;
  -- then the deployment is stored under its id, the other deployments are as they were, and the
  -- application is CREATING and points to the deployment, and keeps its time of deletion, if it
  -- has one.
  pub create_deployment_outcome :
      (application_id : Uuid) (s : DomainTables)
      → IsRefused s (create_deployment local onupdate texts now id application_id s)
        ⊎ ((app : Application) × (template : ApplicationTemplate) × (get_application application_id
                s
              ≡ some app)
            × (get_template app.template_id s ≡ ok (some template))
            × IsDeployed app template s
                (create_deployment local onupdate texts now id application_id s))
  unfolding create_deployment
  create_deployment_outcome application_id s =
      elim (Option-cases (get_application application_id s)) [
        | inl absent ↦ inl (validation_error, rw absent refl)
        | inr (app, found) ↦ elim (Outcome-cases (get_template app.template_id s)) [
          | inl (e, raised) ↦ inl (e, rw (found, raised) refl)
          | inr (none, e) ↦ inl (validation_error, rw (found, e) refl)
          | inr (some template, e) ↦
              elim (deploy_from_outcome app template s (own_id application_id s app found)) [
                | inl refused ↦ inl (rw (found, e) refused)
                | inr made ↦ inr (app, template, found, e, rw (found, e) made)
              ]
        ]
      ]
