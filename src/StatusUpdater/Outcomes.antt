-- ===== src/StatusUpdater/Outcomes.antt =====
-- The outcomes of a deployment, from those of its executions.
use application_as_service.Prelude.{
  ℕ, ◌≡◌, ◌≢◌, refl, true, false, Option, none, some, List, [], ◌∷◌, arith, All, Any, ◌∙◌, ap,
  count_if-Any, count_if_zero, count_if-All, count_if-below, Option-cases, inl, inr,
}
use application_as_service.Prelude.Table
use application_as_service.Outcome.{ok}
use application_as_service.Execution.{Uuid, Execution}
use application_as_service.Domain.{ApplicationStatus, DeploymentStatus, Deployment}
use application_as_service.Domain.Applications
use application_as_service.Domain.Applications.{ApplicationOrm}
use application_as_service.Domain.Deployments
use application_as_service.Domain.Deployments.{DeploymentOrm}
use application_as_service.StatusUpdater.{
  Tables, is_failed, is_completed, new_status, update_application_status, apply_deployment_status,
  get_deployment_executions, update_deployment, with_status, decide, application_status, errors_of,
  failure_message,
}

new_status_failed :
    (es : List Execution)
    → Any (λ e. is_failed e ≡ true) es
    → new_status es ≡ some DeploymentStatus.failed
unfolding new_status
new_status_failed es h = ground (arith, count_if-Any is_failed es h)

new_status_running :
    (es : List Execution)
    → All (λ e. is_failed e ≡ false) es
    → All (λ e. is_completed e ≡ true) es
    → new_status es ≡ some DeploymentStatus.running
unfolding new_status
new_status_running es h k =
    ground (arith, count_if_zero is_failed es h, count_if-All is_completed es k)

new_status_waiting :
    (es : List Execution)
    → All (λ e. is_failed e ≡ false) es
    → Any (λ e. is_completed e ≡ false) es
    → new_status es ≡ none
unfolding new_status
new_status_waiting es h k =
    ground (arith, count_if_zero is_failed es h, count_if-below is_completed es k)

completed_not_failed :
    (es : List Execution) → All (λ e. is_completed e ≡ true) es → All (λ e. is_failed e ≡ false) es
completed_not_failed [] h = tt
completed_not_failed (e ∷ es) h = (ground arith, completed_not_failed es h.1)

-- The status of an application, where it is known.
abbrev pub status_in : Uuid → List ApplicationOrm → Option ApplicationStatus
status_in id rows = elim (Table.find Applications.row_id id rows) [
  | none ↦ none
  | some a ↦ some a.status
]

module _ (local : ℕ → ℕ) (onupdate : ApplicationOrm → ApplicationOrm → ℕ) where
  decide_waits :
      (now : ℕ) (d : Deployment) (es : List Execution) (t : Tables)
      → All (λ e. is_failed e ≡ false) es
      → Any (λ e. is_completed e ≡ false) es
      → decide local onupdate now d es t ≡ (ok tt, t)
  decide_waits now d [] t h k = refl
  decide_waits now d (e ∷ es) t h k = rw (new_status_waiting (e ∷ es) h k) refl

  decide_failed :
      (now : ℕ) (d : Deployment) (es : List Execution) (t : Tables)
      → d.status ≡ DeploymentStatus.deploying
      → Any (λ e. is_failed e ≡ true) es
      → decide local onupdate now d es t
        ≡ apply_deployment_status local onupdate now d DeploymentStatus.failed es t
  decide_failed now d [] t s h = absurd h
  decide_failed now d (e ∷ es) t s h = rw (new_status_failed (e ∷ es) h, s) refl

  decide_running :
      (now : ℕ) (d : Deployment) (es : List Execution) (t : Tables)
      → d.status ≡ DeploymentStatus.deploying
      → es ≢ []
      → All (λ e. is_completed e ≡ true) es
      → decide local onupdate now d es t
        ≡ apply_deployment_status local onupdate now d DeploymentStatus.running es t
  decide_running now d [] t s n h = absurd (n refl)
  decide_running now d (e ∷ es) t s n h =
      rw (new_status_running (e ∷ es) (completed_not_failed (e ∷ es) h) h, s) refl

  update_found :
      (now : ℕ) (id : Uuid) (t : Tables) (d : DeploymentOrm)
      → Table.find Deployments.row_id id t.deployments ≡ some d
      → update_deployment local onupdate now id t
        ≡ decide local onupdate now
            (Deployments.to_domain d)
            (get_deployment_executions id t.executions)
            t
  unfolding update_deployment Deployments.get
  update_found now id t d found = rw (found, update_deployment) refl

  -- The application's row afterwards.
  status_after :
      (app_id : Uuid) (status : DeploymentStatus) (new : ApplicationStatus) (t : Tables)
      (a : ApplicationOrm)
      → Table.find Applications.row_id app_id t.applications ≡ some a
      → application_status status ≡ some new
      → ((update_application_status local onupdate app_id status t).0 ≡ ok tt)
        × ((update_application_status local onupdate app_id status t).1.deployments ≡ t.deployments)
        × (status_in app_id
              (update_application_status local onupdate app_id status t).1.applications
            ≡ some new)
  unfolding update_application_status Applications.get Applications.update
  status_after app_id status new t a found known =
      let same = Table.key-find Applications.row_id app_id t.applications a found in
      let found' = ap (λ k. Table.find Applications.row_id k t.applications) same ∙ found in
      ground (
        arith,
        same,
        found',
        Table.find-replace_found Applications.row_id app_id
            (Applications.updated_row local onupdate
              (record (Applications.to_domain a) { status = new }) a)
            t.applications a refl found,
      )

  -- What applying a new status does to both tables.
  applied :
      (now : ℕ) (id : Uuid) (t : Tables) (d : DeploymentOrm) (a : ApplicationOrm)
      (status : DeploymentStatus) (new : ApplicationStatus) (es : List Execution)
      → Table.find Deployments.row_id id t.deployments ≡ some d
      → Table.find Applications.row_id d.application_id t.applications ≡ some a
      → application_status status ≡ some new
      → let r = apply_deployment_status local onupdate now (Deployments.to_domain d) status es t in
        (r.0 ≡ ok tt)
        × (Table.find Deployments.row_id id r.1.deployments
            ≡ some (
                Deployments.updated_row local
                  (with_status now status es (Deployments.to_domain d))
                  d))
        × (status_in d.application_id r.1.applications ≡ some new)
  unfolding apply_deployment_status Deployments.update
  applied now id t d a status new es found app_found known =
      let same = Table.key-find Deployments.row_id id t.deployments d found in
      let found' = ap (λ k. Table.find Deployments.row_id k t.deployments) same ∙ found in
      let row =
        Deployments.updated_row local (with_status now status es (Deployments.to_domain d)) d in
      let t' = record t { deployments = Table.replace Deployments.row_id row t.deployments } in
      let after = status_after d.application_id status new t' a app_found known in
      ground (
        arith,
        found',
        after,
        Table.find-replace_found Deployments.row_id id row t.deployments d refl found,
      )

  module _ (now : ℕ) (id : Uuid) (t : Tables) (d : DeploymentOrm) (a : ApplicationOrm)
      (found : Table.find Deployments.row_id id t.deployments ≡ some d)
      (deploying : d.status ≡ DeploymentStatus.deploying)
      (app_found : Table.find Applications.row_id d.application_id t.applications ≡ some a) where
    -- A DEPLOYING deployment, whose application is there, with a FAILED execution becomes FAILED,
    -- with the time and the messages of its executions, and its application becomes FAILED.
    pub update_deployment_fails :
        Any (λ e. is_failed e ≡ true) (get_deployment_executions id t.executions)
        → ((update_deployment local onupdate now id t).0 ≡ ok tt)
          × (Table.find Deployments.row_id id
                (update_deployment local onupdate now id t).1.deployments
              ≡ some (record d {
                status = DeploymentStatus.failed;
                completed_at = some (local now);
                error_message =
                    some (failure_message (errors_of (get_deployment_executions id t.executions)));
              }))
          × (status_in d.application_id (update_deployment local onupdate now id t).1.applications
              ≡ some ApplicationStatus.failed)
    update_deployment_fails h =
        let es = get_deployment_executions id t.executions in
        ground (
          arith,
          update_found now id t d found,
          decide_failed now (Deployments.to_domain d) es t deploying h,
          applied now id t d a DeploymentStatus.failed ApplicationStatus.failed es found app_found
              refl,
        )

    -- A DEPLOYING deployment, whose application is there, with at least one execution and only
    -- COMPLETED ones becomes RUNNING, with the time, and its application becomes RUNNING.
    pub update_deployment_runs :
        get_deployment_executions id t.executions ≢ []
        → All (λ e. is_completed e ≡ true) (get_deployment_executions id t.executions)
        → ((update_deployment local onupdate now id t).0 ≡ ok tt)
          × (Table.find Deployments.row_id id
                (update_deployment local onupdate now id t).1.deployments
              ≡ some
                  (record d { status = DeploymentStatus.running; completed_at = some (local now) }))
          × (status_in d.application_id (update_deployment local onupdate now id t).1.applications
              ≡ some ApplicationStatus.running)
    update_deployment_runs n h =
        let es = get_deployment_executions id t.executions in
        ground (
          arith,
          update_found now id t d found,
          decide_running now (Deployments.to_domain d) es t deploying n h,
          applied now id t d a DeploymentStatus.running ApplicationStatus.running es found app_found
              refl,
        )

  -- If no execution of a deployment is FAILED and one is not COMPLETED, the update of the
  -- deployment returns and changes nothing; so a CANCELLED execution keeps its deployment as it
  -- is.
  pub update_deployment_waits :
      (now : ℕ) (id : Uuid) (t : Tables)
      → All (λ e. is_failed e ≡ false) (get_deployment_executions id t.executions)
      → Any (λ e. is_completed e ≡ false) (get_deployment_executions id t.executions)
      → update_deployment local onupdate now id t ≡ (ok tt, t)
  unfolding update_deployment Deployments.get
  update_deployment_waits now id t h k =
      elim (Option-cases (Table.find Deployments.row_id id t.deployments)) [
        | inl missing ↦ ground arith
        | inr (d, found) ↦
            update_found now id t d found
            ∙ decide_waits now (Deployments.to_domain d) (get_deployment_executions id t.executions)
                t h k
      ]
