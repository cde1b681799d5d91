-- ===== src/RuntimeAgent/Answers.antt =====
-- How the agent answers a request to deploy.
use application_as_service.Prelude.{ℕ, ◌≡◌, ◌⊎◌, inl, inr, refl, ap, String, true}
use application_as_service.RuntimeAgent.{
  ContainerSpec, ContainerInfo, Failure, Reply, Docker, Answer, image_not_found, not_found,
  api_error, other_error, done, failure, answer, http_error, DeployResponse, container_config,
  deploy_response, deploy_failed, pull_failed, deploy_container,
}

Reply-cases :
    {A : Type 0} (r : Reply A) → ((e : Failure) × (r ≡ failure e)) ⊎ ((a : A) × (r ≡ done a))
Reply-cases (failure e) = inl (e, refl)
Reply-cases (done a) = inr (a, refl)

deploy_failed_lem :
    {A : Type 0} (e : Failure) → (text : String) × (deploy_failed {A = A} e ≡ http_error 500 text)
deploy_failed_lem (image_not_found text) = (_, refl)
deploy_failed_lem (not_found text) = (_, refl)
deploy_failed_lem (api_error text) = (_, refl)
deploy_failed_lem (other_error text) = (_, refl)

pull_failed_lem :
    {A : Type 0} (http_text : ℕ → String → String) (image : String) (e : Failure)
    → (text : String) × (pull_failed {A = A} http_text image e ≡ http_error 500 text)
pull_failed_lem http_text image (image_not_found text) = (_, refl)
pull_failed_lem http_text image (not_found text) = (_, refl)
pull_failed_lem http_text image (api_error text) = (_, refl)
pull_failed_lem http_text image (other_error text) = (_, refl)

module _ {D : Type 0} (docker : Docker D) (http_text : ℕ → String → String) where
  -- The daemon pulled the image, created the container of the configuration, started it, and told
  -- what the answer tells of it.
  abbrev pub IsStarted : String → ContainerSpec → D → Answer DeployResponse × D → Type 0
  IsStarted execution_id spec d r =
      (id : String) × (info : ContainerInfo) × (d1 : D) × (d2 : D) × (d3 : D) × (docker.pull
          spec.image d
        ≡ (done tt, d1))
      × (docker.create (container_config execution_id spec) d1 ≡ (done id, d2))
      × (docker.start id d2 ≡ (done tt, d3))
      × (docker.inspect id d3 ≡ (done info, r.1))
      × (r.0 ≡ answer (deploy_response spec id info))

  -- With a connection to Docker, the agent answers a request to deploy either with the status
  -- 500, for a missing image too; or the daemon has pulled the image, created the container of
  -- the configuration, started it and told of it, one after the other, and the answer tells of
  -- that container.
  pub deploy_container_answers :
      (execution_id : String) (spec : ContainerSpec) (d : D)
      → ((text : String) × ((deploy_container docker true http_text execution_id spec d).0
            ≡ http_error 500 text))
        ⊎ IsStarted execution_id spec d (deploy_container docker true http_text execution_id spec d)
  unfolding deploy_container
  deploy_container_answers execution_id spec d =
      let one = docker.pull spec.image d in
      let two = docker.create (container_config execution_id spec) one.1 in
      elim (Reply-cases one.0) [
        | inl (e, raised) ↦
            let (text, same) = pull_failed_lem {A = DeployResponse} http_text spec.image e in
            inl (text, rw raised same)
        | inr (u, pulled) ↦ elim (Reply-cases two.0) [
          | inl (e, raised) ↦
              let (text, same) = deploy_failed_lem {A = DeployResponse} e in
              inl (text, rw (pulled, raised) same)
          | inr (id, created) ↦
              let three = docker.start id two.1 in
              elim (Reply-cases three.0) [
                | inl (e, raised) ↦
                    let (text, same) = deploy_failed_lem {A = DeployResponse} e in
                    inl (text, rw (pulled, created, raised) same)
                | inr (v, started) ↦
                    let four = docker.inspect id three.1 in
                    elim (Reply-cases four.0) [
                      | inl (e, raised) ↦
                          let (text, same) = deploy_failed_lem {A = DeployResponse} e in
                          inl (text, rw (pulled, created, started, raised) same)
                      | inr (info, told) ↦ inr (
                          rw (pulled, created, started, told)
                            (
                              id,
                              info,
                              one.1,
                              two.1,
                              three.1,
                              refl,
                              ap (λ x. (x, two.1)) created,
                              ap (λ x. (x, three.1)) started,
                              ap (λ x. (x, four.1)) told,
                              refl,
                            ))
                    ]
              ]
        ]
      ]
