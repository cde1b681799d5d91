-- ===== src/RuntimeAgent.antt =====
-- runtime_agent/server.py: the agent that runs on a node and has its Docker daemon start containers.
-- The daemon and its client library are a parameter: a state and the calls that the agent makes of
-- it. `connected` tells whether the client was made when the agent started, and `http_text` is `str`
-- of an HTTPException.
pub mod Answers
pub mod Client
use application_as_service.Prelude.{
  ℕ, String, Bool, true, false, not, Option, none, some, List, [], ◌∷◌, str_eq, if◌then◌else◌,
}
use application_as_service.Prelude.Text.{append}

pub record ContainerSpec : Type 0 where
  pub image : String
  pub name : String
  pub ports : List (String × ℕ)
  pub environment : List (String × String)
  pub volumes : List String
  pub restart_policy : String
  pub labels : List (String × String)

-- The keyword arguments of `containers.create`; none for one that is not given.
pub record ContainerConfig : Type 0 where
  pub image : String
  pub name : String
  pub labels : List (String × String)
  pub environment : Option (List (String × String))
  pub ports : Option (List (String × ℕ))
  pub volumes : Option (List String)
  pub restart_policy : Option String

-- What the daemon tells of a container; of its networks the addresses, in their order.
pub record ContainerInfo : Type 0 where
  pub id : String
  pub name : String
  pub status : String
  pub addresses : List (Option String)
  pub exit_code : Option ℕ

-- An exception of the library, with its text. ImageNotFound is a NotFound, and both are APIErrors.
pub data Failure : Type 0 where
  image_not_found not_found api_error other_error : String → Failure

pub data Reply (A : Type 0) : Type 0 where
  done : A → Reply A
  failure : Failure → Reply A

pub record Docker (D : Type 0) : Type 0 where
  pub pull : String → D → Reply (Unit {0}) × D
  pub create : ContainerConfig → D → Reply String × D
  pub start : String → D → Reply (Unit {0}) × D
  pub inspect : String → D → Reply ContainerInfo × D
  pub stop : String → D → Reply (Unit {0}) × D
  pub remove : Bool → String → D → Reply (Unit {0}) × D
  pub restart : String → D → Reply (Unit {0}) × D

-- The answer to a request: a body with the status 200, or an HTTPException.
pub data Answer (A : Type 0) : Type 0 where
  answer : A → Answer A
  http_error : ℕ → String → Answer A

pub record DeployResponse : Type 0 where
  pub container_id : String
  pub container_name : String
  pub status : String
  pub internal_ip : Option String
  pub ports : List (String × ℕ)

pub record ContainerStatusResponse : Type 0 where
  pub container_id : String
  pub status : String
  pub running : Bool
  pub exit_code : Option ℕ

-- `labels[key] = value`
unfoldable pub set_label : String → String → List (String × String) → List (String × String)
set_label key value [] = (key, value) ∷ []
set_label key value ((k, v) ∷ labels) =
    let rest = set_label key value labels in
    if str_eq k key then (k, value) ∷ labels else (k, v) ∷ rest

-- `if xs: config[...] = xs`
abbrev pub if_any : {A : Type 0} → List A → Option (List A)
if_any [] = none
if_any (x ∷ xs) = some (x ∷ xs)

abbrev pub if_text : String → Option String
if_text s = if str_eq s "" then none else some s

unfoldable pub container_config : String → ContainerSpec → ContainerConfig
unfolding set_label
container_config execution_id spec = record {
  image = spec.image;
  name = spec.name;
  labels =
      set_label "execution_id" execution_id (set_label "managed_by" "execution_engine" spec.labels);
  environment = if_any spec.environment;
  ports = if_any spec.ports;
  volumes = if_any spec.volumes;
  restart_policy = if_text spec.restart_policy;
}

-- The address in the first network.
abbrev pub internal_ip : List (Option String) → Option String
internal_ip [] = none
internal_ip (address ∷ addresses) = address

abbrev pub deploy_response : ContainerSpec → String → ContainerInfo → DeployResponse
deploy_response spec id info = record {
  container_id = id;
  container_name = info.name;
  status = info.status;
  internal_ip = internal_ip info.addresses;
  ports = spec.ports;
}

-- The handlers of `deploy_container`.
abbrev pub deploy_failed : {A : Type 0} → Failure → Answer A
deploy_failed (image_not_found text) = http_error 500 (append "Docker error: " text)
deploy_failed (not_found text) = http_error 500 (append "Docker error: " text)
deploy_failed (api_error text) = http_error 500 (append "Docker error: " text)
deploy_failed (other_error text) = http_error 500 text

-- The HTTPException for a missing image is raised inside the outer `try`, whose last handler
-- catches it.
abbrev pub pull_failed : {A : Type 0} → (ℕ → String → String) → String → Failure → Answer A
pull_failed http_text image (image_not_found text) =
    http_error 500 (http_text 404 (append "Image not found: " image))
pull_failed http_text image e = deploy_failed e

-- The handlers of the endpoints for one container.
abbrev pub container_failed : {A : Type 0} → Failure → Answer A
container_failed (image_not_found text) = http_error 404 "Container not found"
container_failed (not_found text) = http_error 404 "Container not found"
container_failed (api_error text) = http_error 500 text
container_failed (other_error text) = http_error 500 text

-- The rest of a request runs if the call returned; the handlers answer if it raised.
abbrev pub on_reply :
    {A B D : Type 0} → (Failure → Answer B) → Reply A × D → (A → D → Answer B × D) → Answer B × D
on_reply handler (done a, d) f = f a d
on_reply handler (failure e, d) f = (handler e, d)

module _ {D : Type 0} (docker : Docker D) (connected : Bool) where
  -- The request is refused without a client.
  abbrev pub with_client : {A : Type 0} → (D → Answer A × D) → D → Answer A × D
  with_client f d = if connected then f d else (http_error 503 "Docker not available", d)

  unfoldable pub health_check : D → Answer String × D
  health_check = with_client λ d. (answer "healthy", d)

  module _ (http_text : ℕ → String → String) where
    unfoldable pub deploy_container : String → ContainerSpec → D → Answer DeployResponse × D
    unfolding append container_config
    deploy_container execution_id spec = with_client λ d.
        on_reply (pull_failed http_text spec.image) (docker.pull spec.image d) λ pulled d.
          on_reply deploy_failed (docker.create (container_config execution_id spec) d) λ id d.
            on_reply deploy_failed (docker.start id d) λ started d.
              on_reply deploy_failed (docker.inspect id d)
                λ info d. (answer (deploy_response spec id info), d)

  unfoldable pub get_container_status : String → D → Answer ContainerStatusResponse × D
  get_container_status container_id = with_client λ d.
      on_reply container_failed (docker.inspect container_id d) λ info d. (
        answer (record {
          container_id = info.id;
          status = info.status;
          running = str_eq info.status "running";
          exit_code = info.exit_code;
        }),
        d,
      )

  unfoldable pub stop_container : String → D → Answer (String × String) × D
  stop_container container_id = with_client λ d.
      on_reply container_failed (docker.inspect container_id d) λ info d.
        on_reply container_failed (docker.stop info.id d)
          λ stopped d. (answer ("stopped", container_id), d)

  unfoldable pub remove_container : Bool → String → D → Answer (String × String) × D
  remove_container force container_id = with_client λ d.
      on_reply container_failed (docker.inspect container_id d) λ info d.
        on_reply container_failed (docker.remove force info.id d)
          λ removed d. (answer ("removed", container_id), d)

  -- Without a client, the attribute of None raises, and the last handler answers.
  unfoldable pub restart_container : String → D → Answer (String × String) × D
  restart_container container_id d =
      if not connected
      then (http_error 500 "'NoneType' object has no attribute 'containers'", d)
      else on_reply container_failed (docker.inspect container_id d) λ info d.
        on_reply container_failed (docker.restart info.id d)
          λ restarted d. (answer (container_id, "restarted"), d)
