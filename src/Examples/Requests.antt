-- ===== src/Examples/Requests.antt =====
-- The theorems on the runtime agent and on the checks over the network, at the samples.
use application_as_service.Prelude.{inl, ◌≡◌, ◌⊎◌, refl, String, true, false, none, some, [], ◌∷◌}
use application_as_service.Value.{Value, Fields, lookup}
use application_as_service.RuntimeAgent.{
  ContainerSpec, Docker, done, http_error, image_not_found, failure, deploy_container,
}
use application_as_service.RuntimeAgent.Answers.{IsStarted, deploy_container_answers}
use application_as_service.HealthChecker.{
  Container, Checked, check_container_health, handle_unhealthy_container, update_health_status,
}
use application_as_service.HealthChecker.Probes.{Network, ports_of, probe_of}
use application_as_service.HealthChecker.Portless.{with_spec, portless_unhealthy}
use application_as_service.Templates.Json.{◌⊳◌, health_check_fields}
use application_as_service.Examples.{session}
use application_as_service.Examples.Platform.{check}

-- A daemon without images.
abbrev bare : Docker (Unit {0})
bare = record {
  pull = λ image d. (failure (image_not_found "404"), d);
  create = λ config d. (done "c1", d);
  start = λ id d. (done tt, d);
  inspect = λ id d. (failure (image_not_found "404"), d);
  stop = λ id d. (done tt, d);
  remove = λ force id d. (done tt, d);
  restart = λ id d. (done tt, d);
}

abbrev web_container : ContainerSpec
web_container = record {
  image = "nginx";
  name = "web";
  ports = ("80/tcp", 8080) ∷ [];
  environment = [];
  volumes = [];
  restart_policy = "always";
  labels = [];
}

deploy_container_answers_example :
    ((text : String) × ((deploy_container bare true
          (λ status detail. detail)
          "u"
          web_container
          tt).0
        ≡ http_error 500 text))
    ⊎ IsStarted bare
        (λ status detail. detail)
        "u"
        web_container
        tt
        (deploy_container bare true (λ status detail. detail) "u" web_container tt)
deploy_container_answers_example =
    deploy_container_answers bare (λ status detail. detail) "u" web_container tt

abbrev silence : Network
silence = record {
  http_get = λ url t. some 200;
  connect = λ port t. some 0;
  post_command = λ url c t. none;
}

abbrev open_ports : Fields
open_ports = ("80/tcp", Value.number 8080) ⊳ Fields.no_fields

abbrev web_members : Fields
web_members =
    ("deployment_result", Value.object (("ports", Value.object open_ports) ⊳ Fields.no_fields))
    ⊳ ("health_check", Value.object (health_check_fields check))
    ⊳ Fields.no_fields

abbrev web : Container
web = record {
  resource_id = 3;
  deployment_id = 4;
  external_id = "c1";
  name = "web";
  spec = Value.null;
  node_id = 6;
  health_status = application_as_service.Domain.healthy;
  consecutive_failures = 0;
  last_check_at = none;
  runtime_agent_url = "http://10.0.0.1:9000";
}

abbrev none_str : Value → String
none_str v = "None"

abbrev checked : Checked
checked = record { resources = []; restarts = [] }

portless_unhealthy_example :
    check_container_health session 3
      (probe_of silence none_str (with_spec web_members web) (health_check_fields check))
      95
      none
      (with_spec web_members web)
      checked
    ≡ handle_unhealthy_container session 3 none
        (with_spec web_members web)
        (update_health_status session 3 95 3 false 0 checked)
unfolding ports_of lookup
portless_unhealthy_example =
    portless_unhealthy silence none_str session 3 95 none web check open_ports web_members checked
      refl (inl refl) refl refl refl refl
