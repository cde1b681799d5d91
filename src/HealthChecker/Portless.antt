-- ===== src/HealthChecker/Portless.antt =====
-- The checks of a container whose health check has no port.
use application_as_service.Prelude.{ℕ, ◌≡◌, ◌⊎◌, inl, inr, refl, String, Option, false, none, some}
use application_as_service.Outcome.{ok}
use application_as_service.Value.{Value, Fields, lookup, truthy}
use application_as_service.HealthChecker.{
  Container, Checked, check_container_health, run_check, update_health_status,
  handle_unhealthy_container, after_check,
}
use application_as_service.Templates.{HealthCheckDefinition}
use application_as_service.Templates.Json.{health_check_fields}
use application_as_service.HealthChecker.Probes.{
  Network, ports_of, check_http_health, check_tcp_health, port_key, probe_of,
}

-- The container with this specification.
abbrev pub with_spec : Fields → Container → Container
with_spec members c = record c { spec = Value.object members }

module _ (network : Network) (str : Value → String) where
  no_port :
      (c : Container) (definition : HealthCheckDefinition) (ports : Fields)
      → definition.port ≡ none
      → str Value.null ≡ "None"
      → ports_of network str c.spec ≡ ok (Value.object ports)
      → lookup "None/tcp" ports ≡ none
      → (check_http_health network str c (health_check_fields definition) ≡ ok false)
        × (check_tcp_health network str c (health_check_fields definition) ≡ ok false)
  unfolding check_http_health check_tcp_health port_key lookup
  no_port c definition ports portless text mapped missing =
      (rw (mapped, portless, text, missing) refl, rw (mapped, portless, text, missing) refl)

  module _ (local : ℕ → ℕ) (failure_threshold : ℕ) where
    run_check-probe_of :
        (c : Container) (check : Fields) (kind : String)
        → (kind ≡ "http") ⊎ (kind ≡ "tcp")
        → check_http_health network str c check ≡ ok false
        → check_tcp_health network str c check ≡ ok false
        → run_check local failure_threshold (probe_of network str c check) (Value.text kind)
          ≡ ok false
    unfolding run_check probe_of
    run_check-probe_of c check kind (inl same) http tcp = rw (same, http) refl
    run_check-probe_of c check kind (inr same) http tcp = rw (same, tcp) refl

    -- For a health check of type http or tcp that a template defines without a port, the check of
    -- a container with it in its specification counts as failed, and is followed by what follows
    -- a failure, whatever the network answers, if the ports of the deployment are a dictionary
    -- without a key None/tcp and str of None is None.
    pub portless_unhealthy :
        (now : ℕ) (reply : Option ℕ) (c : Container) (definition : HealthCheckDefinition)
        (ports members : Fields) (s : Checked)
        → lookup "health_check" members ≡ some (Value.object (health_check_fields definition))
        → (definition.type ≡ "http") ⊎ (definition.type ≡ "tcp")
        → definition.port ≡ none
        → str Value.null ≡ "None"
        → ports_of network str (Value.object members) ≡ ok (Value.object ports)
        → lookup "None/tcp" ports ≡ none
        → check_container_health local failure_threshold
            (probe_of network str (with_spec members c) (health_check_fields definition))
            now
            reply
            (with_spec members c)
            s
          ≡ handle_unhealthy_container local failure_threshold reply (with_spec members c) (
              update_health_status local failure_threshold now c.resource_id false
                c.consecutive_failures s)
    unfolding check_container_health after_check truthy lookup
    portless_unhealthy now reply c definition ports members s configured kind portless text mapped
          missing =
        let failed = no_port (with_spec members c) definition ports portless text mapped missing in
        let outcome =
          run_check-probe_of (with_spec members c) (health_check_fields definition) definition.type
            kind failed.0 failed.1 in
        rw (configured, outcome) refl
