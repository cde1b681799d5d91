-- ===== src/HealthChecker/Probes.antt =====
-- The checks of execution_engine/health_checker/checker.py over the network: `_check_http_health`,
-- `_check_tcp_health` and `_check_command_health`. The network is a parameter, and so is `str` of a
-- value.
use application_as_service.Prelude.{
  ℕ, zero, String, Bool, true, false, not, ◌&&◌, Option, none, some, ltb, leb, ◌==◌, str_eq,
  if◌then◌else◌,
}
use application_as_service.Prelude.Text.{append}
use application_as_service.Outcome.{Result, ok, err, ◌>>=◌, type_error, attribute_error}
use application_as_service.Value.{Value, Fields, lookup, truthy}
use application_as_service.Templates.Json.{member}
use application_as_service.HealthChecker.{Container}

-- What the network answers; none where the call raises an exception that the check handles.
pub record Network : Type 0 where
  -- `requests.get(url, timeout=...)`: the status code
  pub http_get : String → Value → Option ℕ
  -- `connect_ex(('localhost', port))` with the timeout: the error code
  pub connect : Value → Value → Option ℕ
  -- `requests.post(url, json={"command": command}, timeout=...)`: the status code and the body
  pub post_command : String → Value → Value → Option (ℕ × Value)

-- `value.get(key, {})`
abbrev pub get_object : String → Value → Result Value
get_object key (Value.object members) = ok (member key (Value.object Fields.no_fields) members)
get_object key _ = err attribute_error

-- `ports[key]` if `key in ports`. The mapping is taken to be a dictionary: the model raises TypeError
-- for another value.
abbrev pub port_at : String → Value → Result (Option Value)
port_at key (Value.object ports) = ok (lookup key ports)
port_at key _ = err type_error

-- The same with the port of the configuration as the key: the keys of the dictionary are texts.
abbrev pub port_of_value : Value → Value → Result (Option Value)
port_of_value (Value.text key) ports = port_at key ports
port_of_value (Value.array keys) ports = err type_error
port_of_value (Value.object keys) ports = err type_error
port_of_value key ports = ok none

-- `exit_code == 0`; False is equal to 0.
abbrev pub is_zero : Value → Bool
is_zero (Value.number zero) = true
is_zero (Value.boolean false) = true
is_zero (Value.fraction is_negative zero k) = true
is_zero _ = false

abbrev pub is_reachable : Option ℕ → Bool
is_reachable none = false
is_reachable (some code) = leb 200 code && ltb code 400

abbrev pub is_connected : Option ℕ → Bool
is_connected none = false
is_connected (some code) = code == 0

abbrev pub exited_with_zero : Value → Bool
exited_with_zero (Value.object members) = is_zero (member "exit_code" (Value.number 1) members)
exited_with_zero _ = false

abbrev pub has_succeeded : Option (ℕ × Value) → Bool
has_succeeded none = false
has_succeeded (some (status, body)) = status == 200 && exited_with_zero body

module _ (network : Network) (str : Value → String) where
  -- The mapping of ports that the deployment left in the specification of the container.
  unfoldable pub ports_of : Value → Result Value
  unfolding lookup
  ports_of spec = get_object "deployment_result" spec >>= get_object "ports"

  abbrev pub internal_port : Fields → Value
  internal_port check = member "port" (Value.number 80) check

  unfoldable pub port_key : Fields → String
  unfolding lookup append
  port_key check = append (str (internal_port check)) "/tcp"

  abbrev pub or_by_value : Fields → Value → Option Value → Result (Option Value)
  or_by_value check ports (some port) = ok (some port)
  or_by_value check ports none = port_of_value (internal_port check) ports

  abbrev pub http_on : Fields → Option Value → Bool
  http_on check none = false
  http_on check (some port) = is_reachable (
      network.http_get
        (append "http://localhost:"
          (append (str port) (str (member "path" (Value.text "/") check))))
        (member "timeout_seconds" (Value.number 5) check))

  unfoldable pub check_http_health : Container → Fields → Result Bool
  unfolding ports_of port_key lookup append
  check_http_health c check = ports_of c.spec >>= λ ports.
      port_at (port_key check) ports >>= λ found.
      or_by_value check ports found >>= λ port. ok (http_on check port)

  abbrev pub tcp_on : Fields → Option Value → Bool
  tcp_on check none = false
  tcp_on check (some port) =
      is_connected (network.connect port (member "timeout_seconds" (Value.number 5) check))

  unfoldable pub check_tcp_health : Container → Fields → Result Bool
  unfolding ports_of port_key lookup
  check_tcp_health c check =
      ports_of c.spec >>= λ ports. port_at (port_key check) ports >>= λ port. ok (tcp_on check port)

  unfoldable pub check_command_health : Container → Fields → Result Bool
  unfolding truthy lookup append
  check_command_health c check =
      let command = member "command" Value.null check in
      if not (truthy command)
      then ok false
      else ok (
          has_succeeded (
            network.post_command
              (append c.runtime_agent_url (append "/containers/" (append c.external_id "/exec")))
              command (member "timeout_seconds" (Value.number 5) check)))

  -- The check of a type, as `_check_container_health` chooses it.
  unfoldable pub probe_of : Container → Fields → String → Result Bool
  unfolding check_http_health check_tcp_health check_command_health
  probe_of c check kind =
      if str_eq kind "http"
      then check_http_health c check
      else if str_eq kind "tcp"
      then check_tcp_health c check
      else check_command_health c check
