-- ===== src/RuntimeAgent/Client.antt =====
-- The way from an execution to the agent: `deploy_container` of runtime_agent/client.py, and
-- `execute_deployment` of execution_engine/executor/runtime_executor.py. What the HTTP client and the
-- agent's parsing of the request do is a parameter: `is_healthy` is the answer of `health_check` and
-- `post` what the request to deploy comes to. An exception is its text.
use Prim.Native.Char.{code}
use Prim.Native.String.{[] as empty, ◌∷◌ as ◌::◌}
use application_as_service.Prelude.{
  ◌==◌, ◌&&◌, leb, ltb, str_eq, true, false, ℕ, String, Bool, not, List, [], ◌∷◌, if◌then◌else◌,
}
use application_as_service.Prelude.Text.{append}
use application_as_service.Value.{Value, Fields, lookup, truthy}
use application_as_service.Templates.Json.{◌⊳◌, member, of_text}
use application_as_service.Executor.Thread.{Deployed}
use application_as_service.RuntimeAgent.{Answer, answer, http_error, DeployResponse}

-- What comes of the request: an answer, or an exception of the HTTP client.
pub data Sent (A : Type 0) : Type 0 where
  answered : Answer A → Sent A
  timeout connection_error : Sent A
  other : String → Sent A

-- The result of the client, or the text of the RuntimeError that it raises. The RuntimeError for an
-- answer with another status is raised inside the `try`, whose last handler catches it.
pub data Delivered : Type 0 where
  delivered : DeployResponse → Delivered
  runtime_error : String → Delivered

abbrev pub wrapped : String → String
wrapped text = append "Deployment failed: " text

-- `base_url` and the text of the timeout stand in the messages.
unfoldable pub deploy_container : String → String → Sent DeployResponse → Delivered
unfolding append
deploy_container base_url timeout_text (answered (answer response)) = delivered response
deploy_container base_url timeout_text (answered (http_error status detail)) =
    runtime_error (wrapped (wrapped detail))
deploy_container base_url timeout_text timeout =
    runtime_error (append "Deployment timeout after " (append timeout_text "s"))
deploy_container base_url timeout_text connection_error =
    runtime_error (append "Cannot connect to runtime agent at " base_url)
deploy_container base_url timeout_text (other text) = runtime_error (wrapped text)

-- `response.status_code == 200`, where an exception is False.
unfoldable pub health_check : {A : Type 0} → Sent A → Bool
health_check (answered (answer body)) = true
health_check (answered (http_error status detail)) = status == 200
health_check _ = false

-- `raise_for_status` raises for the statuses from 400 to 599, and an exception is False.
abbrev pub is_accepted : {A : Type 0} → Sent A → Bool
is_accepted (answered (answer body)) = true
is_accepted (answered (http_error status detail)) = not (leb 400 status && ltb status 600)
is_accepted _ = false

unfoldable pub stop_container : {A : Type 0} → Sent A → Bool
stop_container sent = is_accepted sent

unfoldable pub remove_container : {A : Type 0} → Sent A → Bool
remove_container sent = is_accepted sent

abbrev pub port_fields : List (String × ℕ) → Fields
port_fields [] = Fields.no_fields
port_fields ((key, port) ∷ ports) = (key, Value.number port) ⊳ port_fields ports

-- The dictionary that `execute_deployment` returns.
abbrev pub result_of : Value → Value → DeployResponse → Value
result_of node_id agent_url response = Value.object (
    ("container_id", Value.text response.container_id)
    ⊳ ("container_name", Value.text response.container_name)
    ⊳ ("status", Value.text response.status)
    ⊳ ("internal_ip", of_text response.internal_ip)
    ⊳ ("ports", Value.object (port_fields response.ports))
    ⊳ ("node_id", node_id)
    ⊳ ("agent_url", agent_url)
    ⊳ Fields.no_fields)

abbrev pub deployed_by : Value → Value → Delivered → Deployed
deployed_by node_id agent_url (delivered response) =
    Deployed.done response.container_id (result_of node_id agent_url response)
deployed_by node_id agent_url (runtime_error text) = Deployed.raised text

-- `url.rstrip('/')`
unfoldable pub trim_slashes : String → String
trim_slashes empty = empty
trim_slashes (c :: s) =
    let rest = trim_slashes s in if code c == b'/' && str_eq rest "" then empty else c :: rest

-- `is_healthy` and `post` are for the client with the URL.
module _ (is_healthy : String → Bool) (post : String → Value → Sent DeployResponse)
    (timeout_text : String) where
  abbrev pub deploy_at : Value → String → String → Value → Deployed
  deploy_at node_id agent_url base_url container_spec =
      if not (is_healthy base_url)
      then Deployed.raised (append "Runtime agent at " (append agent_url " is not healthy"))
      else deployed_by node_id (Value.text agent_url)
          (deploy_container base_url timeout_text (post base_url container_spec))

  -- A client is made of a URL; another value has no method `rstrip`. The name of its class is left
  -- out of the message, here and below.
  abbrev pub deploy_with : Value → Value → Value → Deployed
  deploy_with node_id (Value.text agent_url) container_spec =
      deploy_at node_id agent_url (trim_slashes agent_url) container_spec
  deploy_with node_id _ container_spec = Deployed.raised "object has no attribute 'rstrip'"

  abbrev pub deploy_members : Fields → Deployed
  deploy_members members =
      let node_id = member "node_id" Value.null members in
      let container_spec = member "container_spec" Value.null members in
      let agent_url = member "agent_url" Value.null members in
      if not (truthy node_id)
      then Deployed.raised "node_id required in spec"
      else if not (truthy container_spec)
      then Deployed.raised "container_spec required in spec"
      else if not (truthy agent_url)
      then Deployed.raised "agent_url required in spec"
      else deploy_with node_id agent_url container_spec

  -- A specification is a dictionary; `.get` of another value raises AttributeError.
  unfoldable pub execute_deployment : Value → Deployed
  unfolding deploy_container trim_slashes truthy lookup
  execute_deployment (Value.object members) = deploy_members members
  execute_deployment _ = Deployed.raised "object has no attribute 'get'"
