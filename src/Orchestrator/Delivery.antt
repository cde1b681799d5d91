-- ===== src/Orchestrator/Delivery.antt =====
-- From the orchestrator to the agent: what the runtime executor makes of the specification that a
-- container step writes.
use application_as_service.Prelude.{
  ◌≡◌, ◌⊎◌, inl, inr, refl, String, Bool, true, false, str_eq, Bool-cases,
}
use application_as_service.Prelude.Text.{append}
use application_as_service.Value.{Value, truthy, lookup}
use application_as_service.Domain.{Deployment}
use application_as_service.Nodes.{InfrastructureNode}
use application_as_service.DomainService.Config.{Texts}
use application_as_service.Executor.Thread.{Deployed}
use application_as_service.RuntimeAgent.{answer, http_error, DeployResponse}
use application_as_service.RuntimeAgent.Client.{
  Sent, answered, timeout, connection_error, other, result_of, deploy_container, deployed_by,
  execute_deployment, trim_slashes,
}
use application_as_service.Orchestrator.Steps.{Fresh, step_execution}

module _ (is_healthy : String → Bool) (post : String → Value → Sent DeployResponse)
    (timeout_text : String) where
  -- What the result is for what comes of the request: the answer of the agent, or an exception with
  -- the text that says what went wrong.
  abbrev pub ResultFor : Value → String → Sent DeployResponse → Deployed → Type 0
  ResultFor node_id agent_url (answered (answer response)) r =
      r ≡ Deployed.done response.container_id (result_of node_id (Value.text agent_url) response)
  ResultFor node_id agent_url (answered (http_error status detail)) r =
      r ≡ Deployed.raised (append "Deployment failed: " (append "Deployment failed: " detail))
  ResultFor node_id agent_url timeout r =
      r ≡ Deployed.raised (append "Deployment timeout after " (append timeout_text "s"))
  ResultFor node_id agent_url connection_error r =
      r ≡ Deployed.raised (append "Cannot connect to runtime agent at " (trim_slashes agent_url))
  ResultFor node_id agent_url (other text) r =
      r ≡ Deployed.raised (append "Deployment failed: " text)

  -- A healthy agent is asked to deploy the specification; one that is not healthy is not asked.
  abbrev pub IsDelivered : Value → String → Value → Deployed → Type 0
  IsDelivered node_id agent_url container_spec r =
      ((is_healthy (trim_slashes agent_url) ≡ true)
        × ResultFor node_id agent_url (post (trim_slashes agent_url) container_spec) r)
      ⊎ ((is_healthy (trim_slashes agent_url) ≡ false)
          × (r ≡ Deployed.raised (append "Runtime agent at " (append agent_url " is not healthy"))))

  sent_outcome :
      (node_id : Value) (agent_url : String) (sent : Sent DeployResponse)
      → ResultFor node_id agent_url sent (
          deployed_by node_id
            (Value.text agent_url)
            (deploy_container (trim_slashes agent_url) timeout_text sent))
  unfolding deploy_container
  sent_outcome n a (answered (answer response)) = refl
  sent_outcome n a (answered (http_error status detail)) = refl
  sent_outcome n a timeout = refl
  sent_outcome n a connection_error = refl
  sent_outcome n a (other text) = refl

  -- For the specification that a container step writes, if the texts of the node's id and of its
  -- URL are not empty and the container specification is not empty, the runtime executor asks the
  -- agent at the URL of the node, if it is healthy, to deploy the specification. Its result is
  -- then the agent's answer, for the node and the URL, or an exception whose text is that of the
  -- HTTP error, the timeout, the lost connection or the other exception of the request; and an
  -- agent that is not healthy is an exception that says so.
  pub execute_deployment-step_execution :
      {F : Type 0} (texts : Texts) (fresh : Fresh) (d : Deployment) (node : InfrastructureNode F)
      (spec : Value)
      → str_eq (texts.uuid_text node.node_id) "" ≡ false
      → str_eq node.runtime_agent_url "" ≡ false
      → truthy spec ≡ true
      → IsDelivered (Value.text (texts.uuid_text node.node_id)) node.runtime_agent_url spec (
          execute_deployment is_healthy post timeout_text
            (step_execution texts fresh d node spec).spec)
  unfolding execute_deployment truthy lookup
  execute_deployment-step_execution texts fresh d node spec id address filled =
      let node_id = Value.text (texts.uuid_text node.node_id) in
      let base_url = trim_slashes node.runtime_agent_url in
      elim (Bool-cases (is_healthy base_url)) [
        | inl up ↦
            rw (id, filled, address, up)
              (inl (refl, sent_outcome node_id node.runtime_agent_url (post base_url spec)))
        | inr down ↦ rw (id, filled, address, down) (inr (refl, refl))
      ]
