-- ===== src/Transport/Router.antt =====
-- transport/router.py: recipient lookup, then delivery with retries.
use robotsix_agent_comm.Prelude.{ℕ, Option, if◌then◌else◌}
use robotsix_agent_comm.Protocol.Value.{truthy}
use robotsix_agent_comm.Protocol.Errors.{Fault, type_error}
use robotsix_agent_comm.Protocol.Messages.{Message}
use robotsix_agent_comm.Transport.Endpoints.{Endpoint, DeliveryError}
use robotsix_agent_comm.Transport.Registry.{Registry, found, not_found, not_hashable, lookup_value}
use robotsix_agent_comm.Transport.Retry.{
  RetryPolicy, Outcome, Delivery, delivered, failed, crashed, retry_call,
}

-- The transport that a router sends through: what its `send` does with a message to an endpoint,
-- at each of its attempts.
abbrev pub Transport : Type 0
Transport = Message → Endpoint → ℕ → Outcome (Option Message)

pub data Routed : Type 0 where
  agent_not_found : Routed
  reply : Option Message → Routed
  delivery_error : DeliveryError → Routed
  crash : Fault → Routed

unfoldable pub routed : Delivery (Option Message) → Routed
routed (delivered m) = reply m
routed (failed e) = delivery_error e
routed (crashed f) = crash f

-- `Router.route`
unfoldable pub route : Registry → Transport → RetryPolicy → Message → Routed
unfolding routed
route registry send policy message =
    if truthy message.metadata.recipient
    then elim (lookup_value message.metadata.recipient registry) [
      | not_found ↦ agent_not_found
      | not_hashable ↦ crash type_error
      | found endpoint ↦ routed (retry_call (send message endpoint) policy).result
    ]
    else agent_not_found
