-- ===== src/Sdk/Lifetime.antt =====
-- sdk/agent.py, sdk/brokered.py and transport/brokered.py: `start` and `stop` of a pull agent, with
-- the calls that they make at the broker.
pub mod Discovered
pub mod Sessions
use robotsix_agent_comm.Prelude.{String, Option, true, if◌then◌else◌, List}
use robotsix_agent_comm.Prelude.Int.{pos}
use robotsix_agent_comm.Protocol.Value.{Fields}
use robotsix_agent_comm.Transport.Endpoints.{Endpoint, default_message_path}
use robotsix_agent_comm.Broker.State.{Server}
use robotsix_agent_comm.Broker.Http.{World}
use robotsix_agent_comm.Broker.Poll.{Wake, server_of}
use robotsix_agent_comm.Broker.Dispatch.{handle_request}
use robotsix_agent_comm.Brokered.Wire.{Wire, register_request, unregister_request}
use robotsix_agent_comm.Sdk.Agent.{Agent}
use robotsix_agent_comm.Sdk.Agent

-- `Endpoint(agent_id=self.agent_id, host="mailbox", port=0, mailbox=True)`
abbrev pub pull_endpoint : String → Endpoint
pull_endpoint agent_id = record {
  agent_id = agent_id;
  host = "mailbox";
  port = pos 0;
  scheme = "http";
  path = default_message_path;
  mailbox = true;
}

-- A broker that answers, the token of the client, and the waits that a poll would have.
module _ (w : World) (wire : Wire) (token : Option String) (wakes : List Wake) where
  -- `start`, with the registration at the broker, whose answer `register` does not look at
  unfoldable pub start : Fields → Agent × Server → Agent × Server
  start capabilities (a, s) = if a.is_started then (a, s) else (
    Agent.start a,
    server_of (
        handle_request w (register_request wire token (pull_endpoint a.agent_id) capabilities) wakes
          s),
  )

  -- `stop`, with the deregistration at the broker
  unfoldable pub stop : Agent × Server → Agent × Server
  stop (a, s) =
      if a.is_started
      then (
        Agent.stop a,
        server_of (handle_request w (unregister_request wire token a.agent_id) wakes s),
      )
      else (a, s)
