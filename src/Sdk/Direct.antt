-- ===== src/Sdk/Direct.antt =====
-- sdk/agent.py without `pull`: an agent that listens at an address of its own, is registered with it
-- in the shared registry, and is dialled by the others.
pub mod Exchanged
use robotsix_agent_comm.Prelude.{
  String, ℕ, Bool, false, Option, none, some, or_else, if◌then◌else◌, str_eq,
}
use robotsix_agent_comm.Prelude.Int.{ℤ}
use robotsix_agent_comm.Protocol.Value.{str, Fields, end}
use robotsix_agent_comm.Protocol.Errors.{ProtocolError, Fault}
use robotsix_agent_comm.Protocol.Messages.{
  Message, MessageType, request, notification, Metadata, Stamp, create_metadata, protocol_version,
}
use robotsix_agent_comm.Protocol.Serialization.{serialize}
use robotsix_agent_comm.Transport.Endpoints.{Endpoint, DeliveryError, default_message_path}
use robotsix_agent_comm.Transport.Registry
use robotsix_agent_comm.Transport.Registry.{Registry}
use robotsix_agent_comm.Transport.Client.{Exchange, os_error, client_send}
use robotsix_agent_comm.Transport.Router.{Transport, Routed}
use robotsix_agent_comm.Transport.Router
use robotsix_agent_comm.Transport.Server.{Heard, replies, raises, Listener, do_post, exchange_of}
use robotsix_agent_comm.Sdk.Agent.{Agent, Handled, replied, raised, handle}

-- `server` is the address to which `_server` is bound, `none` where there is no server.
pub record Peer : Type 0 where
  pub agent : Agent
  pub server : Option (String × ℤ)

abbrev pub direct_endpoint : String → String → ℤ → Endpoint
direct_endpoint agent_id host port = record {
  agent_id = agent_id;
  host = host;
  port = port;
  scheme = "http";
  path = default_message_path;
  mailbox = false;
}

-- `start`, with the address that the socket of the new server is bound to
unfoldable pub start : String → ℤ → Peer × Registry → Peer × Registry
start host port (p, r) = elim p.server [
  | some address ↦ (p, r)
  | none ↦ (
    record p { server = some (host, port) },
    Registry.register (direct_endpoint p.agent.agent_id host port) r,
  )
]

-- `stop`
unfoldable pub stop : Peer × Registry → Peer × Registry
stop (p, r) = elim p.server [
  | none ↦ (p, r)
  | some address ↦ (record p { server = none }, Registry.unregister_quietly p.agent.agent_id r)
]

-- what the request handler of the listener sees of `_handle`
unfoldable pub heard_of : Handled → Heard
heard_of (replied reply) = replies reply
heard_of raised = raises

module _ (repr : String → String) (t : Stamp) (describe : ProtocolError → String) where
  -- `TransportServer(self._handle, ...)`
  unfoldable pub listener_of : Agent → Listener
  unfolding heard_of
  listener_of a = record {
    message_handler = λ m. heard_of (handle repr t a m);
    message_path = default_message_path;
  }

  -- One request to an address; `listening` tells which agent listens there. A listener speaks no TLS.
  unfoldable pub dial : (String → ℤ → Option Agent) → Endpoint → Message → Exchange
  unfolding listener_of
  dial listening e m =
      if str_eq e.scheme "https" then os_error else elim (listening e.host e.port) [
        | none ↦ os_error
        | some a ↦ exchange_of (do_post describe (listener_of a) e.path (some (serialize m)))
      ]

  -- `TransportClient` between the agents
  unfoldable pub transport : (String → ℤ → Option Agent) → Transport
  unfolding dial
  transport listening m e attempt = client_send (dial listening e m)

-- `_build_metadata_and_body` and the constructor of the kind
unfoldable pub build_message :
    Stamp → MessageType → String → String → Option Fields → Fields → Message
unfolding create_metadata
build_message t kind agent_id recipient body extra = record {
  kind = kind;
  metadata = create_metadata t (str agent_id) (str recipient) extra;
  message_id = t.fresh_id;
  version = protocol_version;
  body = or_else body end;
  correlation_id = none;
}

-- What `send_notification` returns or raises.
pub data Notified : Type 0 where
  sent : Notified
  agent_not_found : Notified
  delivery_error : DeliveryError → Notified
  crash : Fault → Notified

-- `send_notification`, by what the router does
unfoldable pub send_notification : Routed → Notified
send_notification (Router.reply m) = sent
send_notification Router.agent_not_found = agent_not_found
send_notification (Router.delivery_error e) = delivery_error e
send_notification (Router.crash f) = crash f
