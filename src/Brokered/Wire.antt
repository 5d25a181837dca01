-- ===== src/Brokered/Wire.antt =====
-- transport/brokered.py: the requests that `NetworkedBrokerTransport` and `BrokeredRegistry` make, as
-- the broker reads them, with a token and an id that `http.client` takes as a header and as a path.
pub mod Shown
pub mod Enrolled
pub mod Visible
use robotsix_agent_comm.Prelude.{String, ℕ, Option, none, some}
use robotsix_agent_comm.Prelude.Dict.{Dict}
use robotsix_agent_comm.Prelude.Text.{join}
use robotsix_agent_comm.Protocol.Value.{Fields, obj}
use robotsix_agent_comm.Protocol.Messages.{Message}
use robotsix_agent_comm.Protocol.Serialization.{Payload, serialize}
use robotsix_agent_comm.Transport.Endpoints.{Endpoint, default_message_path, health_path}
use robotsix_agent_comm.Broker.Http.{Method, get, post, delete, Request}
use robotsix_agent_comm.Brokered.Directory.{registration_body}

-- What lies between: the path and the query that `urlsplit` and `parse_qs` find in a request's path,
-- the length of a body in bytes, and `urlencode` of an agent's id and a wait.
pub record Wire : Type 0 where
  pub split : String → String × Dict String
  pub length_of : Payload → ℕ
  pub poll_query : String → String → String

-- `_auth_headers`; the empty text where there is no header
unfoldable pub auth_header : Option String → String
auth_header none = ""
auth_header (some token) = join "Bearer " token

module _ (w : Wire) (token : Option String) where
  -- a request of `http.client`, with the token of the client
  unfoldable pub request_of : Method → String → Payload → Request
  unfolding auth_header
  request_of method path body = record {
    method = method;
    path = path;
    url_path = (w.split path).0;
    query = (w.split path).1;
    authorization = auth_header token;
    content_length = w.length_of body;
    body = body;
  }

  -- `NetworkedBrokerTransport.send`
  unfoldable pub message_request : Message → Request
  unfolding request_of
  message_request m = request_of post default_message_path (some (serialize m))

  -- `NetworkedBrokerTransport.receive`
  unfoldable pub poll_request : String → String → Request
  unfolding request_of
  poll_request agent_id wait =
      request_of get (join default_message_path (join "?" (w.poll_query agent_id wait))) none

  -- `NetworkedBrokerTransport.health_check`
  unfoldable pub health_request : Request
  unfolding request_of
  health_request = request_of get health_path none

  -- `BrokeredRegistry.register`
  unfoldable pub register_request : Endpoint → Fields → Request
  unfolding request_of
  register_request e capabilities =
      request_of post "/agents" (some (obj (registration_body e capabilities)))

  -- `BrokeredRegistry.unregister`
  unfoldable pub unregister_request : String → Request
  unfolding request_of
  unregister_request agent_id = request_of delete (join "/agents/" agent_id) none

  -- `BrokeredRegistry.lookup`, `list_agents` and `discover_agents`
  unfoldable pub listing_request : Request
  unfolding request_of
  listing_request = request_of get "/agents" none
