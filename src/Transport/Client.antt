-- ===== src/Transport/Client.antt =====
-- transport/client.py over _http.py: what `TransportClient.send` makes of one HTTP exchange.
use robotsix_agent_comm.Prelude.{ℕ, Bool, false, Option, none, some, leb, ◌==◌, if◌then◌else◌}
use robotsix_agent_comm.Protocol.Errors.{ok, err, fault, Fault}
use robotsix_agent_comm.Protocol.Messages.{Message}
use robotsix_agent_comm.Protocol.Serialization.{Payload, deserialize}
use robotsix_agent_comm.Transport.Endpoints.{timed_out, unreachable, http_status, invalid_response}
use robotsix_agent_comm.Transport.Retry.{Outcome, returned, raised, escaped}

-- The body of an HTTP response: empty, or a text.
pub data Body : Type 0 where
  empty : Body
  text : Payload → Body

-- What the network does with one request of `http.client`: a response, a `TimeoutError`, another
-- `OSError`, or an exception that is neither.
pub data Exchange : Type 0 where
  response : ℕ → Body → Exchange
  timeout : Exchange
  os_error : Exchange
  other_error : Fault → Exchange

-- the `deserialize` in a `try` that catches `ProtocolError` alone
unfoldable pub read_reply : Payload → Outcome (Option Message)
read_reply p = elim (deserialize p) [
  | ok m ↦ returned (some m)
  | err e ↦ raised invalid_response
  | fault f ↦ escaped f
]

unfoldable pub read_body : Body → Outcome (Option Message)
unfolding read_reply
read_body empty = returned none
read_body (text p) = read_reply p

-- `TransportClient.send`, after `_do_post`
unfoldable pub client_send : Exchange → Outcome (Option Message)
unfolding read_body
client_send timeout = raised timed_out
client_send os_error = raised unreachable
client_send (other_error f) = escaped f
client_send (response status body) =
    if leb 400 status
    then raised (http_status status)
    else if status == 204
    then returned none
    else read_body body

-- `health_check`, after the connection is chosen: `_check_health`, which catches an `OSError`
unfoldable pub health_check : Exchange → Outcome Bool
health_check timeout = returned false
health_check os_error = returned false
health_check (other_error f) = escaped f
health_check (response status body) = returned (status == 200)
