-- ===== src/Brokered.antt =====
-- transport/brokered.py: what `NetworkedBrokerTransport` makes of the broker's answers.
pub mod Outcomes
pub mod Directory
pub mod Delivery
pub mod Wire
use robotsix_agent_comm.Prelude.{
  ℕ, Option, none, some, ◌==◌, ◌||◌, if◌then◌else◌, String, List, [], ◌∷◌, str_eq,
}
use robotsix_agent_comm.Protocol.Value.{Value, str, arr, obj, Items, nil, cons, Fields, end, at_or}
use robotsix_agent_comm.Protocol.Errors.{
  ProtocolError, Fault, type_error, not_followed, ok, err, fault,
}
use robotsix_agent_comm.Protocol.Messages.{Message}
use robotsix_agent_comm.Protocol.Serialization.{Payload, deserialize}
use robotsix_agent_comm.Transport.Endpoints.{
  TransportError, agent_not_found, timed_out, unreachable, http_status, invalid_response,
  delivery_failed, unknown_recipient,
}
use robotsix_agent_comm.Transport.Client.{Exchange, Body}
use robotsix_agent_comm.Transport.Client
use robotsix_agent_comm.Broker.Http.{Answer, ReplyBody, crash, empty, json, dashboard_html}
use robotsix_agent_comm.Broker.Http
use robotsix_agent_comm.Broker.Send.{is_text}

-- `send` returns a reply or nothing, or raises: a `TransportError` or subclass, a `DeliveryError` with
-- the text of the envelope, a `ProtocolError`, or an exception that it does not expect.
pub data Sent : Type 0 where
  returned : Option Message → Sent
  raised : TransportError → Sent
  undelivered : Value → Sent
  not_understood : ProtocolError → Sent
  escaped : Fault → Sent

-- the error that an envelope with an error code stands for
unfoldable pub error_of : ℕ → Fields → Sent
error_of status body =
    if is_text (at_or "code" (str "") body) unknown_recipient
    then raised agent_not_found
    else if is_text (at_or "code" (str "") body) delivery_failed
    then undelivered (at_or "message" (str "delivery failed") body)
    else raised (http_status status)

-- the branch for 4xx and 5xx: its `except Exception` takes what is no `ProtocolError`
unfoldable pub read_error : ℕ → Payload → Sent
unfolding error_of
read_error status p = elim (deserialize p) [
  | ok m ↦ error_of status m.body
  | err e ↦ not_understood e
  | fault f ↦ raised (http_status status)
]

-- the branch for 200
unfoldable pub read_ok : Payload → Sent
read_ok p = elim (deserialize p) [
  | ok m ↦ returned (some m)
  | err e ↦ raised invalid_response
  | fault f ↦ escaped f
]

abbrev payload_of : Body → Payload
payload_of Client.empty = none
payload_of (Client.text p) = p

unfoldable pub read_other : ℕ → Body → Sent
unfolding read_error
read_other status Client.empty = returned none
read_other status (Client.text p) = read_error status p

-- `NetworkedBrokerTransport.send`, after `_do_post`
unfoldable pub broker_send : Exchange → Sent
unfolding read_ok read_other
broker_send Client.timeout = raised timed_out
broker_send Client.os_error = raised unreachable
broker_send (Client.other_error f) = escaped f
broker_send (Client.response status body) =
    if status == 200
    then read_ok (payload_of body)
    else if status == 202 || status == 204
    then returned none
    else read_other status body

-- What an answer of the broker is on the wire; a handler that crashes closes the connection.
unfoldable pub exchange_of : Answer → Exchange
exchange_of (crash f) = Client.os_error
exchange_of (Http.response status empty) = Client.response status Client.empty
exchange_of (Http.response status (json v)) = Client.response status (Client.text (some v))
exchange_of (Http.response status dashboard_html) = Client.response status (Client.text none)

-- What `receive` returns or raises.
pub data Received : Type 0 where
  messages : List Message → Received
  failed : TransportError → Received
  crashed : Fault → Received

abbrev pub prepend : Message → Received → Received
prepend m (messages ms) = messages (m ∷ ms)
prepend m (failed e) = failed e
prepend m (crashed f) = crashed f

-- the loop over the texts of the answer
unfoldable pub read_messages : Items → Received
read_messages nil = messages []
read_messages (cons v vs) =
    let rest = read_messages vs in
    elim (deserialize (some v)) [
      | ok m ↦ prepend m rest
      | err e ↦ failed invalid_response
      | fault f ↦ crashed f
    ]

-- what `for raw in raw_messages` runs over; the keys of an object are not followed
unfoldable pub read_list : Value → Received
unfolding read_messages
read_list (arr xs) = read_messages xs
read_list (str s) = if str_eq s "" then messages [] else failed invalid_response
read_list (obj end) = messages []
read_list (obj d) = crashed not_followed
read_list v = crashed type_error

unfoldable pub read_poll : Body → Received
unfolding read_list
read_poll Client.empty = messages []
read_poll (Client.text none) = failed invalid_response
read_poll (Client.text (some (obj d))) = read_list (at_or "messages" (arr nil) d)
read_poll (Client.text (some v)) = messages []

-- `NetworkedBrokerTransport.receive`
unfoldable pub receive : Exchange → Received
unfolding read_poll
receive Client.timeout = failed timed_out
receive Client.os_error = failed unreachable
receive (Client.other_error f) = crashed f
receive (Client.response status body) =
    if status == 200 then read_poll body else failed (http_status status)
