-- ===== src/Transport/Server.antt =====
-- transport/server.py: the HTTP listener of an agent that is dialled.
pub mod Exchanges
use robotsix_agent_comm.Prelude.{String, ℕ, Option, none, some, if◌then◌else◌, str_eq}
use robotsix_agent_comm.Protocol.Value.{Value, str, obj, Fields, end, field}
use robotsix_agent_comm.Protocol.Errors.{ProtocolError, ok, err, fault}
use robotsix_agent_comm.Protocol.Messages.{Message}
use robotsix_agent_comm.Protocol.Serialization.{Payload, serialize, deserialize}
use robotsix_agent_comm.Transport.Endpoints.{health_path}
use robotsix_agent_comm.Transport.Client
use robotsix_agent_comm.Transport.Client.{Exchange, Body}

-- What the message handler does: it returns a reply or none, or raises.
pub data Heard : Type 0 where
  replies : Option Message → Heard
  raises : Heard

-- `_MessageHTTPServer`
pub record Listener : Type 0 where
  pub message_handler : Message → Heard
  pub message_path : String

-- What the client meets; an exception that leaves the request handler closes the connection with no
-- response.
pub data Served : Type 0 where
  answered : ℕ → Body → Served
  closed : Served

-- `_write_json` of an object
abbrev pub write_json : ℕ → Fields → Served
write_json status payload = answered status (Client.text (some (obj payload)))

abbrev not_found : Served
not_found = write_json 404 (field "error" (str "not found") end)

-- `do_GET`
unfoldable pub do_get : String → Served
do_get path =
    if str_eq path health_path then write_json 200 (field "status" (str "ok") end) else not_found

-- the response to what the handler did
unfoldable pub respond : Heard → Served
respond (replies none) = answered 204 Client.empty
respond (replies (some reply)) = answered 200 (Client.text (some (serialize reply)))
respond raises = closed

-- `do_POST`; `describe` is `str(exc)` of a protocol error
unfoldable pub do_post : (ProtocolError → String) → Listener → String → Payload → Served
unfolding respond
do_post describe l path body =
    if str_eq path l.message_path
    then elim (deserialize body) [
      | ok m ↦ respond (l.message_handler m)
      | err e ↦ write_json 400 (field "error" (str (describe e)) end)
      | fault f ↦ closed
    ]
    else not_found

unfoldable pub exchange_of : Served → Exchange
exchange_of (answered status body) = Client.response status body
exchange_of closed = Client.os_error
