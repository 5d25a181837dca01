-- ===== src/Broker/Http.antt =====
-- Requests, answers and what the handlers read of the world around them.
use robotsix_agent_comm.Prelude.{String, ℕ, Option, none, some}
use robotsix_agent_comm.Prelude.Int.{ℤ}
use robotsix_agent_comm.Prelude.Dict
use robotsix_agent_comm.Prelude.Dict.{Dict}
use robotsix_agent_comm.Protocol.Value.{Value, str, obj, Fields, end, field}
use robotsix_agent_comm.Protocol.Errors.{ProtocolError, Fault}
use robotsix_agent_comm.Protocol.Messages.{Stamp}
use robotsix_agent_comm.Protocol.Serialization.{Payload}
use robotsix_agent_comm.Transport.Router.{Transport}

pub data Method : Type 0 where
  get post delete : Method

-- `path` is `self.path` as it stands in the request line, `url_path` and `query` are what `urlsplit`
-- and `parse_qs` read from it (the first value of each key), `authorization` is the header or the
-- empty text, and `body` is the text of `content_length` bytes.
pub record Request : Type 0 where
  pub method : Method
  pub path : String
  pub url_path : String
  pub query : Dict String
  pub authorization : String
  pub content_length : ℕ
  pub body : Payload

-- What one request meets: a reading of each clock, the stamp of a message that the broker builds,
-- the network, and what the handlers take from Python as it is: `str(exc)` of a protocol error, an
-- f-string's text of a value, `len(json.dumps(body))`, and `float(text)` in ticks.
pub record World : Type 0 where
  pub now : ℕ
  pub wall : ℕ
  pub stamp : Stamp
  pub send : Transport
  pub describe : ProtocolError → String
  pub show : Value → String
  pub dumps_length : Fields → ℕ
  pub float_of : String → Option ℤ

pub data ReplyBody : Type 0 where
  empty : ReplyBody
  json : Value → ReplyBody
  dashboard_html : ReplyBody

-- `crash` is an exception that leaves the handler: the connection is closed with no response.
pub data Answer : Type 0 where
  response : ℕ → ReplyBody → Answer
  crash : Fault → Answer

abbrev pub error_response : ℕ → String → Answer
error_response status message = response status (json (obj (field "error" (str message) end)))

-- `query.get(key, [default])[0]`
unfoldable pub query_or : String → String → Request → String
query_or key default r = elim (Dict.lookup key r.query) [ none ↦ default | some v ↦ v ]
