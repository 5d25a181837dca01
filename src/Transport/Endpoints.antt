-- ===== src/Transport/Endpoints.antt =====
-- transport/endpoints.py and the exceptions of transport/errors.py.
use robotsix_agent_comm.Prelude.{String, ℕ, Bool, Option}
use robotsix_agent_comm.Prelude.Int.{ℤ}
use robotsix_agent_comm.Prelude.Text.{join}

abbrev pub default_message_path : String
default_message_path = "/messages"

abbrev pub health_path : String
health_path = "/health"

pub record Endpoint : Type 0 where
  pub agent_id : String
  pub host : String
  pub port : ℤ
  pub scheme : String
  pub path : String
  pub mailbox : Bool

-- the URLs of an endpoint, with the decimal text of its port
module _ (decimal : ℤ → String) where
  unfoldable pub base_url : Endpoint → String
  base_url e = join e.scheme (join "://" (join e.host (join ":" (decimal e.port))))

  unfoldable pub url : Endpoint → String
  unfolding base_url
  url e = join (base_url e) e.path

  unfoldable pub health_url : Endpoint → String
  unfolding base_url
  health_url e = join (base_url e) health_path

-- `TransportError`: `timed_out` is `TransportTimeoutError`, `agent_not_found` is
-- `AgentNotFoundError`, the others are raised as `TransportError` itself: a server that cannot be
-- reached, an HTTP status that is an error, a reply that is no message.
pub data TransportError : Type 0 where
  agent_not_found : TransportError
  timed_out : TransportError
  unreachable : TransportError
  http_status : ℕ → TransportError
  invalid_response : TransportError

-- `DeliveryError`, with the number of attempts in its message and its `cause`
pub record DeliveryError : Type 0 where
  pub attempts : ℕ
  pub cause : Option TransportError

abbrev pub delivery_failed : String
delivery_failed = "delivery_failed"

abbrev pub unknown_recipient : String
unknown_recipient = "unknown_recipient"
