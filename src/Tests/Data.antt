-- ===== src/Tests/Data.antt =====
-- The agents, the messages and the broker that the examples share.
use robotsix_agent_comm.Prelude.{String, none, some, [], ◌∷◌, true, refl}
use robotsix_agent_comm.Prelude.Int.{pos}
use robotsix_agent_comm.Prelude.Dict
use robotsix_agent_comm.Prelude.Dict.{Dict}
use robotsix_agent_comm.Protocol.Value.{Value, str, obj, Fields, end, field}
use robotsix_agent_comm.Protocol.Messages.{Message, notification}
use robotsix_agent_comm.Transport.Endpoints.{Endpoint, timed_out}
use robotsix_agent_comm.Transport.Retry.{RetryPolicy, raised}
use robotsix_agent_comm.Broker.State.{Server}
use robotsix_agent_comm.Broker.Http.{Request, World, get}

abbrev pub note : Message
note = record {
  kind = notification;
  metadata = record { sender = str "ann"; recipient = str "bob"; timestamp = "t0"; extra = end };
  message_id = "m1";
  version = "1.0";
  body = field "text" (str "hello") end;
  correlation_id = none;
}

-- the envelope of a notification whose `extra` is what is given
abbrev pub envelope_with : Value → Fields
envelope_with extra = field "message_id" (str "m1") (
    field "type" (str "notification") (
      field "protocol_version" (str "1.7") (
        field "metadata"
          (obj
            (field "sender" (str "ann") (field "timestamp" (str "t0") (field "extra" extra end))))
          (field "body" (obj end) end))))

abbrev pub policy : RetryPolicy
policy = record { max_attempts = 3; base_delay = 10; max_delay = 15; backoff_factor = 2 }

abbrev pub world : World
world = record {
  now = 100_000_000;
  wall = 5;
  stamp = record { now = "t1"; fresh_id = "m2" };
  send = λ m e n. raised timed_out;
  describe = λ e. "bad envelope";
  show = λ v. "value";
  dumps_length = λ d. 2;
  float_of = λ t. some (pos 7);
}

abbrev pub tokens : Dict String
tokens = ("ann", "secret-a") ∷ ("bob", "secret-b") ∷ []

pub tokens-IsDict : Dict.IsDict tokens
unfolding Dict.lookup
tokens-IsDict = (refl, (refl, tt))

abbrev pub bob : Endpoint
bob = record {
  agent_id = "bob";
  host = "mailbox";
  port = pos 0;
  scheme = "http";
  path = "/messages";
  mailbox = true;
}

-- a broker with authentication, on which the pull agent `bob` is registered since tick 0
abbrev pub broker : Server
broker = record {
  registry = record { endpoints = ("bob", bob) ∷ [] };
  capabilities = ("bob", end) ∷ [];
  last_heartbeat = ("bob", 0) ∷ [];
  ttl_seconds = ("bob", pos 30) ∷ [];
  default_ttl_seconds = pos 30;
  agent_tokens = some tokens;
  token_to_agent = ("secret-a", "ann") ∷ ("secret-b", "bob") ∷ [];
  max_body_size = 1000;
  rate_limit_per_second = 0;
  rate_buckets = [];
  audit = [];
  mailboxes = ("bob", []) ∷ [];
  traffic_buffer = [];
  traffic_maxlen = 10;
  mailbox_grace_seconds = pos 20_000_000;
  dashboard_enabled = true;
  retry_policy = policy;
}

-- a request for a path that has no query, with an `Authorization` header
abbrev pub asks : String → String → Request
asks path authorization = record {
  method = get;
  path = path;
  url_path = path;
  query = [];
  authorization = authorization;
  content_length = 0;
  body = none;
}
