-- ===== src/Broker/State.antt =====
-- The state of broker/server.py: `_BrokerHTTPServer`, with the audit log of broker/_audit.py as the
-- list of its records, newest last.
use robotsix_agent_comm.Prelude.{String, ℕ, Bool, Option, none, some, List, [], ◌∷◌, ◌++◌, last_n}
use robotsix_agent_comm.Prelude.Int.{ℤ}
use robotsix_agent_comm.Prelude.Dict
use robotsix_agent_comm.Prelude.Dict.{Dict}
use robotsix_agent_comm.Protocol.Value.{Value, Fields}
use robotsix_agent_comm.Protocol.Messages.{MessageType}
use robotsix_agent_comm.Transport.Registry
use robotsix_agent_comm.Transport.Registry.{Registry}
use robotsix_agent_comm.Transport.Retry.{RetryPolicy}
use robotsix_agent_comm.Broker.RateLimit.{TokenBucket}

pub record AuditRecord : Type 0 where
  pub timestamp : ℕ
  pub action : String
  pub agent_id : String
  pub path : String
  pub status : ℕ
  pub detail : String

-- `TrafficDisposition` of protocol/_types.py
pub data Disposition : Type 0 where
  queued rejected routed unknown_recipient : Disposition

pub record TrafficRecord : Type 0 where
  pub timestamp : ℕ
  pub source : Value
  pub destination : Value
  pub kind : MessageType
  pub topic : Value
  pub message_id : String
  pub correlation_id : Option String
  pub body_size_bytes : ℕ
  pub disposition : Disposition
  pub status : ℕ

-- Times are readings of the monotonic clock in ticks. A mailbox holds the serialized messages,
-- oldest first; `traffic_maxlen` is the `maxlen` of the buffer. A negative size or rate limit has
-- the effect of 0.
pub record Server : Type 0 where
  pub registry : Registry
  pub capabilities : Dict Fields
  pub last_heartbeat : Dict ℕ
  pub ttl_seconds : Dict ℤ
  pub default_ttl_seconds : ℤ
  pub agent_tokens : Option (Dict String)
  pub token_to_agent : Dict String
  pub max_body_size : ℕ
  pub rate_limit_per_second : ℕ
  pub rate_buckets : Dict TokenBucket
  pub audit : List AuditRecord
  pub mailboxes : Dict (List Value)
  pub traffic_buffer : List TrafficRecord
  pub traffic_maxlen : ℕ
  pub mailbox_grace_seconds : ℤ
  pub dashboard_enabled : Bool
  pub retry_policy : RetryPolicy

-- The parameters of `BrokerServer.__init__` that the handlers read.
pub record Options : Type 0 where
  pub ttl_seconds : ℤ
  pub agent_tokens : Option (Dict String)
  pub max_body_size : ℕ
  pub rate_limit_per_second : ℕ
  pub traffic_buffer_size : ℕ
  pub mailbox_grace_seconds : ℤ
  pub dashboard_enabled : Bool
  pub router_retry_policy : Option RetryPolicy

-- `for agent_id, token in agent_tokens.items(): _token_to_agent[token] = agent_id`
unfoldable pub invert_tokens : Dict String → Dict String → Dict String
invert_tokens [] inverse = inverse
invert_tokens ((agent_id, token) ∷ d) inverse = invert_tokens d (Dict.insert token agent_id inverse)

abbrev tokens_of : Option (Dict String) → Dict String
tokens_of none = []
tokens_of (some d) = invert_tokens d []

abbrev pub default_retry_policy : RetryPolicy
default_retry_policy = record {
  max_attempts = 1;
  base_delay = 0;
  max_delay = 0;
  backoff_factor = 2;
}

abbrev policy_of : Option RetryPolicy → RetryPolicy
policy_of none = default_retry_policy
policy_of (some p) = p

-- the state that `BrokerServer.__init__` sets up
unfoldable pub new_server : Options → Server
unfolding invert_tokens
new_server o = record {
  registry = Registry.empty;
  capabilities = [];
  last_heartbeat = [];
  ttl_seconds = [];
  default_ttl_seconds = o.ttl_seconds;
  agent_tokens = o.agent_tokens;
  token_to_agent = tokens_of o.agent_tokens;
  max_body_size = o.max_body_size;
  rate_limit_per_second = o.rate_limit_per_second;
  rate_buckets = [];
  audit = [];
  mailboxes = [];
  traffic_buffer = [];
  traffic_maxlen = o.traffic_buffer_size;
  mailbox_grace_seconds = o.mailbox_grace_seconds;
  dashboard_enabled = o.dashboard_enabled;
  retry_policy = policy_of o.router_retry_policy;
}

-- `_audit_logger.log`
unfoldable pub log : ℕ → String → String → String → ℕ → String → Server → Server
log wall action agent_id path status detail s = record s {
  audit =
      s.audit
      ++ (record {
        timestamp = wall;
        action = action;
        agent_id = agent_id;
        path = path;
        status = status;
        detail = detail;
      })
        ∷ [];
}

-- `traffic_buffer.append(record)` of a `deque` with a `maxlen`
unfoldable pub append_traffic : TrafficRecord → Server → Server
append_traffic r s = record s {
  traffic_buffer = last_n s.traffic_maxlen (s.traffic_buffer ++ r ∷ []);
}
