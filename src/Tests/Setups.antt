-- ===== src/Tests/Setups.antt =====
-- Configurations and tokens: runs of the theorems at concrete inputs.
use robotsix_agent_comm.Prelude.{String, true, false, none, some, [], ◌∷◌, All, ◌≡◌, refl}
use robotsix_agent_comm.Prelude.Int.{pos}
use robotsix_agent_comm.Prelude.Dict.{Dict, lookup, insert}
use robotsix_agent_comm.Prelude.Text.{codes, is_space, int_of}
use robotsix_agent_comm.Broker.Config
use robotsix_agent_comm.Broker.Config.{BrokerConfig, System, loaded, resolve_tokens, from_env}
use robotsix_agent_comm.Broker.Config.Valid.{IsSecure, from_env-IsSecure}
use robotsix_agent_comm.Broker.Config.Tokens
use robotsix_agent_comm.Broker.Config.Tokens.{
  split_commas, strip_text, partition, parse_inline_tokens,
}
use robotsix_agent_comm.Broker.Config.Tokens.Written.{
  IsWritable, write_tokens, parse_inline_tokens-write_tokens,
}

-- two agents with a token each
two-IsWritable : All IsWritable (("ann", "a1") ∷ ("bob", "b=2") ∷ [])
unfolding is_space
two-IsWritable = (
  ((λ e. cc), (refl, (refl, (refl, tt))), (λ e. cc), (refl, (refl, tt))),
  (((λ e. cc), (refl, (refl, (refl, tt))), (λ e. cc), (refl, (refl, (refl, tt)))), tt),
)

parse_inline_tokens-write_tokens_example :
    parse_inline_tokens (write_tokens (("ann", "a1") ∷ ("bob", "b=2") ∷ []))
    ≡ Tokens.ok (("ann", "a1") ∷ ("bob", "b=2") ∷ [])
unfolding lookup
parse_inline_tokens-write_tokens_example =
    parse_inline_tokens-write_tokens ("ann", "a1") (("bob", "b=2") ∷ []) two-IsWritable
      (refl, (refl, tt))

-- an environment that asks for nothing but inline tokens and TLS
abbrev system : System
system = record { read_file = λ p. none; file_readable = λ p. true; float_of = λ t. none }

abbrev env : Dict String
env =
    ("ROBOTSIX_BROKER_AGENT_TOKENS", "ann=a1")
    ∷ ("ROBOTSIX_BROKER_TLS_CERT", "/c")
    ∷ ("ROBOTSIX_BROKER_TLS_KEY", "/k")
    ∷ []

abbrev configured : BrokerConfig
configured = record {
  host = "0.0.0.0";
  port = pos 8443;
  env = "production";
  tls_cert = some "/c";
  tls_key = some "/k";
  tls_ca = none;
  require_client_cert = false;
  agent_tokens = some (("ann", "a1") ∷ []);
  ttl_seconds = pos 60;
  rate_limit = none;
  max_body_size = pos 1_048_576;
  mailbox_grace_seconds = none;
  audit_log = none;
  dashboard_enabled = false;
}

env_loaded : from_env system env ≡ loaded configured
unfolding from_env lookup insert parse_inline_tokens resolve_tokens split_commas strip_text is_space
    partition int_of codes Config.validate
env_loaded = refl

from_env-IsSecure_example : IsSecure (λ p. true) configured
from_env-IsSecure_example = from_env-IsSecure system env configured env_loaded
