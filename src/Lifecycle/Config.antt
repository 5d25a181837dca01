-- ===== src/Lifecycle/Config.antt =====
-- lifecycle/config.py, tracing.py and service.py: the configuration of the lifecycle server, whether
-- it traces, and the server that is built from it.
pub mod Served
use robotsix_agent_comm.Prelude.{
  String, Bool, false, not, ◌||◌, Option, none, some, if◌then◌else◌, str_eq,
}
use robotsix_agent_comm.Prelude.Int.{ℤ}
use robotsix_agent_comm.Prelude.Dict.{Dict}
use robotsix_agent_comm.Prelude.Text.{codes, int_of}
use robotsix_agent_comm.Broker.Config.{get_or, non_empty, is_missing}
use robotsix_agent_comm.Sdk.Responder.{Responder}
use robotsix_agent_comm.Protocol.Value.{Fields}
use robotsix_agent_comm.Lifecycle.Server.{lifecycle_server}

pub record LifecycleConfig : Type 0 where
  pub agent_id : String
  pub broker_host : String
  pub broker_port : ℤ
  pub broker_scheme : String
  pub broker_token : Option String
  pub broker_tls_ca : Option String
  pub langfuse_public_key : Option String
  pub langfuse_secret_key : Option String
  pub langfuse_host : Option String

-- `_get(key) or None`
abbrev pub setting : Dict String → String → Option String
setting env key = non_empty (get_or env key "")

-- `from_env`, with the port that `int` reads
unfoldable pub config_of : Dict String → ℤ → LifecycleConfig
config_of env port = record {
  agent_id = get_or env "ROBOTSIX_LIFECYCLE_AGENT_ID" "lifecycle-server";
  broker_host = get_or env "ROBOTSIX_LIFECYCLE_BROKER_HOST" "localhost";
  broker_port = port;
  broker_scheme = get_or env "ROBOTSIX_LIFECYCLE_BROKER_SCHEME" "https";
  broker_token = setting env "ROBOTSIX_LIFECYCLE_BROKER_TOKEN";
  broker_tls_ca = setting env "ROBOTSIX_LIFECYCLE_BROKER_TLS_CA";
  langfuse_public_key = setting env "ROBOTSIX_LIFECYCLE_LANGFUSE_PUBLIC_KEY";
  langfuse_secret_key = setting env "ROBOTSIX_LIFECYCLE_LANGFUSE_SECRET_KEY";
  langfuse_host = setting env "ROBOTSIX_LIFECYCLE_LANGFUSE_HOST";
}

-- `from_env`; `none` stands for the `ValueError` of `int`. `validate` raises nothing.
unfoldable pub from_env : Dict String → Option LifecycleConfig
unfolding config_of
from_env env = elim (int_of (codes (get_or env "ROBOTSIX_LIFECYCLE_BROKER_PORT" "8443"))) [
  | none ↦ none
  | some port ↦ some (config_of env port)
]

-- whether `validate` logs its warning
unfoldable pub warns : LifecycleConfig → Bool
warns c = is_missing c.broker_token

-- What there is of Langfuse: whether the package is installed, whether its constructor returns
-- for a public key, a secret key and a host, and what the client that it returns makes of a trace with
-- one event (`Tracing.span`).
pub record Langfuse : Type 0 where
  pub installed : Bool
  pub constructs : String → String → Option String → Bool
  pub span : String → String → Fields → Option String

abbrev constructs_with : Langfuse → Option String → Option String → Option String → Bool
constructs_with l (some public_key) (some secret_key) host = l.constructs public_key secret_key host
constructs_with l _ _ _ = false

-- `LifecycleTracing.__init__` and `enabled`: whether there is a client
unfoldable pub enabled : Langfuse → Option String → Option String → Option String → Bool
enabled l public_key secret_key host =
    if not l.installed
    then false
    else if is_missing public_key || is_missing secret_key
    then false
    else constructs_with l public_key secret_key host

-- `build_server`
unfoldable pub build_server : Langfuse → LifecycleConfig → Responder
unfolding enabled
build_server l c = lifecycle_server c.agent_id (record {
  enabled = enabled l c.langfuse_public_key c.langfuse_secret_key c.langfuse_host;
  span = l.span;
})
