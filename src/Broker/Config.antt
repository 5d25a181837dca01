-- ===== src/Broker/Config.antt =====
-- broker/config.py: the broker's configuration from the environment, and its validation.
pub mod Tokens
pub mod Valid
use robotsix_agent_comm.Prelude.{
  String, ℕ, ◌+◌, leb, Bool, true, false, not, ◌&&◌, ◌||◌, Option, none, some, List, [], ◌∷◌, ◌==◌,
  if◌then◌else◌, or_else, map, str_eq,
}
use robotsix_agent_comm.Prelude.Int.{ℤ}
use robotsix_agent_comm.Prelude.Dict.{Dict, lookup, insert}
use robotsix_agent_comm.Prelude.Text.{codes, int_of}
use robotsix_agent_comm.Protocol.Value.{Value, str, obj, Fields, end, field}
use robotsix_agent_comm.Protocol.Serialization.{Payload}
use robotsix_agent_comm.Broker.Config.Tokens.{TokenError, ok, bad, parse_inline_tokens, strip_text}

pub record BrokerConfig : Type 0 where
  pub host : String
  pub port : ℤ
  pub env : String
  pub tls_cert : Option String
  pub tls_key : Option String
  pub tls_ca : Option String
  pub require_client_cert : Bool
  pub agent_tokens : Option (Dict String)
  pub ttl_seconds : ℤ
  pub rate_limit : Option ℤ
  pub max_body_size : ℤ
  pub mailbox_grace_seconds : Option ℤ
  pub audit_log : Option String
  pub dashboard_enabled : Bool

-- The `ValueError`s, by their messages; `tls_required` and `auth_required` have one for each missing
-- variable, and `bad_number` is `int`'s or `float`'s own.
pub data ConfigError : Type 0 where
  cannot_read invalid_json not_an_object : ConfigError
  token_not_text : String → ConfigError
  malformed : TokenError → ConfigError
  bad_number : String → ConfigError
  tls_required cert_unreadable key_unreadable ca_required ca_unreadable : ConfigError
  auth_required no_tokens : ConfigError

-- What the configuration takes from the system: the text of a file as JSON (`none` for an `OSError`),
-- whether a file is readable, and `float(text)` in ticks.
pub record System : Type 0 where
  pub read_file : String → Option Payload
  pub file_readable : String → Bool
  pub float_of : String → Option ℤ

pub data Loaded {ℓ} (A : Type ℓ) : Type ℓ where
  loaded : A → Loaded A
  refused : ConfigError → Loaded A

infixl 5 ◌>>=◌
abbrev pub ◌>>=◌ {ℓ κ} : {A : Type ℓ} {B : Type κ} → Loaded A → (A → Loaded B) → Loaded B
loaded a >>= f = f a
refused e >>= f = refused e

-- `not path`, where `None` and the empty text are missing
abbrev pub is_missing : Option String → Bool
is_missing none = true
is_missing (some s) = str_eq s ""

abbrev pub is_readable : (String → Bool) → Option String → Bool
is_readable readable none = false
is_readable readable (some s) = readable s

abbrev pub no_entries : Dict String → Bool
no_entries [] = true
no_entries _ = false

-- the checks of the certificate, the key and the CA bundle
unfoldable pub check_tls : (String → Bool) → BrokerConfig → Option ConfigError
check_tls readable c =
    if is_missing c.tls_cert || is_missing c.tls_key
    then some tls_required
    else if not (is_readable readable c.tls_cert)
    then some cert_unreadable
    else if not (is_readable readable c.tls_key)
    then some key_unreadable
    else none

unfoldable pub check_ca : (String → Bool) → BrokerConfig → Option ConfigError
check_ca readable c =
    if is_missing c.tls_ca
    then some ca_required
    else if not (is_readable readable c.tls_ca)
    then some ca_unreadable
    else none

unfoldable pub check_tokens : Option (Dict String) → Option ConfigError
check_tokens none = some auth_required
check_tokens (some d) = if no_entries d then some no_tokens else none

-- the next check where the one before it raises nothing
infixl 5 ◌and_then◌
abbrev pub ◌and_then◌ : Option ConfigError → Option ConfigError → Option ConfigError
none and_then e = e
some e and_then _ = some e

abbrev pub is_production : BrokerConfig → Bool
is_production c = not (str_eq c.env "development")

-- What `validate` raises, if anything; its warnings are left out.
unfoldable pub validate : (String → Bool) → BrokerConfig → Option ConfigError
unfolding check_tls check_ca check_tokens
validate readable c =
    (if is_production c then check_tls readable c else none)
    and_then (if c.require_client_cert then check_ca readable c else none)
    and_then (if is_production c then check_tokens c.agent_tokens else none)

-- the tokens of a file, whose values must be texts
unfoldable pub tokens_of : Fields → Loaded (Dict String)
tokens_of end = loaded []
tokens_of (field k (str s) d) = elim (tokens_of d) [
  | loaded t ↦ loaded ((k, s) ∷ t)
  | refused e ↦ refused e
]
tokens_of (field k v d) = refused (token_not_text k)

unfoldable pub tokens_of_file : Option Payload → Loaded (Dict String)
unfolding tokens_of
tokens_of_file none = refused cannot_read
tokens_of_file (some none) = refused invalid_json
tokens_of_file (some (some (obj d))) = tokens_of d
tokens_of_file (some (some v)) = refused not_an_object

-- `_get(key, default)`
abbrev pub get_or : Dict String → String → String → String
get_or env key default = or_else (lookup key env) default

-- `raw or None`
abbrev pub non_empty : String → Option String
non_empty s = if str_eq s "" then none else some s

abbrev given : Loaded (Dict String) → Loaded (Option (Dict String))
given (loaded d) = loaded (some d)
given (refused e) = refused e

-- the file wins over the inline tokens
unfoldable pub resolve_tokens : System → Dict String → Loaded (Option (Dict String))
unfolding tokens_of_file
resolve_tokens sys env =
    let path = get_or env "ROBOTSIX_BROKER_AGENT_TOKENS_FILE" "" in
    let inline = get_or env "ROBOTSIX_BROKER_AGENT_TOKENS" "" in
    if not (str_eq path "")
    then given (tokens_of_file (sys.read_file path))
    else if not (str_eq inline "")
    then elim (parse_inline_tokens inline) [
      | ok d ↦ loaded (some d)
      | bad e ↦ refused (malformed e)
    ]
    else loaded none

abbrev lower : ℕ → ℕ
lower c = if leb b'A' c && leb c b'Z' then c + 32 else c

abbrev same_codes : List ℕ → List ℕ → Bool
same_codes [] [] = true
same_codes (x ∷ xs) (y ∷ ys) = x == y && same_codes xs ys
same_codes _ _ = false

-- `_parse_bool` of protocol/_config_helpers.py
unfoldable pub parse_bool : String → Bool
unfolding strip_text codes
parse_bool raw =
    let word = map lower (codes (strip_text raw)) in
    same_codes word (codes "1") || same_codes word (codes "true") || same_codes word (codes "yes")

-- `int(text)` of a variable
abbrev int_var : Dict String → String → String → Loaded ℤ
int_var env key default = elim (int_of (codes (get_or env key default))) [
  | none ↦ refused (bad_number key)
  | some n ↦ loaded n
]

-- `float(text) if text else None`
abbrev float_var : System → Dict String → String → Loaded (Option ℤ)
float_var sys env key =
    if str_eq (get_or env key "") "" then loaded none else elim (sys.float_of (get_or env key "")) [
      | none ↦ refused (bad_number key)
      | some n ↦ loaded (some n)
    ]

abbrev bool_var : Dict String → String → Bool
bool_var env key = if str_eq (get_or env key "") "" then false else parse_bool (get_or env key "")

-- `from_env`, before its call of `validate`
unfoldable pub read_env : System → Dict String → Loaded BrokerConfig
read_env sys env = do
  agent_tokens ← resolve_tokens sys env
  port ← int_var env "ROBOTSIX_BROKER_PORT" "8443"
  ttl ← int_var env "ROBOTSIX_BROKER_TTL_SECONDS" "60"
  rate ← float_var sys env "ROBOTSIX_BROKER_RATE_LIMIT"
  body ← int_var env "ROBOTSIX_BROKER_MAX_BODY_SIZE" "1048576"
  grace ← float_var sys env "ROBOTSIX_BROKER_MAILBOX_GRACE_SECONDS"
  loaded (record {
    host = get_or env "ROBOTSIX_BROKER_HOST" "0.0.0.0";
    port = port;
    env = get_or env "ROBOTSIX_BROKER_ENV" "production";
    tls_cert = non_empty (get_or env "ROBOTSIX_BROKER_TLS_CERT" "");
    tls_key = non_empty (get_or env "ROBOTSIX_BROKER_TLS_KEY" "");
    tls_ca = non_empty (get_or env "ROBOTSIX_BROKER_TLS_CA" "");
    require_client_cert = bool_var env "ROBOTSIX_BROKER_REQUIRE_CLIENT_CERT";
    agent_tokens = agent_tokens;
    ttl_seconds = ttl;
    rate_limit = rate;
    max_body_size = body;
    mailbox_grace_seconds = grace;
    audit_log = non_empty (get_or env "ROBOTSIX_BROKER_AUDIT_LOG" "");
    dashboard_enabled = bool_var env "ROBOTSIX_BROKER_DASHBOARD_ENABLED";
  })

abbrev pub validated : System → BrokerConfig → Loaded BrokerConfig
validated sys c = elim (validate sys.file_readable c) [ none ↦ loaded c | some e ↦ refused e ]

-- `from_env`
unfoldable pub from_env : System → Dict String → Loaded BrokerConfig
unfolding read_env
from_env sys env = read_env sys env >>= validated sys
