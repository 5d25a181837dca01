-- ===== src/Protocol/Redaction.antt =====
-- protocol/config_contract.py: `SecretRedactor`. A `frozenset` of patterns is a list, whose order and
-- repetitions have no effect.
pub mod Secrets
use text.Mathlib.Text.{starts_with}
use robotsix_agent_comm.Prelude.{String, Bool, true, false, ◌||◌, if◌then◌else◌, List, [], ◌∷◌}
use robotsix_agent_comm.Protocol.Value.{Value, str}

-- `pattern in key`
unfoldable pub occurs : String → String → Bool
occurs pattern String.[] = starts_with "" pattern
occurs pattern (String.◌∷◌ c s) = starts_with (String.◌∷◌ c s) pattern || occurs pattern s

-- `SecretRedactor.is_secret`
unfoldable pub is_secret : String → List String → Bool
unfolding occurs
is_secret key [] = false
is_secret key (pattern ∷ patterns) = occurs pattern key || is_secret key patterns

abbrev pub redacted_sentinel : String
redacted_sentinel = "***"

-- `SecretRedactor.redact_value`
unfoldable pub redact_value : String → Value → List String → Value
unfolding is_secret
redact_value key value patterns = if is_secret key patterns then str redacted_sentinel else value
