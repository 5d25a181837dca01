-- ===== src/Lifecycle/Supervision/Settings.antt =====
-- lifecycle/supervision.py: `_parse_service_list` and `SupervisionConfig.from_env`. White space is the
-- ASCII characters that `isspace` accepts.
pub mod Listed
pub mod Started
use Prim.Native.Char.{Char, code}
use robotsix_agent_comm.Prelude.{
  String, Option, none, some, List, [], ◌∷◌, ◌==◌, if◌then◌else◌, str_eq,
}
use robotsix_agent_comm.Prelude.Int.{ℤ}
use robotsix_agent_comm.Prelude.Dict.{Dict}
use robotsix_agent_comm.Prelude.Text.{codes, int_of, is_space, join}
use robotsix_agent_comm.Broker.Config.{get_or}
use robotsix_agent_comm.Lifecycle.Supervision.{SupervisionConfig, validate}

-- `raw.replace(",", " ")`
unfoldable pub commas_to_spaces : String → String
commas_to_spaces String.[] = ""
commas_to_spaces (String.◌∷◌ c s) =
    let rest = commas_to_spaces s in if code c == b',' then join " " rest else String.◌∷◌ c rest

-- a word in front of others, unless it is empty
abbrev pub with_word : String × List String → List String
with_word (w, ws) = if str_eq w "" then ws else w ∷ ws

-- the word that a text starts with, perhaps empty, and the words after it
unfoldable pub words_from : String → String × List String
words_from String.[] = ("", [])
words_from (String.◌∷◌ c s) =
    let rest = words_from s in
    if is_space (code c) then ("", with_word rest) else (String.◌∷◌ c rest.0, rest.1)

-- `text.split()`
abbrev pub split_words : String → List String
split_words s = with_word (words_from s)

abbrev not_empty : List String → List String
not_empty [] = []
not_empty (p ∷ ps) = let rest = not_empty ps in if str_eq p "" then rest else p ∷ rest

-- `_parse_service_list`
unfoldable pub parse_service_list : String → List String
unfolding commas_to_spaces words_from
parse_service_list raw =
    if str_eq raw "" then [] else not_empty (split_words (commas_to_spaces raw))

-- What `from_env` returns, or the `ValueError` of a number, by the name of its variable, or of
-- `validate`, by its message.
pub data Loaded {ℓ} (A : Type ℓ) : Type ℓ where
  loaded : A → Loaded A
  bad_number rejected : String → Loaded A

infixl 5 ◌>>=◌
unfoldable pub ◌>>=◌ {ℓ κ} : {A : Type ℓ} {B : Type κ} → Loaded A → (A → Loaded B) → Loaded B
loaded a >>= f = f a
bad_number key >>= f = bad_number key
rejected why >>= f = rejected why

abbrev number_of : String → Option ℤ → Loaded ℤ
number_of key none = bad_number key
number_of key (some n) = loaded n

abbrev float_setting : (String → Option ℤ) → Dict String → String → String → Loaded ℤ
float_setting float_of env key default = number_of key (float_of (get_or env key default))

abbrev int_setting : Dict String → String → String → Loaded ℤ
int_setting env key default = number_of key (int_of (codes (get_or env key default)))

-- `from_env`, before its call of `validate`; `float_of` is `float(text)` in ticks, for texts that
-- stand for a finite number.
unfoldable pub read_env : (String → Option ℤ) → Dict String → Loaded SupervisionConfig
unfolding parse_service_list
read_env float_of env = do
  poll ← float_setting float_of env "ROBOTSIX_SUPERVISION_POLL_INTERVAL_SECONDS" "30.0"
  health ← float_setting float_of env "ROBOTSIX_SUPERVISION_HEALTH_TIMEOUT_SECONDS" "10.0"
  attempts ← int_setting env "ROBOTSIX_SUPERVISION_MAX_RESTART_ATTEMPTS" "3"
  base ← float_setting float_of env "ROBOTSIX_SUPERVISION_BACKOFF_BASE_SECONDS" "5.0"
  most ← float_setting float_of env "ROBOTSIX_SUPERVISION_BACKOFF_MAX_SECONDS" "300.0"
  cooldown ← float_setting float_of env "ROBOTSIX_SUPERVISION_ESCALATION_COOLDOWN_SECONDS" "600.0"
  port ← int_setting env "ROBOTSIX_SUPERVISION_STATUS_PORT" "0"
  loaded (record {
    poll_interval = poll;
    health_timeout = health;
    max_restart_attempts = attempts;
    backoff_base = base;
    backoff_max = most;
    escalation_cooldown = cooldown;
    services = parse_service_list (get_or env "ROBOTSIX_SUPERVISION_SERVICES" "");
    status_host = get_or env "ROBOTSIX_SUPERVISION_STATUS_HOST" "127.0.0.1";
    status_port = port;
  })

abbrev pub validated : SupervisionConfig → Loaded SupervisionConfig
validated c = elim (validate c) [ none ↦ loaded c | some why ↦ rejected why ]

-- `from_env`
unfoldable pub from_env : (String → Option ℤ) → Dict String → Loaded SupervisionConfig
unfolding read_env
from_env float_of env = read_env float_of env >>= validated
