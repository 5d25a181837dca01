-- ===== src/Tests/Services.antt =====
-- Supervised services: runs of the theorems at concrete inputs.
use robotsix_agent_comm.Prelude.{
  String, Bool, str_eq, is_some, ◌||◌, ◌↔◌, ◌⊎◌, Option, All, ℕ, true, false, none, some, List, [],
  ◌∷◌, ◌≡◌, refl, arith, if◌then◌else◌,
}
use robotsix_agent_comm.Prelude.Int.{ℤ, pos, leb_ℤ, ◌+ℤ◌}
use robotsix_agent_comm.Lifecycle.Supervision.{
  SupervisionConfig, validate, Texts, up, down, raised, Look, Watch, new_state, health_loop,
  health_check, cooling, recover, fail, waiting, next_backoff, restart, attempt_restart, escalate,
  degrade, react, unhealthy, degraded_incident, restarted_incident, escalated_incident, poll_watch,
}
use robotsix_agent_comm.Lifecycle.Supervision.Service.{IsWatched, new_watch, new_watch-IsWatched}
use robotsix_agent_comm.Lifecycle.Supervision.Restarts.{
  starts, run_watch, run_watch_restarts, run_watch_escalated,
}
use robotsix_agent_comm.Lifecycle.Supervision.Agent.{
  Supervisor, new_supervisor, watch_of, poll_cycle, start_states,
}
use robotsix_agent_comm.Lifecycle.Supervision.Agent.Reached.{
  initial, next, starting, cycling, Reach, Reach-IsWatched,
}
use robotsix_agent_comm.Prelude.Dict.{Dict, lookup}
use robotsix_agent_comm.Prelude.Text.{codes, int_of, is_space, concat}
use robotsix_agent_comm.Lifecycle.Supervision.Settings.{
  loaded, ◌>>=◌, read_env, from_env, parse_service_list, commas_to_spaces, words_from,
}
use robotsix_agent_comm.Lifecycle.Supervision.Settings.Listed.{IsName, write_services}
use robotsix_agent_comm.Lifecycle.Supervision.Settings.Started.{from_env_lem}
use robotsix_agent_comm.Lifecycle.Supervision.Service.{IsValid}
use robotsix_agent_comm.Lifecycle.Server.{status_result}
use robotsix_agent_comm.Protocol.Value.{end}
use robotsix_agent_comm.Lifecycle.Config
use robotsix_agent_comm.Lifecycle.Config.{Langfuse, config_of, build_server}
use robotsix_agent_comm.Lifecycle.Config.Served.{IsTraced, lifecycle_told}
use robotsix_agent_comm.Protocol.Messages.{Message, Stamp, response_to, error_to}
use robotsix_agent_comm.Sdk.Responder.{dispatch, lookup_handler}
use robotsix_agent_comm.Sdk.Responder.Replies.{Asks}

-- two services, at most two restarts
abbrev duo : SupervisionConfig
duo = record {
  poll_interval = pos 30;
  health_timeout = pos 10;
  max_restart_attempts = pos 2;
  backoff_base = pos 5;
  backoff_max = pos 300;
  escalation_cooldown = pos 600;
  services = "web" ∷ "db" ∷ [];
  status_host = "127.0.0.1";
  status_port = pos 0;
}

abbrev texts : Texts
texts = record { repr = λ s. s; number = λ n. "n"; seconds = λ n. "s" }

-- a poll whose health check fails, and one whose second probe succeeds
abbrev dark : ℕ → Look
dark t = record { now = t; monotonic = t; probes = (t, down) ∷ (t, raised) ∷ [] }

abbrev bright : ℕ → Look
bright t = record { now = t; monotonic = t; probes = (t, raised) ∷ (t, up) ∷ [] }

duo_valid : validate duo ≡ none
unfolding validate
duo_valid = refl

dark_sick : (t : ℕ) → health_check duo (dark t) ≡ false
unfolding health_check health_loop
dark_sick t = ground arith

-- down from the start: a restart in each of two polls, then the escalation
abbrev dark_polls : List Look
dark_polls = dark 100 ∷ dark 130 ∷ dark 160 ∷ dark 800 ∷ []

down_twice :
    (starts (run_watch duo texts dark_polls (new_watch "web")).1 ≡ 2)
    × ((run_watch duo texts dark_polls (new_watch "web")).0.state.is_escalated ≡ true)
unfolding starts run_watch poll_watch cooling health_check health_loop recover unhealthy fail
    degrade react attempt_restart waiting restart next_backoff escalate degraded_incident
    restarted_incident escalated_incident new_state ◌+ℤ◌
down_twice = (refl, refl)

run_watch_restarts_example :
    leb_ℤ (pos (starts (run_watch duo texts dark_polls (new_watch "web")).1)) (pos 2) ≡ true
unfolding new_state
run_watch_restarts_example =
    run_watch_restarts duo duo_valid texts dark_polls (new_watch "web")
      (dark_sick 100, (dark_sick 130, (dark_sick 160, (dark_sick 800, tt))))
      (new_watch-IsWatched duo duo_valid "web") refl

-- an escalated service, long after its cooldown
abbrev given_up : Watch
given_up = record {
  state = record (new_state "web") {
    healthy = false;
    consecutive_failures = 3;
    restart_count = 2;
    is_escalated = true;
  };
  backoff = none;
  deadline = some (pos 760);
}

run_watch_escalated_example :
    (starts (run_watch duo texts (dark 5000 ∷ dark 9000 ∷ []) given_up).1 ≡ 0)
    × ((run_watch duo texts (dark 5000 ∷ dark 9000 ∷ []) given_up).0.state.is_escalated ≡ true)
run_watch_escalated_example =
    run_watch_escalated duo texts (dark 5000 ∷ dark 9000 ∷ []) given_up
      (dark_sick 5000, (dark_sick 9000, tt)) refl

-- the agent after `start` and one cycle in which "db" fails
abbrev running : Supervisor
running = (poll_cycle duo texts (bright 50 ∷ dark 60 ∷ []) (start_states duo new_supervisor)).0

running-Reach : Reach duo texts running
running-Reach =
    next (next initial (starting new_supervisor))
      (cycling (start_states duo new_supervisor) (bright 50 ∷ dark 60 ∷ []))

Reach-IsWatched_example :
    IsWatched duo (watch_of "db" running) × ((watch_of "db" running).state.service_name ≡ "db")
Reach-IsWatched_example = Reach-IsWatched duo texts duo_valid running running-Reach "db"

-- the environment that `duo` comes from, with whole numbers for its durations
abbrev duo_env : Dict String
duo_env =
    ("ROBOTSIX_SUPERVISION_POLL_INTERVAL_SECONDS", "30")
    ∷ ("ROBOTSIX_SUPERVISION_HEALTH_TIMEOUT_SECONDS", "10")
    ∷ ("ROBOTSIX_SUPERVISION_MAX_RESTART_ATTEMPTS", "2")
    ∷ ("ROBOTSIX_SUPERVISION_BACKOFF_BASE_SECONDS", "5")
    ∷ ("ROBOTSIX_SUPERVISION_BACKOFF_MAX_SECONDS", "300")
    ∷ ("ROBOTSIX_SUPERVISION_ESCALATION_COOLDOWN_SECONDS", "600")
    ∷ ("ROBOTSIX_SUPERVISION_SERVICES", "web,db")
    ∷ []

abbrev whole : String → Option ℤ
whole t = int_of (codes t)

duo_loaded : from_env whole duo_env ≡ loaded duo
unfolding from_env ◌>>=◌ read_env lookup codes int_of is_space parse_service_list commas_to_spaces
    words_from validate
duo_loaded = refl

from_env_lem_example :
    IsValid duo
    × All IsName duo.services
    × ((ss : List String)
        → lookup "ROBOTSIX_SUPERVISION_SERVICES" duo_env ≡ some (write_services ss)
        → All IsName ss
        → duo.services ≡ ss)
    × (lookup "ROBOTSIX_SUPERVISION_SERVICES" duo_env ≡ none → duo.services ≡ [])
from_env_lem_example = from_env_lem whole duo_env duo duo_loaded

-- an environment with both keys, and a Langfuse whose client is constructed
abbrev keys : Dict String
keys =
    ("ROBOTSIX_LIFECYCLE_LANGFUSE_PUBLIC_KEY", "pk")
    ∷ ("ROBOTSIX_LIFECYCLE_LANGFUSE_SECRET_KEY", "sk")
    ∷ []

abbrev langfuse : Langfuse
langfuse = record {
  installed = true;
  constructs = λ p s host. true;
  span = λ name event metadata. if str_eq name "status" then some "no connection" else none;
}

keys_loaded : Config.from_env keys ≡ some (config_of keys (pos 8443))
unfolding Config.from_env int_of codes lookup
keys_loaded = refl

lifecycle_told_example :
    (traced : Bool) × ((traced ≡ true) ↔ IsTraced langfuse keys)
    × ((repr : String → String) (t : Stamp) (m : Message) (kind : String)
        → Asks m kind
        → (kind ≡ "status") ⊎ (kind ≡ "monitor")
        → ((traced ≡ false) ⊎ (langfuse.span kind (concat kind "-check") end ≡ none)
            → dispatch repr t (build_server langfuse (config_of keys (pos 8443))) m
              ≡ response_to t m (status_result "lifecycle-server" traced) (some "lifecycle-server"))
          × ((text : String)
              → traced ≡ true
              → langfuse.span kind (concat kind "-check") end ≡ some text
              → dispatch repr t (build_server langfuse (config_of keys (pos 8443))) m
                ≡ error_to t m "handler_error" text (some "lifecycle-server")))
    × ((kind : String)
        → is_some (lookup_handler (build_server langfuse (config_of keys (pos 8443))) kind)
          ≡ (str_eq "status" kind || str_eq "lifecycle" kind || str_eq "monitor" kind))
unfolding lookup
lifecycle_told_example = lifecycle_told langfuse keys (config_of keys (pos 8443)) keys_loaded
