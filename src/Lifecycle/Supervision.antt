-- ===== src/Lifecycle/Supervision.antt =====
-- lifecycle/supervision.py: what one poll of a service does. Times are whole ticks, of any clock.
pub mod Service
pub mod Named
pub mod Restarts
pub mod Agent
pub mod Settings
use robotsix_agent_comm.Prelude.{
  String, ℕ, suc, ◌*◌, ltb, Bool, true, false, not, Option, none, some, List, [], ◌∷◌, ◌++◌,
  if◌then◌else◌, ◌==◌, or_else,
}
use robotsix_agent_comm.Prelude.Int.{ℤ, pos, negsuc, ◌+ℤ◌, leb_ℤ}
use robotsix_agent_comm.Prelude.Text.{concat}
use robotsix_agent_comm.Broker.RateLimit.{second}

pub data IncidentKind : Type 0 where
  degraded restarted escalated : IncidentKind

pub record Incident : Type 0 where
  pub timestamp : ℕ
  pub service_name : String
  pub kind : IncidentKind
  pub message : String
  pub attempt : Option ℕ

pub record ServiceState : Type 0 where
  pub service_name : String
  pub healthy : Bool
  pub consecutive_failures : ℕ
  pub restart_count : ℕ
  pub is_escalated : Bool
  pub last_health_check : ℕ
  pub last_failure : Option ℕ
  pub last_restart : Option ℕ
  pub escalation_time : Option ℕ
  pub incidents : List Incident

-- `ServiceState(service_name=name)`
unfoldable pub new_state : String → ServiceState
new_state name = record {
  service_name = name;
  healthy = true;
  consecutive_failures = 0;
  restart_count = 0;
  is_escalated = false;
  last_health_check = 0;
  last_failure = none;
  last_restart = none;
  escalation_time = none;
  incidents = [];
}

-- Durations are in ticks.
pub record SupervisionConfig : Type 0 where
  pub poll_interval : ℤ
  pub health_timeout : ℤ
  pub max_restart_attempts : ℤ
  pub backoff_base : ℤ
  pub backoff_max : ℤ
  pub escalation_cooldown : ℤ
  pub services : List String
  pub status_host : String
  pub status_port : ℤ

-- The `ValueError` that `validate` raises, by its message; `none` where it raises none.
unfoldable pub validate : SupervisionConfig → Option String
validate c =
    if leb_ℤ c.poll_interval (pos 0)
    then some "poll_interval_seconds must be positive"
    else if leb_ℤ c.health_timeout (pos 0)
    then some "health_timeout_seconds must be positive"
    else if not (leb_ℤ (pos 0) c.max_restart_attempts)
    then some "max_restart_attempts must be >= 0"
    else if leb_ℤ c.backoff_base (pos 0)
    then some "backoff_base_seconds must be positive"
    else if not (leb_ℤ c.backoff_base c.backoff_max)
    then some "backoff_max_seconds must be >= backoff_base_seconds"
    else if not (leb_ℤ (pos 0) c.escalation_cooldown)
    then some "escalation_cooldown_seconds must be >= 0"
    else none

-- What the f-strings of the messages take from Python: `repr` of a name, a number's text and a
-- duration's, with no decimals.
pub record Texts : Type 0 where
  pub repr : String → String
  pub number : ℕ → String
  pub seconds : ℤ → String

-- One call of `backend.health`: what it returns, or that it raises.
pub data Probe : Type 0 where
  up down raised : Probe

-- What one poll meets: `time.time()`, the monotonic clock, and the calls of `backend.health` that it
-- has time for, each with the reading of the monotonic clock before it. After the last of them the
-- clock has passed the deadline.
pub record Look : Type 0 where
  pub now : ℕ
  pub monotonic : ℕ
  pub probes : List (ℕ × Probe)

-- What a poll does to the world: calls of the backend, and incidents that go to `on_alert`. An
-- exception from any of them is suppressed.
pub data Effect : Type 0 where
  stop : String → Effect
  start : String → Effect
  emit : Incident → Effect

-- The state that the agent keeps of one service, in three tables under its name.
pub record Watch : Type 0 where
  pub state : ServiceState
  pub backoff : Option ℤ
  pub deadline : Option ℤ

abbrev is_up : Probe → Bool
is_up up = true
is_up _ = false

-- `while time.monotonic() < deadline_health`
unfoldable pub health_loop : ℤ → List (ℕ × Probe) → Bool
health_loop deadline [] = false
health_loop deadline ((t, p) ∷ ps) =
    let rest = health_loop deadline ps in
    if leb_ℤ deadline (pos t) then false else if is_up p then true else rest

-- the health check of a poll
unfoldable pub health_check : SupervisionConfig → Look → Bool
unfolding health_loop
health_check c k = health_loop (pos k.monotonic +ℤ c.health_timeout) k.probes

-- `deadline is not None and now < deadline`
unfoldable pub cooling : ℕ → Option ℤ → Bool
cooling now none = false
cooling now (some d) = not (leb_ℤ d (pos now))

abbrev add_incident : Incident → ServiceState → ServiceState
add_incident i st = record st { incidents = st.incidents ++ i ∷ [] }

-- the healthy path
unfoldable pub recover : ℕ → Watch → Watch
recover now w = record {
  state = record w.state {
    healthy = true;
    consecutive_failures = 0;
    is_escalated = false;
    last_health_check = now;
  };
  backoff = none;
  deadline = none;
}

-- the first lines of the unhealthy path
unfoldable pub fail : ℕ → ServiceState → ServiceState
fail now st = record st {
  healthy = false;
  consecutive_failures = suc st.consecutive_failures;
  last_failure = some now;
  last_health_check = now;
}

-- `last_restart` plus the backoff is still to come
unfoldable pub waiting : ℕ → Option ℕ → ℤ → Bool
waiting now none backoff = false
waiting now (some last) backoff = not (leb_ℤ (pos last +ℤ backoff) (pos now))

abbrev is_zero : ℤ → Bool
is_zero (pos n) = n == 0
is_zero (negsuc n) = false

abbrev min_ℤ : ℤ → ℤ → ℤ
min_ℤ a b = if leb_ℤ a b then a else b

unfoldable pub next_backoff : SupervisionConfig → ℤ → ℤ
next_backoff c current =
    if is_zero current then c.backoff_base else min_ℤ (current +ℤ current) c.backoff_max

module _ (c : SupervisionConfig) (texts : Texts) (now : ℕ) where
  -- the incidents, with `name` for `service_name`
  unfoldable pub degraded_incident : String → Incident
  degraded_incident name = record {
    timestamp = now;
    service_name = name;
    kind = degraded;
    message = concat "Service " (concat (texts.repr name) " is unhealthy");
    attempt = none;
  }

  unfoldable pub restarted_incident : String → ℕ → Incident
  restarted_incident name attempt = record {
    timestamp = now;
    service_name = name;
    kind = restarted;
    message = concat "Service " (
        concat (texts.repr name)
          (concat " restarted (attempt " (concat (texts.number attempt) ")")));
    attempt = some attempt;
  }

  unfoldable pub escalated_incident : ServiceState → Incident
  escalated_incident st = record {
    timestamp = now;
    service_name = st.service_name;
    kind = escalated;
    message = concat "Service " (
        concat (texts.repr st.service_name) (
          concat " escalated after " (
            concat (texts.number st.consecutive_failures) (
              concat " consecutive failures (" (
                concat (texts.number st.restart_count) (
                  concat " restart attempts); cooldown "
                    (concat (texts.seconds c.escalation_cooldown) "s")))))));
    attempt = none;
  }

  -- `_attempt_restart` once the wait is over
  unfoldable pub restart : Watch → Watch × List Effect
  unfolding next_backoff restarted_incident
  restart w =
      let name = w.state.service_name in
      let attempt = suc w.state.restart_count in
      let incident = restarted_incident name attempt in
      (
        record w {
          backoff = some (next_backoff c (or_else w.backoff (pos 0)));
          state =
              add_incident incident
                (record w.state { restart_count = attempt; last_restart = some now });
        },
        stop name ∷ start name ∷ emit incident ∷ [],
      )

  -- `_attempt_restart`
  unfoldable pub attempt_restart : Watch → Watch × List Effect
  unfolding waiting restart
  attempt_restart w =
      if waiting now w.state.last_restart (or_else w.backoff (pos 0)) then (w, []) else restart w

  -- `_escalate`
  unfoldable pub escalate : Watch → Watch × List Effect
  unfolding escalated_incident
  escalate w =
      let st = record w.state { is_escalated = true; escalation_time = some now } in
      let incident = escalated_incident st in
      (
        record {
          state = add_incident incident st;
          backoff = none;
          deadline = some (pos now +ℤ c.escalation_cooldown);
        },
        emit incident ∷ [],
      )

  -- the incident of a first failure
  unfoldable pub degrade : Watch → Watch × List Effect
  unfolding degraded_incident
  degrade w =
      let incident = degraded_incident w.state.service_name in
      if w.state.consecutive_failures == 1
      then (record w { state = add_incident incident w.state }, emit incident ∷ [])
      else (w, [])

  -- the threshold and what follows it
  unfoldable pub react : Watch → Watch × List Effect
  unfolding attempt_restart escalate
  react w =
      if leb_ℤ (pos w.state.consecutive_failures) c.max_restart_attempts
      then attempt_restart w
      else escalate w

  -- the unhealthy path
  unfoldable pub unhealthy : Watch → Watch × List Effect
  unfolding fail degrade react
  unhealthy w =
      let w' : Watch = record w { state = fail now w.state } in
      if w'.state.is_escalated
      then (w', [])
      else (let (w1, e1) = degrade w' in let (w2, e2) = react w1 in (w2, e1 ++ e2))

-- `_poll_service` on the tables of its service
unfoldable pub poll_watch : SupervisionConfig → Texts → Look → Watch → Watch × List Effect
unfolding cooling health_check recover unhealthy
poll_watch c texts k w =
    if cooling k.now w.deadline
    then (w, [])
    else if health_check c k
    then (recover k.now w, [])
    else unhealthy c texts k.now w
