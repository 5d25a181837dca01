-- ===== src/Lifecycle/Supervision/Agent/Status.antt =====
-- lifecycle/supervision.py: `_StatusRequestHandler`, the state of the agent as JSON.
use robotsix_agent_comm.Prelude.{
  String, ℕ, Bool, Option, none, some, List, [], ◌∷◌, map, if◌then◌else◌, str_eq, last_n, ◌≡◌, refl,
  Bool-cases, inl, inr,
}
use robotsix_agent_comm.Prelude.Int.{pos}
use robotsix_agent_comm.Prelude.Dict.{Dict, lookup}
use robotsix_agent_comm.Protocol.Value.{
  Value, null, bool, int, str, obj, arr, Fields, field, end, Items, nil, cons, at, fields_of,
}
use robotsix_agent_comm.Broker.Http.{Answer, response, json, error_response}
use robotsix_agent_comm.Lifecycle.Supervision.{
  IncidentKind, degraded, restarted, escalated, Incident, ServiceState,
}
use robotsix_agent_comm.Lifecycle.Supervision.Agent.{Supervisor}

unfoldable kind_name : IncidentKind → String
kind_name degraded = "degraded"
kind_name restarted = "restarted"
kind_name escalated = "escalated"

-- a value that may be `None`
abbrev pub optional {ℓ} : {A : Type ℓ} → (A → Value) → Option A → Value
optional f none = null
optional f (some a) = f a

abbrev items_of : List Value → Items
items_of [] = nil
items_of (v ∷ vs) = cons v (items_of vs)

-- what a client reads of a service in an answer
pub service_in : String → Answer → Value
service_in name (response status (json (obj body))) = at name (fields_of (at "services" body))
service_in name _ = null

-- `time` is the number that stands for a time in the JSON.
module _ (time : ℕ → Value) where
  unfoldable incident_json : Incident → Value
  unfolding kind_name
  incident_json i = obj (
      field "timestamp" (time i.timestamp) (
        field "kind" (str (kind_name i.kind)) (
          field "message" (str i.message)
            (field "attempt" (optional (λ n. int (pos n)) i.attempt) end))))

  -- the entry of one service
  unfoldable pub state_json : ServiceState → Value
  unfolding incident_json
  state_json st = obj (
      field "healthy" (bool st.healthy) (
        field "consecutive_failures" (int (pos st.consecutive_failures)) (
          field "restart_count" (int (pos st.restart_count)) (
            field "escalated" (bool st.is_escalated) (
              field "last_health_check" (time st.last_health_check) (
                field "last_failure" (optional time st.last_failure) (
                  field "last_restart" (optional time st.last_restart) (
                    field "escalation_time" (optional time st.escalation_time) (
                      field "recent_incidents"
                        (arr (items_of (map incident_json (last_n 10 st.incidents)))) end)))))))))

  unfoldable services_json : Dict ServiceState → Fields
  unfolding state_json
  services_json [] = end
  services_json ((name, st) ∷ d) = field name (state_json st) (services_json d)

  -- `_handle_status`
  unfoldable pub status_body : Bool → Supervisor → Fields
  unfolding services_json
  status_body running s =
      field "services" (obj (services_json s.services_state))
        (field "running" (bool running) (field "poll_count" (int (pos s.poll_count)) end))

  -- `do_GET`
  unfoldable pub do_get : String → Bool → Supervisor → Answer
  unfolding status_body
  do_get path running s =
      if str_eq path "/status"
      then response 200 (json (obj (status_body running s)))
      else error_response 404 "not found"

  at-services_json :
      (name : String) (d : Dict ServiceState)
      → at name (services_json d) ≡ optional state_json (lookup name d)
  unfolding services_json lookup at
  at-services_json name [] = refl
  at-services_json name ((k, st) ∷ d) = elim (Bool-cases (str_eq k name)) [
    | inl e ↦ rw (e) refl
    | inr e ↦ rw (e) (at-services_json name d)
  ]

  -- `GET /status` answers with the state of each service that the agent knows, and with no other; no
  -- other path answers with the state of a service.
  pub service_in-do_get :
      (path name : String) (running : Bool) (s : Supervisor)
      → service_in name (do_get path running s) ≡ (
          if str_eq path "/status"
          then optional state_json (lookup name s.services_state)
          else null)
  unfolding do_get status_body at service_in
  service_in-do_get path name running s = elim (Bool-cases (str_eq path "/status")) [
    | inl e ↦ rw (e) (at-services_json name s.services_state)
    | inr e ↦ rw (e) refl
  ]
