-- ===== src/Broker/Invariant/Polls.antt =====
-- Polls and whole requests, and the consistency of the tables of broker/server.py.
use robotsix_agent_comm.Prelude.{
  String, ℕ, Bool, List, [], ◌∷◌, true, false, ◌≡◌, refl, str_eq, is_some, if◌then◌else◌, ◌==◌, leb,
  Bool-cases, Option-cases, inl, inr, All, ◌&&◌, ◌||◌,
}
use robotsix_agent_comm.Prelude.Dict
use robotsix_agent_comm.Prelude.Text.{starts_with_text}
use robotsix_agent_comm.Broker.Traffic.{handle_traffic}
use robotsix_agent_comm.Broker.Register.{handle_register}
use robotsix_agent_comm.Broker.Deregister.{handle_deregister}
use robotsix_agent_comm.Broker.Send.{handle_send}
use robotsix_agent_comm.Protocol.Value.{Value}
use robotsix_agent_comm.Broker.State.{Server}
use robotsix_agent_comm.Broker.Http.{
  Method, get, post, delete, Request, World, Answer, response, dashboard_html,
}
use robotsix_agent_comm.Broker.Auth.{
  Stage, proceed, answered, authenticate, check_rate_limit, limit_stage, admit_stage, admit,
  rate_key,
}
use robotsix_agent_comm.Broker.Agents.{handle_agents}
use robotsix_agent_comm.Broker.Poll
use robotsix_agent_comm.Broker.Poll.{
  server_of, Wake, Polled, waiting, polled, deliver, look, wait_for_messages, self_heal, begin_poll,
  handle_poll,
}
use robotsix_agent_comm.Broker.Dispatch.{
  route_method, handle_request, allows_query_token, go_on, is_get, not_found,
}
use robotsix_agent_comm.Transport.Endpoints.{health_path, default_message_path}
use robotsix_agent_comm.Broker.Invariant.{IsConsistent}
use robotsix_agent_comm.Broker.Invariant.Steps.{
  heartbeat-IsConsistent, auto_register-IsConsistent, refill-IsConsistent, log-IsConsistent,
  buckets-IsConsistent, Keeps, Keeps-pair, keeps_rules,
}
use robotsix_agent_comm.Broker.Invariant.Requests.{
  handle_register-Keeps, handle_deregister-Keeps, handle_send-Keeps,
}

-- What the other threads leave behind at each wake is consistent.
abbrev pub WakesConsistent : List Wake → Type 0
WakesConsistent = All (λ k. IsConsistent k.server)

record Leaves (p : Polled) : Type 0 where
  kept : IsConsistent (server_of p)

Leaves-polled : (x : Answer × Server) → Keeps x → Leaves (polled x)
Leaves-polled x k = record { kept = k.kept }

Leaves-answered : (a : Answer) (s : Server) → IsConsistent s → Leaves (Poll.answered a s)
Leaves-answered a s c = record { kept = c }

Leaves-waiting : (s : Server) → IsConsistent s → Leaves (waiting s)
Leaves-waiting s c = record { kept = c }

Leaves-if : (b : Bool) (p q : Polled) → Leaves p → Leaves q → Leaves (if b then p else q)
Leaves-if true p q x y = x
Leaves-if false p q x y = y

ruleset leaves_rules = (Leaves-polled, Leaves-answered, Leaves-waiting, Leaves-if, keeps_rules)

handle_agents-Keeps : (w : World) {s : Server} → IsConsistent s → Keeps (handle_agents w s)
unfolding handle_agents
handle_agents-Keeps w c = record { kept = c }

module _ (w : World) where
  deliver-Keeps :
      (b : String) (vs : List Value) {s : Server}
      → is_some (Dict.lookup b s.mailboxes) ≡ true
      → IsConsistent s
      → Keeps (deliver w b vs s)
  unfolding deliver
  deliver-Keeps b vs known c =
      Keeps-pair _ _ (log-IsConsistent _ _ _ _ _ _ (refill-IsConsistent b [] (c.owned b known) c))

  look-Leaves :
      (b : String) (deadline now : ℕ) (next : Polled) {s : Server}
      → IsConsistent s
      → Leaves next
      → Leaves (look w b deadline now next s)
  unfolding look
  look-Leaves b deadline now next {s} c n = elim (Option-cases (Dict.lookup b s.mailboxes)) [
    | inl e ↦ rw (e, look) (search leaves_rules)
    | inr ([], e) ↦
        let d = deliver-Keeps b [] (rw e refl) c in
        rw (e, look)
          (Leaves-if (leb deadline now) (polled (deliver w b [] s)) next (Leaves-polled _ d) n)
    | inr (m ∷ ms, e) ↦
        let d = deliver-Keeps b (m ∷ ms) (rw e refl) c in rw (e, look) (search (leaves_rules, d))
  ]

  wait_for_messages-Leaves :
      (b : String) (deadline now : ℕ) (wakes : List Wake) {s : Server}
      → IsConsistent s
      → WakesConsistent wakes
      → Leaves (wait_for_messages w b deadline now wakes s)
  unfolding wait_for_messages
  wait_for_messages-Leaves b deadline now [] c k =
      look-Leaves b deadline now _ c (Leaves-waiting _ c)
  wait_for_messages-Leaves b deadline now (x ∷ xs) c k =
      look-Leaves b deadline now _ c (wait_for_messages-Leaves b deadline x.now xs k.0 k.1)

  pub begin_poll-IsConsistent :
      (b : String) {s : Server} → IsConsistent s → IsConsistent (begin_poll w b s)
  unfolding begin_poll
  begin_poll-IsConsistent b {s} c =
      heartbeat-IsConsistent w.now b (elim (Bool-cases (is_some (Dict.lookup b s.mailboxes))) [
        | inl e ↦ rw (e, self_heal) c
        | inr e ↦ rw (e, self_heal) (auto_register-IsConsistent w b c)
      ])

  handle_poll-Leaves :
      (r : Request) (agent_id : String) (wakes : List Wake) {s : Server}
      → IsConsistent s
      → WakesConsistent wakes
      → Leaves (handle_poll w r agent_id wakes s)
  unfolding handle_poll
  handle_poll-Leaves r agent_id wakes c k =
      Leaves-if _ _ _ (Leaves-answered _ _ c)
        (wait_for_messages-Leaves _ _ _ wakes (begin_poll-IsConsistent _ c) k)

  check_rate_limit-IsConsistent :
      (now : ℕ) (key : String) {s : Server}
      → IsConsistent s
      → IsConsistent (check_rate_limit now key s).1
  unfolding check_rate_limit
  check_rate_limit-IsConsistent now key {s} c = elim (Bool-cases (s.rate_limit_per_second == 0)) [
    | inl e ↦ rw e c
    | inr e ↦ rw e (buckets-IsConsistent _ c)
  ]

  limit_stage-IsConsistent :
      (a : String) (x : Bool × Server) → IsConsistent x.1 → IsConsistent (limit_stage a x).1
  unfolding limit_stage
  limit_stage-IsConsistent a (true, s) c = c
  limit_stage-IsConsistent a (false, s) c = c

  admit_stage-IsConsistent :
      (x : Stage) {s : Server} → IsConsistent s → IsConsistent (admit_stage w x s).1
  unfolding admit_stage
  admit_stage-IsConsistent (answered a) c = c
  admit_stage-IsConsistent (proceed a) c =
      limit_stage-IsConsistent a _ (check_rate_limit-IsConsistent w.now (rate_key a) c)

  pub admit-IsConsistent :
      (b : Bool) (r : Request) {s : Server} → IsConsistent s → IsConsistent (admit w b r s).1
  unfolding admit
  admit-IsConsistent b r {s} c = admit_stage-IsConsistent (authenticate s b r) c

  module _ (r : Request) (wakes : List Wake) (k : WakesConsistent wakes) where
    route_method-Leaves :
        (m : Method) (agent_id : String) {s : Server}
        → IsConsistent s
        → Leaves (route_method m w r agent_id wakes s)
    unfolding route_method
    route_method-Leaves get agent_id {s} c =
        Leaves-if (str_eq r.url_path "/agents") (polled (handle_agents w s)) _
          (Leaves-polled _ (handle_agents-Keeps w c))
          (Leaves-if (str_eq r.url_path "/traffic") (Poll.answered (handle_traffic w r s) s) _
            (Leaves-answered _ s c)
            (Leaves-if (str_eq r.url_path default_message_path) (handle_poll w r agent_id wakes s) _
              (handle_poll-Leaves r agent_id wakes c k)
              (Leaves-if
                (s.dashboard_enabled && (str_eq r.url_path "/dashboard" || str_eq r.url_path "/"))
                (Poll.answered (response 200 dashboard_html) s) (Poll.answered not_found s)
                (Leaves-answered _ s c) (Leaves-answered _ s c))))
    route_method-Leaves post agent_id {s} c =
        Leaves-if (str_eq r.path "/agents") (polled (handle_register w r agent_id s)) _
          (Leaves-polled _ (handle_register-Keeps w agent_id c r))
          (Leaves-if (str_eq r.path default_message_path) (polled (handle_send w r agent_id s))
            (Poll.answered not_found s) (Leaves-polled _ (handle_send-Keeps w agent_id c r))
            (Leaves-answered _ s c))
    route_method-Leaves delete agent_id {s} c =
        Leaves-if (starts_with_text "/agents/" r.path) (polled (handle_deregister w r agent_id s))
          (Poll.answered not_found s) (Leaves-polled _ (handle_deregister-Keeps w agent_id c r))
          (Leaves-answered _ s c)

    go_on-Leaves : (x : Stage × Server) → IsConsistent x.1 → Leaves (go_on w r wakes x)
    go_on-Leaves (answered a, s) c = Leaves-answered a s c
    go_on-Leaves (proceed agent_id, s) c = route_method-Leaves r.method agent_id c

    -- Whatever a request asks and whoever sends it, a server with consistent tables has consistent
    -- tables after it; during the waits of a poll the other threads keep them so.
    pub handle_request-IsConsistent :
        (s : Server) → IsConsistent s → IsConsistent (server_of (handle_request w r wakes s))
    unfolding handle_request
    handle_request-IsConsistent s c =
        (Leaves-if (is_get r.method && str_eq r.path health_path) _ _ (Leaves-answered _ _ c)
          (go_on-Leaves _ (admit-IsConsistent (allows_query_token r) r c))).kept
