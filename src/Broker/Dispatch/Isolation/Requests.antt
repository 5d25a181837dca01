-- ===== src/Broker/Dispatch/Isolation/Requests.antt =====
-- broker/server.py: the requests of one agent, and the entries of another.
use robotsix_agent_comm.Prelude.{
  String, ℕ, ltb, Bool, true, false, Option, none, some, List, [], ◌∷◌, ◌++◌, ◌≡◌, ◌≢◌, refl, arith,
  str_eq, eq_iff, ◌&&◌, ◌||◌, ◌⊎◌, inl, inr, Bool-cases, ◌==◌,
}
use robotsix_agent_comm.Prelude.Dict
use robotsix_agent_comm.Prelude.Dict.{lookup-insert, lookup-remove, lookup-set_default}
use robotsix_agent_comm.Prelude.Text.{starts_with_text}
use robotsix_agent_comm.Protocol.Value.{Value, str, obj, Fields, truthy}
use robotsix_agent_comm.Protocol.Errors.{Result-cases}
use robotsix_agent_comm.Protocol.Messages.{Message}
use robotsix_agent_comm.Protocol.Serialization.{deserialize}
use robotsix_agent_comm.Transport.Endpoints.{health_path, default_message_path}
use robotsix_agent_comm.Broker.State
use robotsix_agent_comm.Broker.State.{Server, log, append_traffic}
use robotsix_agent_comm.Broker.Dispatch.Isolation.{
  Spares, self, log-Spares, traffic-Spares, enroll-Spares, forget-Spares, enqueue-Spares,
  begin_poll-Spares, Spared, Spared-pair, Spared-if,
}
use robotsix_agent_comm.Broker.Dispatch.Isolation.Waits.{
  Guarded, Guarded-if, Guarded-once, wait-Guarded,
}
use robotsix_agent_comm.Broker.Http.{
  Method, get, post, delete, Request, World, Answer, response, dashboard_html,
}
use robotsix_agent_comm.Broker.Auth.{
  proceed, authenticate, admit, admit_stage, limit_stage, check_rate_limit, rate_key,
}
use robotsix_agent_comm.Broker.RateLimit.{TokenBucket}
use robotsix_agent_comm.Broker.Register.{
  Registration, Rejection, Verdict, accept, reject, accept_registration, judge, reject_request,
  register_body, handle_register, validate_payload,
}
use robotsix_agent_comm.Broker.Register.Validated.{validate_payload-IsSound}
use robotsix_agent_comm.Broker.Deregister.{refuse_deregister, handle_deregister, agent_id_of_path}
use robotsix_agent_comm.Broker.Send.{
  record_traffic, refuse_send, queue_message, route_send, forward, dispatch_message, send_message,
  handle_send, is_text,
}
use robotsix_agent_comm.Broker.Invariant.Requests.{Answer-cases, Found-cases}
use robotsix_agent_comm.Broker.Agents.{handle_agents}
use robotsix_agent_comm.Broker.Traffic.{handle_traffic}
use robotsix_agent_comm.Broker.Poll
use robotsix_agent_comm.Broker.Poll.{
  server_of, Wake, Polled, waiting, polled, deliver, look, wait_for_messages, heartbeat,
  auto_register, self_heal, begin_poll, handle_poll,
}
use robotsix_agent_comm.Broker.Dispatch.{
  route_get, route_post, route_delete, route_method, handle_request, allows_query_token, go_on,
  is_get, not_found,
}

Verdict-cases :
    (v : Verdict Registration)
    → ((x : Rejection) × (v ≡ reject x)) ⊎ ((g : Registration) × (v ≡ accept g))
Verdict-cases (reject x) = inl (x, refl)
Verdict-cases (accept g) = inr (g, refl)

module _ (p b : String) (s : Server) (other : str_eq p b ≡ false) (w : World) (r : Request) where
  poll-Guarded : p ≢ "" → Guarded p b s (λ ks. handle_poll w r p ks s)
  unfolding handle_poll
  poll-Guarded named = elim (Bool-cases (str_eq p "")) [
    | inl e ↦ absurd (named ((eq_iff p "").0 e))
    | inr e ↦ rw (e, e) (wait-Guarded p b other w _ s w.now _ (begin_poll-Spares p b s other w))
  ]

  unchanged : (a : Answer) → Spared p b s other (a, s)
  unchanged a = Spared-pair p b s other a (self p b s other)

  own_id : (g : Registration) → p ≢ "" → (p ≡ "") ⊎ (g.agent_id ≡ p) → g.agent_id ≡ p
  own_id g named (inl e) = absurd (named e)
  own_id g named (inr e) = e

  unnamed : p ≢ "" → str_eq p "" ≡ false
  unnamed named = ground (arith, eq_iff p "", named)

  judge-Spared : (d : Fields) → p ≢ "" → Spared p b s other (judge w (validate_payload d p) s)
  unfolding judge reject_request accept_registration
  judge-Spared d named = elim (Verdict-cases (validate_payload d p)) [
    | inl (x, e) ↦
        rw (e) (Spared-pair p b s other _ (log-Spares p b s other _ _ _ _ _ _ (self p b s other)))
    | inr (g, e) ↦ rw (e) (
        Spared-pair p b s other _ (
          log-Spares p b s other _ _ _ _ _ _ (
            enroll-Spares p b s other w.now g _
              (own_id g named (validate_payload-IsSound d p g e).own))))
  ]

  body-Spared : (v : Option Value) → p ≢ "" → Spared p b s other (register_body w p v s)
  unfolding register_body reject_request
  body-Spared none named =
      Spared-pair p b s other _ (log-Spares p b s other _ _ _ _ _ _ (self p b s other))
  body-Spared (some (obj d)) named = judge-Spared d named
  body-Spared (some _) named =
      Spared-pair p b s other _ (log-Spares p b s other _ _ _ _ _ _ (self p b s other))

  register-Spared : p ≢ "" → Spared p b s other (handle_register w r p s)
  unfolding handle_register
  register-Spared named =
      Spared-if p b s other (ltb s.max_body_size r.content_length) _ _ (unchanged _)
        (body-Spared r.body named)

  refuse_deregister-Spared :
      (a path : String) (status : ℕ) (detail : String)
      → Spared p b s other (refuse_deregister w a path status detail s)
  unfolding refuse_deregister
  refuse_deregister-Spared a path status detail =
      Spared-pair p b s other _ (log-Spares p b s other _ _ _ _ _ _ (self p b s other))

  deregister-Spared : p ≢ "" → Spared p b s other (handle_deregister w r p s)
  unfolding handle_deregister
  deregister-Spared named = elim (Bool-cases (str_eq (agent_id_of_path r.url_path) "")) [
    | inl e ↦ rw (e) (refuse_deregister-Spared _ _ _ _)
    | inr e ↦ elim (Bool-cases (str_eq (agent_id_of_path r.url_path) p)) [
      | inl f ↦
          rw (e, f, unnamed named, (eq_iff (agent_id_of_path r.url_path) p).0 f)
            (Spared-pair p b s other _
              (log-Spares p b s other _ _ _ _ _ _ (forget-Spares p b s other)))
      | inr f ↦ rw (e, f, unnamed named) (refuse_deregister-Spared _ _ _ _)
    ]
  ]

  refuse_send-Spared :
      (m : Message) (d : State.Disposition) (status : ℕ) (a : Answer) (detail : String)
      → Spared p b s other (refuse_send w m p d status a detail s)
  unfolding refuse_send record_traffic
  refuse_send-Spared m d status a detail =
      Spared-pair p b s other _
        (log-Spares p b s other _ _ _ _ _ _ (traffic-Spares p b s other _ (self p b s other)))

  queue_message-Spared :
      (m : Message) (a : String)
      → m.metadata.sender ≡ str p
      → Spared p b s other (queue_message w m p a s)
  unfolding queue_message record_traffic
  queue_message-Spared m a from = Spared-pair p b s other _ (
      log-Spares p b s other _ _ _ _ _ _
        (traffic-Spares p b s other _ (enqueue-Spares p b s other m a from)))

  forward-Spared : (m : Message) → Spared p b s other (forward w m p s)
  unfolding forward record_traffic
  forward-Spared m = elim (Answer-cases (route_send w m s)) [
    | inl (f, e) ↦ rw (e, forward) (unchanged _)
    | inr (status, body, e) ↦
        rw (e, forward)
          (Spared-pair p b s other _
            (log-Spares p b s other _ _ _ _ _ _ (traffic-Spares p b s other _ (self p b s other))))
  ]

  dispatch-Spared :
      (m : Message) → m.metadata.sender ≡ str p → Spared p b s other (dispatch_message w m p s)
  unfolding dispatch_message
  dispatch-Spared m from = elim (Found-cases m.metadata.recipient s.registry) [
    | inl e ↦ rw (e, dispatch_message) (unchanged _)
    | inr (inl e) ↦ rw (e, dispatch_message) (refuse_send-Spared m _ _ _ _)
    | inr (inr (endpoint, e, known)) ↦
        rw (e, dispatch_message)
          (Spared-if p b s other endpoint.mailbox _ _ (queue_message-Spared m _ from)
            (forward-Spared m))
  ]

  from_text : (v : Value) → is_text v p ≡ true → v ≡ str p
  from_text (str x) h = ground (arith, h, eq_iff x p)
  from_text _ h = cc

  send_message-Spared : (m : Message) → p ≢ "" → Spared p b s other (send_message w m p s)
  unfolding send_message
  send_message-Spared m named = elim (Bool-cases (is_text m.metadata.sender p)) [
    | inl e ↦
        rw (e, unnamed named)
          (Spared-if p b s other (truthy m.metadata.recipient) _ _
            (dispatch-Spared m (from_text m.metadata.sender e)) (refuse_send-Spared m _ _ _ _))
    | inr e ↦ rw (e, unnamed named) (refuse_send-Spared m _ _ _ _)
  ]

  send-Spared : p ≢ "" → Spared p b s other (handle_send w r p s)
  unfolding handle_send
  send-Spared named =
      Spared-if p b s other (ltb s.max_body_size r.content_length) _ _ (unchanged _)
        (elim (Result-cases (deserialize r.body)) [
          | inl (m, e) ↦ rw (e) (send_message-Spared m named)
          | inr (inl (x, e)) ↦
              rw (e)
                (Spared-pair p b s other _ (log-Spares p b s other _ _ _ _ _ _ (self p b s other)))
          | inr (inr (f, e)) ↦ rw (e) (unchanged _)
        ])

  once-Guarded : (x : Answer × Server) → Spared p b s other x → Guarded p b s (λ ks. polled x)
  once-Guarded x h = Guarded-once {other = other} x h

  route-Guarded : (m : Method) → p ≢ "" → Guarded p b s (λ ks. route_method m w r p ks s)
  unfolding handle_agents route_method route_get route_post route_delete
  route-Guarded get named =
      Guarded-if (str_eq r.url_path "/agents") (λ ks. polled (handle_agents w s)) _
        (once-Guarded _ (unchanged _))
        (Guarded-if (str_eq r.url_path "/traffic") (λ ks. polled (handle_traffic w r s, s)) _
          (once-Guarded _ (unchanged _))
          (Guarded-if (str_eq r.url_path default_message_path) (λ ks. handle_poll w r p ks s) _
            (poll-Guarded named)
            (Guarded-if
              (s.dashboard_enabled && (str_eq r.url_path "/dashboard" || str_eq r.url_path "/"))
              (λ ks. polled (response 200 dashboard_html, s)) (λ ks. polled (not_found, s))
              (once-Guarded _ (unchanged _)) (once-Guarded _ (unchanged _)))))
  route-Guarded post named =
      Guarded-if (str_eq r.path "/agents") (λ ks. polled (handle_register w r p s)) _
        (once-Guarded _ (register-Spared named))
        (Guarded-if (str_eq r.path default_message_path) (λ ks. polled (handle_send w r p s))
          (λ ks. polled (not_found, s)) (once-Guarded _ (send-Spared named))
          (once-Guarded _ (unchanged _)))
  route-Guarded delete named =
      Guarded-if (starts_with_text "/agents/" r.path) (λ ks. polled (handle_deregister w r p s))
        (λ ks. polled (not_found, s)) (once-Guarded _ (deregister-Spared named))
        (once-Guarded _ (unchanged _))

-- the rate limit touches only the buckets
check_rate_limit-buckets :
    (now : ℕ) (key : String) (s : Server)
    → (d : Dict.Dict TokenBucket) × ((check_rate_limit now key s).1 ≡ record s { rate_buckets = d })
unfolding check_rate_limit
check_rate_limit-buckets now key s = elim (Bool-cases (s.rate_limit_per_second == 0)) [
  | inl e ↦ (s.rate_buckets, rw (e) refl)
  | inr e ↦ rw (e) (_, refl)
]

buckets_aside :
    (p b : String) (s : Server) (d : Dict.Dict TokenBucket) {t : Server}
    → Spares p b (record s { rate_buckets = d }) t
    → Spares p b s t
buckets_aside p b s d x = record {
  registry = x.registry;
  capabilities = x.capabilities;
  last_heartbeat = x.last_heartbeat;
  ttl_seconds = x.ttl_seconds;
  mailbox = x.mailbox;
}

go_on-Guarded :
    (w : World) (r : Request) (s : Server) (p b : String) (named : p ≢ "")
    (other : str_eq p b ≡ false) (x : Bool × Server) (d : Dict.Dict TokenBucket)
    → x.1 ≡ record s { rate_buckets = d }
    → Guarded p b s (λ ks. go_on w r ks (limit_stage p x))
unfolding limit_stage
go_on-Guarded w r s p b named other (true, t) d e =
    let h = route-Guarded p b (record s { rate_buckets = d }) other w r r.method named in
    rw (e) (record { kept = buckets_aside p b s d h.kept; woken = h.woken; ended = h.ended })
go_on-Guarded w r s p b named other (false, t) d e =
    let here = buckets_aside p b s d (self p b (record s { rate_buckets = d }) other) in
    rw (e) (Guarded-once (_, _) (Spared-pair p b s other _ here))

handle_request-Guarded :
    (w : World) (r : Request) (s : Server) (p b : String)
    → authenticate s (allows_query_token r) r ≡ proceed p
    → p ≢ ""
    → b ≢ p
    → Guarded p b s (λ ks. handle_request w r ks s)
unfolding handle_request admit admit_stage
handle_request-Guarded w r s p b auth named other =
    let apart : str_eq p b ≡ false = ground (arith, eq_iff p b, other) in
    let (d, e) = check_rate_limit-buckets w.now (rate_key p) s in
    elim (Bool-cases (is_get r.method && str_eq r.path health_path)) [
      | inl probe ↦ rw (probe) (Guarded-once (_, s) (Spared-pair p b s apart _ (self p b s apart)))
      | inr probe ↦ rw (probe, auth) (go_on-Guarded w r s p b named apart _ d e)
    ]

-- A request that passes the authentication as the agent `p` leaves the endpoint, the capabilities,
-- the heartbeat and the TTL of any other agent `b` as they are, and of its mailbox at most one
-- message more, at the end, that names `p` as its sender: up to its answer or its first wait, and, of
-- a poll that waits after whatever wakes, from the next wake, at the server that it finds then, up to
-- the answer or the next wait. Once it has answered, more wakes change nothing of what it did.
pub handle_request_isolated :
    (w : World) (r : Request) (s : Server) (p b : String)
    → authenticate s (allows_query_token r) r ≡ proceed p
    → p ≢ ""
    → b ≢ p
    → Spares p b s (server_of (handle_request w r [] s))
      × ((before : List Wake) (k : Wake) (t : Server)
          → handle_request w r before s ≡ waiting t
          → Spares p b k.server (server_of (handle_request w r (before ++ k ∷ []) s)))
      × ((before after : List Wake) (a : Answer) (t : Server)
          → handle_request w r before s ≡ Poll.answered a t
          → handle_request w r (before ++ after) s ≡ Poll.answered a t)
handle_request_isolated w r s p b auth named other =
    let h = handle_request-Guarded w r s p b auth named other in (h.kept, h.woken, h.ended)
