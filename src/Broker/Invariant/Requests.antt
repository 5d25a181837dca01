-- ===== src/Broker/Invariant/Requests.antt =====
-- The handlers of broker/server.py, and the consistency of its tables.
use robotsix_agent_comm.Prelude.{
  String, ℕ, some, true, ◌≡◌, refl, arith, is_some, Option-cases, inl, inr, ◌⊎◌,
}
use robotsix_agent_comm.Protocol.Value.{Value, str, arr, obj}
use robotsix_agent_comm.Protocol.Errors.{Fault, Result-cases}
use robotsix_agent_comm.Protocol.Messages.{Message}
use robotsix_agent_comm.Protocol.Serialization.{Payload, deserialize}
use robotsix_agent_comm.Transport.Endpoints.{Endpoint}
use robotsix_agent_comm.Transport.Registry
use robotsix_agent_comm.Transport.Registry.{found, not_found, not_hashable, lookup_value}
use robotsix_agent_comm.Broker.State.{Server}
use robotsix_agent_comm.Broker.Http.{Request, World, Answer, ReplyBody, response, crash}
use robotsix_agent_comm.Broker.Register.{
  Verdict, accept, reject, Registration, judge, register_body, handle_register, validate_payload,
  text_or_empty,
}
use robotsix_agent_comm.Broker.Deregister.{handle_deregister}
use robotsix_agent_comm.Broker.Send.{
  queue_message, forward, route_send, dispatch_message, send_message, handle_send,
}
use robotsix_agent_comm.Broker.Invariant.{IsConsistent}
use robotsix_agent_comm.Broker.Invariant.Steps.{
  refill-IsConsistent, log-IsConsistent, traffic-IsConsistent, Keeps, Keeps-pair, keeps_rules,
}

pub Answer-cases :
    (a : Answer) → ((f : Fault) × (a ≡ crash f)) ⊎ ((n : ℕ) × (b : ReplyBody) × (a ≡ response n b))
Answer-cases (crash f) = inl (f, refl)
Answer-cases (response n b) = inr (n, b, refl)

-- An endpoint is found under the text of the recipient.
pub Found-cases :
    (v : Value) (r : Registry.Registry)
    → (lookup_value v r ≡ not_hashable)
      ⊎ (lookup_value v r ≡ not_found)
      ⊎ ((e : Endpoint) × (lookup_value v r ≡ found e)
          × (is_some (Registry.lookup (text_or_empty v) r) ≡ true))
unfolding lookup_value
Found-cases (str s) r = elim (Option-cases (Registry.lookup s r)) [
  | inl e ↦ inr (inl (ground (arith, e)))
  | inr (x, e) ↦ inr (inr (x, ground (arith, e), ground (arith, e)))
]
Found-cases (arr xs) r = inl refl
Found-cases (obj d) r = inl refl
Found-cases _ r = inr (inl refl)

module _ (w : World) (authenticated : String) {s : Server} (c : IsConsistent s) where
  judge-Keeps : (v : Verdict Registration) → Keeps (judge w v s)
  unfolding judge
  judge-Keeps (reject r) = search keeps_rules
  judge-Keeps (accept g) = search keeps_rules

  register_body-Keeps : (p : Payload) → Keeps (register_body w authenticated p s)
  unfolding register_body
  register_body-Keeps (some (obj d)) = judge-Keeps (validate_payload d authenticated)
  register_body-Keeps _ = search keeps_rules

  pub handle_register-Keeps : (r : Request) → Keeps (handle_register w r authenticated s)
  unfolding handle_register
  handle_register-Keeps r = search (keeps_rules, register_body-Keeps)

  pub handle_deregister-Keeps : (r : Request) → Keeps (handle_deregister w r authenticated s)
  unfolding handle_deregister
  handle_deregister-Keeps r = search keeps_rules

  forward-Keeps : (m : Message) → Keeps (forward w m authenticated s)
  unfolding forward
  forward-Keeps m = elim (Answer-cases (route_send w m s)) [
    | inl (f, e) ↦ rw (e, forward) (search keeps_rules)
    | inr (status, body, e) ↦ rw (e, forward) (search keeps_rules)
  ]

  queue_message-Keeps :
      (m : Message) (recipient : String)
      → is_some (Registry.lookup recipient s.registry) ≡ true
      → Keeps (queue_message w m authenticated recipient s)
  unfolding queue_message
  queue_message-Keeps m recipient known = Keeps-pair _ _ (
      log-IsConsistent _ _ _ _ _ _
        (traffic-IsConsistent _ (refill-IsConsistent recipient _ known c)))

  dispatch_message-Keeps : (m : Message) → Keeps (dispatch_message w m authenticated s)
  unfolding dispatch_message
  dispatch_message-Keeps m = elim (Found-cases m.metadata.recipient s.registry) [
    | inl e ↦ rw (e, dispatch_message) (search keeps_rules)
    | inr (inl e) ↦ rw (e, dispatch_message) (search keeps_rules)
    | inr (inr (endpoint, e, known)) ↦
        rw (e, dispatch_message) (search (keeps_rules, forward-Keeps, queue_message-Keeps, known))
  ]

  send_message-Keeps : (m : Message) → Keeps (send_message w m authenticated s)
  unfolding send_message
  send_message-Keeps m = search (keeps_rules, dispatch_message-Keeps)

  pub handle_send-Keeps : (r : Request) → Keeps (handle_send w r authenticated s)
  unfolding handle_send
  handle_send-Keeps r = elim (Result-cases (deserialize r.body)) [
    | inl (m, e) ↦ rw (e, handle_send) (search (keeps_rules, send_message-Keeps))
    | inr (inl (x, e)) ↦ rw (e, handle_send) (search keeps_rules)
    | inr (inr (f, e)) ↦ rw (e, handle_send) (search keeps_rules)
  ]
