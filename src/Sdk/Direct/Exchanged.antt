-- ===== src/Sdk/Direct/Exchanged.antt =====
-- sdk/agent.py and transport/: a request from one agent to another that listens.
use robotsix_agent_comm.Prelude.{
  String, Bool, false, Bool-cases, inl, inr, ℕ, suc, ◌≤◌, ◌+◌, ◌-◌, Option, none, some, ◌≡◌, ◌≢◌,
  refl, ap, ◌∙◌, arith, eq_refl, str_eq, eq_iff,
}
use robotsix_agent_comm.Prelude.Int.{ℤ}
use robotsix_agent_comm.Protocol.Value.{null, str, Fields, truthy}
use robotsix_agent_comm.Protocol.Errors.{ProtocolError, ok}
use robotsix_agent_comm.Protocol.Messages.{
  Message, MessageType, request, notification, Stamp, create_metadata,
}
use robotsix_agent_comm.Protocol.Validation.{validate, message, major_of_protocol_version}
use robotsix_agent_comm.Protocol.Validation.Accepts.{IsCorrelated}
use robotsix_agent_comm.Protocol.Replies.{IsStamp, reply_envelope_iff}
use robotsix_agent_comm.Transport.Endpoints.{unreachable}
use robotsix_agent_comm.Transport.Registry
use robotsix_agent_comm.Transport.Registry.{Registry, found, found_of, lookup_value}
use robotsix_agent_comm.Transport.Registry.Laws.{lookup-register}
use robotsix_agent_comm.Transport.Retry.{
  RetryPolicy, Outcome, retry_call, Delivery, delivered, give_up,
}
use robotsix_agent_comm.Transport.Retry.Attempts.{retry_call_success, retry_call_failure}
use robotsix_agent_comm.Transport.Router.{route, routed}
use robotsix_agent_comm.Transport.Server.Exchanges.{HasValidReply, told, client_send-do_post}
use robotsix_agent_comm.Sdk.Agent.{
  Agent, Handled, replied, handle, handle_kind, handle_notification, Requested, got, no_reply,
  delivery_error, send_request,
}
use robotsix_agent_comm.Sdk.Agent
use robotsix_agent_comm.Sdk.Direct
use robotsix_agent_comm.Sdk.Direct.{
  Peer, direct_endpoint, start, heard_of, listener_of, dial, transport, build_message, Notified,
  sent, send_notification,
}

-- a request and a notification have no correlation id
build_message-valid :
    (t : Stamp) (kind : MessageType) (a b : String) (body : Option Fields) (extra : Fields)
    → IsStamp t
    → a ≢ ""
    → IsCorrelated kind null
    → validate (message (build_message t kind a b body extra)) ≡ ok tt
unfolding build_message create_metadata validate
build_message-valid t kind a b body extra good named free =
    (reply_envelope_iff (build_message t kind a b body extra) good.fresh_id good.now
        major_of_protocol_version free).1
      (a, refl, named)

-- what `send_request` should come to
abbrev pub ended : RetryPolicy → Handled → Requested
ended p (replied (some reply)) = got reply
ended p (replied none) = no_reply
ended p Agent.raised =
    delivery_error (record { attempts = p.max_attempts; cause = some unreachable })

-- what `send_notification` should come to
abbrev pub notified : RetryPolicy → Handled → Notified
notified p (replied reply) = sent
notified p Agent.raised =
    Direct.delivery_error (record { attempts = p.max_attempts; cause = some unreachable })

-- how often the handler runs for one request
abbrev pub runs : RetryPolicy → Handled → ℕ
runs p (replied reply) = 1
runs p Agent.raised = p.max_attempts

-- what the calls of `client.send` come to
abbrev outcome : RetryPolicy → Handled → Delivery (Option Message)
outcome p (replied reply) = delivered reply
outcome p Agent.raised = give_up p (some unreachable)

retried :
    (p : RetryPolicy) (o : Handled) (send : ℕ → Outcome (Option Message))
    → 1 ≤ p.max_attempts
    → ((i : ℕ) → send i ≡ told (heard_of o))
    → ((retry_call send p).result ≡ outcome p o) × ((retry_call send p).calls ≡ runs p o)
unfolding heard_of
retried p (replied reply) send h f =
    let e = retry_call_success p send 0 reply h (λ i lt. elim lt [ ]) (f 1) in
    (ap (λ x. x.result) e, ap (λ x. x.calls) e)
retried p Agent.raised send h f =
    let last : p.max_attempts ≡ suc (p.max_attempts - 1) = omega arith in
    let e =
      retry_call_failure p send (p.max_attempts - 1) unreachable last
        (λ i le. (unreachable, f (i + 1))) (f (p.max_attempts - 1 + 1)) in
    (ap (λ x. x.result) e, ap (λ x. x.calls) e ∙ omega arith)

module _ (repr : String → String) (t : Stamp) (describe : ProtocolError → String)
    (listening : String → ℤ → Option Agent) (b : Agent) (host : String) (port : ℤ)
    (bound : listening host port ≡ some b) where
  transport-listening :
      (m : Message) (attempt : ℕ)
      → validate (message m) ≡ ok tt
      → HasValidReply (heard_of (handle repr t b m))
      → transport repr t describe listening m (direct_endpoint b.agent_id host port) attempt
        ≡ told (heard_of (handle repr t b m))
  unfolding transport dial
  transport-listening m attempt valid replies =
      rw (bound) (client_send-do_post describe (listener_of repr t describe b) m valid replies)

  module _ (a : String) (body : Option Fields) (extra : Fields) (p : RetryPolicy) (r : Registry)
      (t' : Stamp) where
    found_at :
        lookup_value (str b.agent_id) (Registry.register (direct_endpoint b.agent_id host port) r)
        ≡ found (direct_endpoint b.agent_id host port)
    unfolding lookup_value
    found_at =
        let e = direct_endpoint b.agent_id host port in
        let there : Registry.lookup b.agent_id (Registry.register e r) ≡ some e =
          lookup-register e r b.agent_id ∙ ground (arith, eq_refl b.agent_id) in
        ap found_of there

    module _ (kind : MessageType) (free : IsCorrelated kind null) (good : IsStamp t')
        (named : a ≢ "") (named_b : b.agent_id ≢ "") (tries : 1 ≤ p.max_attempts) where
      abbrev m : Message
      m = build_message t' kind a b.agent_id body extra

      abbrev exchange : ℕ → Outcome (Option Message)
      exchange = transport repr t describe listening m (direct_endpoint b.agent_id host port)

      route-start :
          HasValidReply (heard_of (handle repr t b m))
          → (route
                (start host port (record { agent = b; server = none }, r)).1
                (transport repr t describe listening)
                p
                m
              ≡ routed (outcome p (handle repr t b m)))
            × ((retry_call exchange p).calls ≡ runs p (handle repr t b m))
      unfolding start route build_message create_metadata truthy
      route-start replies =
          let valid = build_message-valid t' kind a b.agent_id body extra good named free in
          let (result, calls) =
            retried p (handle repr t b m) exchange tries
              (λ i. transport-listening m i valid replies) in
          let there : str_eq b.agent_id "" ≡ false =
            ground (arith, named_b, eq_iff b.agent_id "") in
          (rw (there, found_at, result) refl, calls)

handle_notification-HasValidReply :
    (repr : String → String) (t : Stamp) (m : Message) (handler : Option (Message → Bool))
    → HasValidReply (heard_of (handle_notification repr t m handler))
unfolding handle_notification heard_of
handle_notification-HasValidReply repr t m none = tt
handle_notification-HasValidReply repr t m (some h) = elim (Bool-cases (h m)) [
  | inl e ↦ rw (e) tt
  | inr e ↦ rw (e) tt
]

told_quietly :
    (repr : String → String) (t : Stamp) (b : Agent) (t' : Stamp) (a : String)
    (body : Option Fields) (extra : Fields)
    → HasValidReply
        (heard_of (handle repr t b (build_message t' notification a b.agent_id body extra)))
unfolding handle handle_kind build_message
told_quietly repr t b t' a body extra =
    handle_notification-HasValidReply repr t (build_message t' notification a b.agent_id body extra)
      b.notification_handler

send_request-routed :
    (p : RetryPolicy) (o : Handled) → send_request (routed (outcome p o)) ≡ ended p o
unfolding send_request routed
send_request-routed p (replied (some reply)) = refl
send_request-routed p (replied none) = refl
send_request-routed p Agent.raised = refl

send_notification-routed :
    (p : RetryPolicy) (o : Handled) → send_notification (routed (outcome p o)) ≡ notified p o
unfolding send_notification routed
send_notification-routed p (replied reply) = refl
send_notification-routed p Agent.raised = refl

-- An agent has started to listen at an address and is dialled there. A request of another agent to it
-- returns what its handler returns and has run the handler once, and where that raises the handler has
-- run as often as the policy allows and the request ends in a `DeliveryError`; where the handler
-- returns nothing the request ends in one too. A notification returns if the handler does, after
-- one run, and raises a `DeliveryError` after all runs if the handler raises each time. Both agents
-- have an id, the stamp of the message is not empty, the policy allows an attempt, and a reply of the
-- handler is valid.
pub direct_conversation :
    (repr : String → String) (describe : ProtocolError → String) (t t' : Stamp)
    (listening : String → ℤ → Option Agent) (b : Agent) (host : String) (port : ℤ) (a : String)
    (body : Option Fields) (extra : Fields) (p : RetryPolicy) (r : Registry)
    → listening host port ≡ some b
    → IsStamp t'
    → a ≢ ""
    → b.agent_id ≢ ""
    → 1 ≤ p.max_attempts
    → let ask = build_message t' request a b.agent_id body extra in
      let tell = build_message t' notification a b.agent_id body extra in
      let known = (start host port (record { agent = b; server = none }, r)).1 in
      let send = transport repr t describe listening in
      let e = direct_endpoint b.agent_id host port in
      HasValidReply (heard_of (handle repr t b ask))
      → (send_request (route known send p ask) ≡ ended p (handle repr t b ask))
        × ((retry_call (send ask e) p).calls ≡ runs p (handle repr t b ask))
        × (send_notification (route known send p tell) ≡ notified p (handle repr t b tell))
        × ((retry_call (send tell e) p).calls ≡ runs p (handle repr t b tell))
direct_conversation repr describe t t' listening b host port a body extra p r bound good named
      named_b tries replies =
    let quiet = told_quietly repr t b t' a body extra in
    let (asked, asked_calls) =
      route-start repr t describe listening b host port bound a body extra p r t' request refl good
        named named_b tries replies in
    let (told, told_calls) =
      route-start repr t describe listening b host port bound a body extra p r t' notification refl
        good named named_b tries quiet in
    (
      ap send_request asked ∙ send_request-routed p _,
      asked_calls,
      ap send_notification told ∙ send_notification-routed p _,
      told_calls,
    )
