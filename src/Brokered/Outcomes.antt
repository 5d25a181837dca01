-- ===== src/Brokered/Outcomes.antt =====
-- What a client learns of a message that it sends through the broker.
use robotsix_agent_comm.Prelude.{
  String, ℕ, Option, none, some, ◌≡◌, ◌≢◌, ◌≤◌, List, [], ◌∷◌, All, map, refl, arith, ◌∙◌, ap, inr,
  true,
}
use robotsix_agent_comm.Protocol.Value.{Value, Fields, Items, cons, str, at_or, has}
use robotsix_agent_comm.Protocol.Errors.{ok, ◌>>◌}
use robotsix_agent_comm.Protocol.Messages.{Message, error_to, error_body}
use robotsix_agent_comm.Protocol.Validation.{
  validate, message, validate_dict, missing_of, required_envelope_fields,
}
use robotsix_agent_comm.Protocol.Serialization.{serialize, deserialize, from_dict}
use robotsix_agent_comm.Protocol.Serialization.RoundTrip.{deserialize-serialize}
use robotsix_agent_comm.Protocol.Replies.{IsStamp, reply_valid_iff}
use robotsix_agent_comm.Transport.Endpoints.{Endpoint, agent_not_found, unknown_recipient}
use robotsix_agent_comm.Transport.Registry
use robotsix_agent_comm.Transport.Registry.{found, found_of, not_found, lookup_value}
use robotsix_agent_comm.Broker.State.{Server}
use robotsix_agent_comm.Broker.Http.{World, response, json, empty, error_response}
use robotsix_agent_comm.Broker.Auth.{rate_limited}
use robotsix_agent_comm.Broker.Register.{too_large}
use robotsix_agent_comm.Broker.Send.{
  dispatch_message, refuse_send, queue_message, unknown_recipient_error,
}
use robotsix_agent_comm.Brokered.{
  returned, raised, broker_send, read_other, exchange_of, read_error, error_of, not_understood,
  messages, receive, read_poll, read_list, read_messages,
}
use robotsix_agent_comm.Broker.Poll.{messages_response, items_of}
use robotsix_agent_comm.Protocol.Errors.{missing_fields}

module _ (w : World) (m : Message) (p : String) (s : Server) where
  error_arrives :
      (text : String) (a : String)
      → IsStamp w.stamp
      → validate (message m) ≡ ok tt
      → m.metadata.recipient ≡ str a
      → a ≢ ""
      → deserialize (some (serialize (error_to w.stamp m unknown_recipient text none)))
        ≡ ok (error_to w.stamp m unknown_recipient text none)
  error_arrives text a good valid to named =
      let r = error_to w.stamp m unknown_recipient text none in
      let v =
        (reply_valid_iff w.stamp good m valid none unknown_recipient text Fields.end).0.1
          (inr (a, to, named)) in
      deserialize-serialize r ∙ ap (λ x. x >> ok r) v

  read_unknown :
      (r : Message) (text : String) (v : Value)
      → r.body ≡ error_body unknown_recipient text
      → deserialize (some v) ≡ ok r
      → read_error 404 (some v) ≡ raised agent_not_found
  unfolding read_error error_of error_body at_or
  read_unknown r text v body h = rw (h, read_error) (rw (body, error_of) refl)

  answer_unknown :
      lookup_value m.metadata.recipient s.registry ≡ not_found
      → (dispatch_message w m p s).0 ≡ response 404 (json (unknown_recipient_error w m))
  unfolding dispatch_message refuse_send
  answer_unknown e = rw (e, dispatch_message) refl

  answer_queued :
      (e : Endpoint)
      → lookup_value m.metadata.recipient s.registry ≡ found e
      → e.mailbox ≡ true
      → (dispatch_message w m p s).0 ≡ response 202 empty
  unfolding dispatch_message queue_message
  answer_queued e h pulls = rw (h, dispatch_message) (rw (pulls) refl)

  looked_up :
      (a : String) (x : Option Endpoint)
      → m.metadata.recipient ≡ str a
      → Registry.lookup a s.registry ≡ x
      → lookup_value m.metadata.recipient s.registry ≡ found_of x
  unfolding lookup_value
  looked_up a x to h = ap (λ v. lookup_value v s.registry) to ∙ ap found_of h

  client_unknown :
      (text : String)
      → deserialize (some (serialize (error_to w.stamp m unknown_recipient text none)))
        ≡ ok (error_to w.stamp m unknown_recipient text none)
      → broker_send (
          exchange_of
            (response 404 (json (serialize (error_to w.stamp m unknown_recipient text none)))))
        ≡ raised agent_not_found
  unfolding broker_send exchange_of error_to
  client_unknown text h = read_unknown _ text _ refl h

  client_queued : broker_send (exchange_of (response 202 empty)) ≡ returned none
  unfolding broker_send exchange_of
  client_queued = refl

  -- A valid message to a named agent through the broker: if the registry lacks the agent, the client
  -- raises `AgentNotFoundError`, whatever the stamp of the broker's error envelope is; if it is a pull
  -- agent, the client returns without a reply.
  pub dispatch_message-broker_send :
      (a : String)
      → IsStamp w.stamp
      → validate (message m) ≡ ok tt
      → m.metadata.recipient ≡ str a
      → a ≢ ""
      → (Registry.lookup a s.registry ≡ none
          → broker_send (exchange_of (dispatch_message w m p s).0) ≡ raised agent_not_found)
        × ((e : Endpoint)
            → Registry.lookup a s.registry ≡ some e
            → e.mailbox ≡ true
            → broker_send (exchange_of (dispatch_message w m p s).0) ≡ returned none)
  unfolding unknown_recipient_error
  dispatch_message-broker_send a good valid to named = (
    λ absent.
        ap (λ x. broker_send (exchange_of x)) (answer_unknown (looked_up a none to absent))
        ∙ client_unknown _ (error_arrives _ a good valid to named),
    λ e there pulls.
        ap (λ x. broker_send (exchange_of x))
          (answer_queued e (looked_up a (some e) to there) pulls)
        ∙ client_queued,
  )

-- Every answer of the broker that is an error and no envelope makes the client raise a `ProtocolError`:
-- the error of a status of 400 or above with its text alone, as of a request that it does not
-- authenticate or accept, the refusal by the rate limit, and that of a body which is too large, of
-- whatever sizes.
pub broker_send-error_response :
    (status : ℕ) (text : String) (limit length : ℕ)
    → 400 ≤ status
    → (broker_send (exchange_of (error_response status text))
        ≡ not_understood (missing_fields required_envelope_fields))
      × (broker_send (exchange_of rate_limited)
          ≡ not_understood (missing_fields required_envelope_fields))
      × (broker_send (exchange_of (too_large limit length))
          ≡ not_understood (missing_fields required_envelope_fields))
unfolding broker_send exchange_of deserialize from_dict validate_dict missing_of has read_other
    read_error
broker_send-error_response status text limit length high =
    (ground arith, ground arith, ground arith)

read_messages-cons :
    (v : Value) (vs : Items) (m : Message) (ms : List Message)
    → deserialize (some v) ≡ ok m
    → read_messages vs ≡ messages ms
    → read_messages (cons v vs) ≡ messages (m ∷ ms)
unfolding read_messages
read_messages-cons v vs m ms h rest = ground (arith, h, rest)

read_messages-items_of :
    (ms : List Message)
    → All (λ m. validate (message m) ≡ ok tt) ms
    → read_messages (items_of (map serialize ms)) ≡ messages ms
unfolding read_messages
read_messages-items_of [] valid = refl
read_messages-items_of (m ∷ ms) valid =
    let here : deserialize (some (serialize m)) ≡ ok m =
      deserialize-serialize m ∙ ap (λ x. x >> ok m) valid.0 in
    read_messages-cons (serialize m) (items_of (map serialize ms)) m ms here
      (read_messages-items_of ms valid.1)

-- The client reads from the answer of a poll the messages that were queued, all of them and in their
-- order, if they are valid.
pub receive-messages_response :
    (ms : List Message)
    → All (λ m. validate (message m) ≡ ok tt) ms
    → receive (exchange_of (messages_response (map serialize ms))) ≡ messages ms
unfolding receive exchange_of read_poll read_list at_or
receive-messages_response ms valid = read_messages-items_of ms valid
