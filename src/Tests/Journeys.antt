-- ===== src/Tests/Journeys.antt =====
-- Messages on their way through the broker of Tests/Data.antt.
use robotsix_agent_comm.Prelude.{inr, some, [], ◌∷◌, ◌≡◌, refl}
use robotsix_agent_comm.Prelude.Dict.{lookup}
use robotsix_agent_comm.Protocol.Value.{str, field, end, at, at_or, is_nonempty_text}
use robotsix_agent_comm.Protocol.Errors.{ok}
use robotsix_agent_comm.Protocol.Messages.{Message, message_type_of, response_to}
use robotsix_agent_comm.Protocol.Validation.{validate, message}
use robotsix_agent_comm.Brokered
use robotsix_agent_comm.Sdk.Responder.{
  returned, serve_kind, serve, reply_with, lookup_handler, dispatch, params_of,
}
use robotsix_agent_comm.Sdk.Requester.{read_reply, read_handled}
use robotsix_agent_comm.Sdk.Agent.{begin_request, receive_round, reply, end_request, run_handler}
use robotsix_agent_comm.Sdk.Conversation.{responder_agent}
use robotsix_agent_comm.Protocol.Serialization.{serialize}
use robotsix_agent_comm.Transport.Endpoints.{Endpoint}
use robotsix_agent_comm.Transport.Registry
use robotsix_agent_comm.Broker.State.{Server}
use robotsix_agent_comm.Broker.Http.{Request, Answer, post}
use robotsix_agent_comm.Broker.Send.{handle_send}
use robotsix_agent_comm.Broker.Poll.{answered, caller, handle_poll}
use robotsix_agent_comm.Brokered.{receive}
use robotsix_agent_comm.Brokered.Delivery.{IsPost, receive-handle_send}
use robotsix_agent_comm.Sdk.Responder.Replies.{dispatch_reply}
use robotsix_agent_comm.Sdk.Brokered.{brokered_conversation}
use robotsix_agent_comm.Tests.Data.{asks, broker, bob, note, world}
use robotsix_agent_comm.Tests.Kits.{
  ask, kit, repr, asker, world-IsStamp, ask_valid, ask-Asks, echo_Handles,
}

-- the broker of "ann", a pull agent, and the request with which "bob" posts the reply
abbrev ann : Endpoint
ann = record bob { agent_id = "ann" }

abbrev home : Server
home = record broker {
  registry = record { endpoints = ("ann", ann) ∷ [] };
  mailboxes = ("ann", []) ∷ [];
}

abbrev answer : Message
answer = dispatch repr world.stamp kit ask

abbrev post_of_bob : Request
post_of_bob = record (asks "/messages" "Bearer secret-b") {
  method = post;
  content_length = 100;
  body = some (serialize answer);
}

bob_sends : answer.metadata.sender ≡ str "bob"
unfolding dispatch serve_kind at is_nonempty_text lookup_handler lookup serve reply_with params_of
    at_or response_to
bob_sends = refl

bob-IsPost : IsPost post_of_bob "bob" "ann" answer [] home
unfolding lookup Registry.lookup
bob-IsPost =
    let reply = dispatch_reply repr world.stamp kit ask world-IsStamp ask_valid (λ e. cc) in
    record {
      fits = refl;
      body = refl;
      valid = reply.0;
      own = inr bob_sends;
      named = λ e. cc;
      addressed = reply.1;
      endpoint = ann;
      registered = refl;
      pulls = refl;
      queue = refl;
      old_valid = tt;
    }

poll_of_ann : caller (asks "/messages" "Bearer secret-a") "ann" ≡ "ann"
poll_of_ann = refl

brokered_conversation_example :
    (after : Server) × (page : Answer) × (got : Message) × ((run_handler repr world.stamp
        (responder_agent repr world.stamp kit)
        ask).1
      ≡ some got)
    × (handle_poll world
          (asks "/messages" "Bearer secret-a")
          "ann"
          []
          (handle_send world post_of_bob "bob" home).1
        ≡ answered page after)
    × ((end_request ask
          (receive_round (receive (Brokered.exchange_of page)) (begin_request ask asker))).1
        ≡ reply got)
    × (read_reply (λ v. "value") "" got
        ≡ read_handled
            (λ v. "value")
            ""
            (returned (field "reply" (str "done") (field "x" (str "1") end))))
brokered_conversation_example =
    brokered_conversation repr world.stamp kit ask (λ v. "value") "" "echo"
      (returned (field "reply" (str "done") (field "x" (str "1") end))) ask-Asks echo_Handles refl
      asker [] refl world world post_of_bob (asks "/messages" "Bearer secret-a") "bob" "ann" "ann"
      [] home [] bob-IsPost refl poll_of_ann

-- "ann" posts a notification to "bob", who polls
abbrev post_of_ann : Request
post_of_ann = record (asks "/messages" "Bearer secret-a") {
  method = post;
  content_length = 100;
  body = some (serialize note);
}

note_valid : validate (message note) ≡ ok tt
unfolding validate is_nonempty_text at message_type_of
note_valid = refl

ann-IsPost : IsPost post_of_ann "ann" "bob" note [] broker
unfolding lookup Registry.lookup
ann-IsPost = record {
  fits = refl;
  body = refl;
  valid = note_valid;
  own = inr refl;
  named = λ e. cc;
  addressed = refl;
  endpoint = bob;
  registered = refl;
  pulls = refl;
  queue = refl;
  old_valid = tt;
}

poll_of_bob : caller (asks "/messages" "Bearer secret-b") "bob" ≡ "bob"
poll_of_bob = refl

receive-handle_send_example :
    (t : Server) × (page : Answer) × (handle_poll world
        (asks "/messages" "Bearer secret-b")
        "bob"
        []
        (handle_send world post_of_ann "ann" broker).1
      ≡ answered page t)
    × (receive (Brokered.exchange_of page) ≡ Brokered.messages (note ∷ []))
    × (lookup "bob" t.mailboxes ≡ some [])
receive-handle_send_example =
    receive-handle_send world post_of_ann "ann" "bob" note [] broker ann-IsPost world
      (asks "/messages" "Bearer secret-b") "bob" [] poll_of_bob
