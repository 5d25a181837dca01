-- ===== src/Sdk/Brokered.antt =====
-- sdk, transport/brokered.py and broker/server.py: a reply on its way back through the broker.
use robotsix_agent_comm.Prelude.{
  String, some, List, [], ◌∷◌, ◌++◌, keep_if, eq_refl, Bool-cases, inl, inr, true, ◌≡◌, refl, ap,
  ◌∙◌, arith,
}
use robotsix_agent_comm.Protocol.Value.{Value}
use robotsix_agent_comm.Protocol.Messages.{Message, request, Stamp, response_to, error_to}
use robotsix_agent_comm.Broker.State.{Server}
use robotsix_agent_comm.Broker.Http.{Request, World, Answer}
use robotsix_agent_comm.Broker.Send.{handle_send}
use robotsix_agent_comm.Broker.Poll.{Wake, answered, caller, handle_poll}
use robotsix_agent_comm.Brokered.{exchange_of, receive}
use robotsix_agent_comm.Brokered.Delivery.{IsPost, receive-handle_send}
use robotsix_agent_comm.Sdk.Responder.{Responder, dispatch}
use robotsix_agent_comm.Sdk.Responder
use robotsix_agent_comm.Sdk.Responder.Replies.{Asks, Handles, dispatch_form}
use robotsix_agent_comm.Sdk.Requester.{read_reply, read_handled, read_reply-dispatch}
use robotsix_agent_comm.Sdk.Agent.{
  Agent, run_handler, begin_request, receive_round, reply, end_request,
}
use robotsix_agent_comm.Sdk.Agent.Sorting.{is_reply_to}
use robotsix_agent_comm.Sdk.Conversation.{
  responder_agent, run_handler-responder, end_request-polled,
}

-- the messages that are correlated to a request
abbrev pub replies_to : String → List Message → List Message
replies_to id = keep_if (λ y. is_reply_to id y.correlation_id)

replies_to-append :
    (id : String) (old : List Message) (x : Message)
    → replies_to id old ≡ []
    → is_reply_to id x.correlation_id ≡ true
    → replies_to id (old ++ x ∷ []) ≡ x ∷ []
replies_to-append id [] x h e = rw (e) refl
replies_to-append id (y ∷ ys) x h e = elim (Bool-cases (is_reply_to id y.correlation_id)) [
  | inl q ↦ absurd (ground (arith, q, h))
  | inr q ↦ rw (q) (replies_to-append id ys x (ground (arith, q, h)) e)
]

dispatch-is_reply_to :
    (repr : String → String) (t : Stamp) (r : Responder) (m : Message)
    → is_reply_to m.message_id (dispatch repr t r m).correlation_id ≡ true
unfolding is_reply_to error_to response_to
dispatch-is_reply_to repr t r m = elim (dispatch_form repr t r m) [
  | inl (code, text, e) ↦ rw (e) (eq_refl m.message_id)
  | inr (body, e) ↦ rw (e) (eq_refl m.message_id)
]

module _ (repr : String → String) (t : Stamp) (r : Responder) (m : Message) (show : Value → String)
    (default kind : String) (o : Responder.Handled) where
  -- When a responder posts its reply to a request through the broker, and no other message in the
  -- requester's mailbox is correlated to the request, the requester's next poll ends the request, and
  -- what the requester reads is what the handler did.
  pub brokered_conversation :
      Asks m kind
      → Handles r m kind o
      → m.kind ≡ request
      → (agent : Agent) (queue : List Message) → agent.pool ≡ some queue
      → (w w' : World) (post poll : Request) (p a agent_id : String) (old : List Message)
        (s : Server) (wakes : List Wake)
      → IsPost post p a (dispatch repr t r m) old s
      → replies_to m.message_id old ≡ []
      → caller poll agent_id ≡ a
      → (after : Server) × (answer : Answer) × (got : Message) × ((run_handler repr t
            (responder_agent repr t r)
            m).1
          ≡ some got)
        × (handle_poll w' poll agent_id wakes (handle_send w post p s).1 ≡ answered answer after)
        × ((end_request m (receive_round (receive (exchange_of answer)) (begin_request m agent))).1
            ≡ reply got)
        × (read_reply show default got ≡ read_handled show default o)
  brokered_conversation asks handles k agent queue is_open w w' post poll p a agent_id old s wakes i
        none_yet is =
      let x = dispatch repr t r m in
      let (after, answer, polled, got, emptied) =
        receive-handle_send w post p a x old s i w' poll agent_id wakes is in
      let first = replies_to-append m.message_id old x none_yet (dispatch-is_reply_to repr t r m) in
      (
        after,
        answer,
        x,
        run_handler-responder repr t r m k,
        polled,
        ap (λ z. (end_request m (receive_round z (begin_request m agent))).1) got
            ∙ end_request-polled repr t r m agent queue (old ++ x ∷ []) [] x is_open first,
        read_reply-dispatch show default repr t r m kind o asks handles,
      )
