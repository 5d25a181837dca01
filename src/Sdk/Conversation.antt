-- ===== src/Sdk/Conversation.antt =====
-- sdk: a requester and a responder, each an agent with a mailbox, and the broker between them.
use robotsix_agent_comm.Prelude.{
  String, some, List, [], ◌∷◌, keep_if, eq_iff, ◌≡◌, ◌≢◌, refl, ap, ◌∙◌, arith,
}
use robotsix_agent_comm.Prelude.Dict.{lookup, insert, lookup-insert}
use robotsix_agent_comm.Protocol.Value.{Value}
use robotsix_agent_comm.Protocol.Errors.{ok}
use robotsix_agent_comm.Protocol.Messages.{Message, request, Stamp}
use robotsix_agent_comm.Protocol.Validation.{validate, message}
use robotsix_agent_comm.Protocol.Replies.{IsStamp}
use robotsix_agent_comm.Brokered
use robotsix_agent_comm.Sdk.Responder.{Responder, dispatch}
use robotsix_agent_comm.Sdk.Responder
use robotsix_agent_comm.Sdk.Responder.Replies.{Asks, Handles, dispatch_reply}
use robotsix_agent_comm.Sdk.Requester.{read_reply, read_handled, read_reply-dispatch}
use robotsix_agent_comm.Sdk.Agent.{
  replied, Agent, new_agent, on_request, run_handler, reply_or_error, begin_request, receive_round,
  reply, first_of, end_request,
}
use robotsix_agent_comm.Sdk.Agent.Answers.{run_handler-handled}
use robotsix_agent_comm.Sdk.Agent.Sorting.{is_reply_to, dispatch_all_lem}

-- `BrokeredResponder.__init__`: the agent whose callback for requests is `_dispatch`, with the stamp
-- of the message that it builds
unfoldable pub responder_agent : (String → String) → Stamp → Responder → Agent
unfolding on_request
responder_agent repr t r =
    on_request (λ m. replied (some (dispatch repr t r m))) (new_agent r.agent_id)

module _ (repr : String → String) (t : Stamp) (r : Responder) (m : Message) where
  pub run_handler-responder :
      m.kind ≡ request
      → (run_handler repr t (responder_agent repr t r) m).1 ≡ some (dispatch repr t r m)
  unfolding responder_agent on_request reply_or_error
  run_handler-responder k = run_handler-handled repr t (responder_agent repr t r) m _ k refl

  -- A responder with an id, whose handlers return a JSON object or raise an `Exception`, answers every
  -- valid request, of whatever body, with one valid message that goes to the request's sender and bears
  -- the request's id, if the stamp of the reply is not empty.
  pub responder_answers :
      (good : IsStamp t)
      → validate (message m) ≡ ok tt
      → r.agent_id ≢ ""
      → m.kind ≡ request
      → (x : Message) × ((run_handler repr t (responder_agent repr t r) m).1 ≡ some x)
        × (validate (message x) ≡ ok tt)
        × (x.metadata.recipient ≡ m.metadata.sender)
        × (x.correlation_id ≡ some m.message_id)
  responder_answers good valid named k =
      let d = dispatch_reply repr t r m good valid named in
      (dispatch repr t r m, run_handler-responder k, d.0, d.1, d.2)

  -- the first reply among the messages that a requester polls while its request is pending
  pub end_request-polled :
      (a : Agent) (queue ms rest : List Message) (x : Message)
      → a.pool ≡ some queue
      → keep_if (λ y. is_reply_to m.message_id y.correlation_id) ms ≡ x ∷ rest
      → (end_request m (receive_round (Brokered.messages ms) (begin_request m a))).1 ≡ reply x
  unfolding end_request receive_round begin_request
  end_request-polled a queue ms rest x p e =
      let there : lookup m.message_id (insert m.message_id [] a.waiters) ≡ some [] = ground (
        arith,
        lookup-insert m.message_id m.message_id [] a.waiters,
        eq_iff m.message_id m.message_id,
      ) in
      let got =
        (dispatch_all_lem ms (record a { waiters = insert m.message_id [] a.waiters }) queue []
          m.message_id p there).0 in
      ap first_of (got ∙ ap some e)

  -- A request comes to what the handler did with it, if among the messages that the requester polls
  -- the responder's reply is the first that is correlated to the request.
  pub conversation :
      (show : Value → String) (default kind : String) (o : Responder.Handled)
      → Asks m kind
      → Handles r m kind o
      → m.kind ≡ request
      → (a : Agent) (queue ms rest : List Message) (x : Message) → a.pool ≡ some queue
      → (run_handler repr t (responder_agent repr t r) m).1 ≡ some x
      → keep_if (λ y. is_reply_to m.message_id y.correlation_id) ms ≡ x ∷ rest
      → (got : Message) × ((end_request m
            (receive_round (Brokered.messages ms) (begin_request m a))).1
          ≡ reply got)
        × (read_reply show default got ≡ read_handled show default o)
  conversation show default kind o asks h k a queue ms rest x p ran e =
      let same : x ≡ dispatch repr t r m = ground (arith, ran, run_handler-responder k) in
      (
        x,
        end_request-polled a queue ms rest x p e,
        ap (read_reply show default) same
            ∙ read_reply-dispatch show default repr t r m kind o asks h,
      )
