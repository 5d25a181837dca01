-- ===== src/Tests/Kits.antt =====
-- Agents, requesters and responders of the SDK: runs of the theorems at concrete inputs.
use robotsix_agent_comm.Prelude.{String, true, none, some, List, [], ◌∷◌, ◌≡◌, ◌↔◌, refl}
use robotsix_agent_comm.Prelude.Dict.{lookup, insert}
use robotsix_agent_comm.Protocol.Value.{
  str, obj, Fields, field, end, at, at_or, is_nonempty_text, IsNonemptyText,
}
use robotsix_agent_comm.Protocol.Errors.{ok}
use robotsix_agent_comm.Protocol.Messages.{Message, request, message_type_of, response_to}
use robotsix_agent_comm.Protocol.Validation.{validate, message}
use robotsix_agent_comm.Protocol.Replies.{IsStamp}
use robotsix_agent_comm.Brokered
use robotsix_agent_comm.Sdk.Responder.{
  returned, raised, Handler, Responder, base_responder, lookup_handler, dispatch, params_of,
}
use robotsix_agent_comm.Sdk.Responder.Replies.{HasCode, Asks, Handles}
use robotsix_agent_comm.Sdk.Responder.Outcomes.{HasFailure, HasResult, dispatch_iff}
use robotsix_agent_comm.Sdk.Agent.{
  Agent, new_agent, dispatch_all, begin_request, receive_round, end_request, run_handler,
  dispatch_pull, give_correlated, give, submit,
}
use robotsix_agent_comm.Sdk.Agent.Sorting.{is_reply_to, is_awaited, dispatch_all_lem}
use robotsix_agent_comm.Sdk.Agent.Waiting.{
  Reach, initial, next, begins, receives, end_request-correlated,
}
use robotsix_agent_comm.Sdk.Conversation.{responder_agent, responder_answers}
use robotsix_agent_comm.Brokered.{receive}
use robotsix_agent_comm.Tests.Data.{note, world}

-- a request of "ann" for the kind "echo"
abbrev pub ask : Message
ask = record note {
  kind = request;
  body = field "kind" (str "echo") (field "params" (obj (field "x" (str "1") end)) end);
}

-- a responder that returns the params of "echo" with a reply
abbrev echo : Handler
echo = λ m params. returned (field "reply" (str "done") params)

abbrev pub kit : Responder
kit = record (base_responder "bob") { extra = ("echo", echo) ∷ [] }

abbrev pub repr : String → String
repr s = s

pub world-IsStamp : IsStamp world.stamp
world-IsStamp = record { now = λ e. cc; fresh_id = λ e. cc }

pub ask_valid : validate (message ask) ≡ ok tt
unfolding validate is_nonempty_text at message_type_of
ask_valid = refl

pub ask-Asks : Asks ask "echo"
unfolding at
ask-Asks = (refl, λ e. cc)

pub echo_Handles :
    Handles kit ask "echo" (returned (field "reply" (str "done") (field "x" (str "1") end)))
unfolding lookup_handler lookup params_of at_or
echo_Handles = (echo, refl, refl)

dispatch_iff_example :
    (HasCode "invalid_request" (dispatch repr world.stamp kit ask)
      ↔ ¬ IsNonemptyText (at "kind" ask.body))
    × (HasCode "unknown_kind" (dispatch repr world.stamp kit ask)
        ↔ ((kind : String) × Asks ask kind × (lookup_handler kit kind ≡ none)))
    × ((text : String)
        → HasFailure text (dispatch repr world.stamp kit ask)
          ↔ ((kind : String) × Asks ask kind × Handles kit ask kind (raised text)))
    × ((body : Fields)
        → HasResult body (dispatch repr world.stamp kit ask)
          ↔ ((kind : String) × Asks ask kind × Handles kit ask kind (returned body)))
dispatch_iff_example = dispatch_iff repr world.stamp kit ask

-- an agent without callbacks, and one that has been started
abbrev bare : Agent
bare = new_agent "bob"

abbrev pub asker : Agent
asker = record (new_agent "ann") { pool = some []; is_started = true; is_alive = true }

responder_answers_example :
    (x : Message) × ((run_handler repr world.stamp (responder_agent repr world.stamp kit) ask).1
      ≡ some x)
    × (validate (message x) ≡ ok tt)
    × (x.metadata.recipient ≡ str "ann")
    × (x.correlation_id ≡ some "m1")
responder_answers_example =
    responder_answers repr world.stamp kit ask world-IsStamp ask_valid (λ e. cc) refl

-- the responder's reply, and a poll that brings it behind a notification
abbrev done : Message
done =
    response_to world.stamp ask (field "reply" (str "done") (field "x" (str "1") end)) (some "bob")

abbrev polled : List Message
polled = note ∷ done ∷ []

-- `ann` with the request pending
abbrev pending : Agent
pending = record asker { waiters = ("m1", []) ∷ [] }

dispatch_all_lem_example :
    (lookup "m1" (dispatch_all polled pending).waiters ≡ some (done ∷ []))
    × ((dispatch_all polled pending).pool ≡ some (note ∷ []))
unfolding is_reply_to is_awaited lookup response_to
dispatch_all_lem_example = dispatch_all_lem polled pending [] [] "m1" refl refl

asker_Reach :
    Reach repr (receive_round (Brokered.messages polled) (begin_request ask (new_agent "ann")))
asker_Reach =
    next (next (initial "ann") (begins (new_agent "ann") ask))
      (receives _ (Brokered.messages polled))

end_request-correlated_example : done.correlation_id ≡ some "m1"
end_request-correlated_example = end_request-correlated repr _ ask done asker_Reach (
    unfold end_request receive_round dispatch_all dispatch_pull give_correlated give begin_request
      lookup insert submit response_to in
    refl)
