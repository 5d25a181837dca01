-- ===== src/Sdk/Requester.antt =====
-- sdk/reply.py and sdk/brokered_request.py: the text that a requester takes from a reply.
use robotsix_agent_comm.Prelude.{String, Option, or_else, if◌then◌else◌, str_eq, ◌≡◌, refl}
use robotsix_agent_comm.Protocol.Value.{Value, null, str, obj, at}
use robotsix_agent_comm.Protocol.Messages.{
  Message, request, response, error, notification, Stamp, response_to, error_to, error_body,
}
use robotsix_agent_comm.Sdk.Responder.{Handled, returned, raised, Responder, reply_with, dispatch}
use robotsix_agent_comm.Sdk.Responder.Replies.{Asks, Handles, dispatch-handled}

-- `show` is `str(value)`.
module _ (show : Value → String) where
  unfoldable reply_value : String → Value → String
  reply_value default null = default
  reply_value default (str s) = if str_eq s "" then default else s
  reply_value default v = show v

  -- `reply_text`
  unfoldable pub reply_text : Value → String → String
  unfolding reply_value
  reply_text (obj body) default = reply_value default (at "reply" body)
  reply_text _ default = default

-- What `request` returns, or the value in the message of the `RuntimeError` that it raises.
pub data Answered : Type 0 where
  text : String → Answered
  runtime_error : Value → Answered

-- the last lines of `request`, with the reply that the agent received
unfoldable pub read_reply : (Value → String) → String → Message → Answered
unfolding reply_text
read_reply show default reply = elim reply.kind [
  | error ↦ runtime_error (at "message" reply.body)
  | request ↦ text (reply_text show (obj reply.body) default)
  | response ↦ text (reply_text show (obj reply.body) default)
  | notification ↦ text (reply_text show (obj reply.body) default)
]

-- the text that stands for a missing one: that of the call, else that of the requester
abbrev pub effective_default : Option String → String → String
effective_default default default_reply = or_else default default_reply

-- what a requester should be told of what a handler did
abbrev pub read_handled : (Value → String) → String → Handled → Answered
read_handled show default (returned body) = text (reply_text show (obj body) default)
read_handled show default (raised s) = runtime_error (str s)

-- What a requester makes of a responder's reply is what the handler did: the text in the "reply" of
-- the body that it returned, and the text of its exception in the `RuntimeError`.
pub read_reply-dispatch :
    (show : Value → String) (default : String) (repr : String → String) (t : Stamp) (r : Responder)
    (m : Message) (kind : String) (o : Handled)
    → Asks m kind
    → Handles r m kind o
    → read_reply show default (dispatch repr t r m) ≡ read_handled show default o
unfolding read_reply reply_with response_to error_to error_body at
read_reply-dispatch show default repr t r m kind (returned body) asks h =
    rw (dispatch-handled repr t r m kind (returned body) asks h) refl
read_reply-dispatch show default repr t r m kind (raised s) asks h =
    rw (dispatch-handled repr t r m kind (raised s) asks h) refl
