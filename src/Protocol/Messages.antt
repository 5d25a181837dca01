-- ===== src/Protocol/Messages.antt =====
-- protocol/messages.py: the envelope, its kinds, and the replies to a message.
use robotsix_agent_comm.Prelude.{String, Option, none, some, str_eq, if◌then◌else◌}
use robotsix_agent_comm.Protocol.Value.{Value, null, str, Fields, end, field}

abbrev pub protocol_version : String
protocol_version = "1.0"

pub data MessageType : Type 0 where
  request response error notification : MessageType

-- the member's text
unfoldable pub type_name : MessageType → String
type_name request = "request"
type_name response = "response"
type_name error = "error"
type_name notification = "notification"

-- `MessageType(v)`; `none` stands for the `ValueError`
unfoldable pub message_type_of : Value → Option MessageType
message_type_of (str s) =
    if str_eq s "request"
    then some request
    else if str_eq s "response"
    then some response
    else if str_eq s "error"
    then some error
    else if str_eq s "notification"
    then some notification
    else none
message_type_of _ = none

-- `recipient` is a value: `from_dict` takes whatever the envelope holds, and `null` is `None`. So
-- `sender` is one, since a reply takes it from there.
pub record Metadata : Type 0 where
  pub sender : Value
  pub recipient : Value
  pub timestamp : String
  pub extra : Fields

-- `Message` with its subclass told by `kind`; `correlation_id` is `None` by construction for a
-- `Request` and a `Notification`.
pub record Message : Type 0 where
  pub kind : MessageType
  pub metadata : Metadata
  pub message_id : String
  pub version : String
  pub body : Fields
  pub correlation_id : Option String

-- What `datetime.now(UTC).isoformat()` and `uuid4().hex` give to one message.
pub record Stamp : Type 0 where
  pub now : String
  pub fresh_id : String

-- `Metadata.create`
unfoldable pub create_metadata : Stamp → Value → Value → Fields → Metadata
create_metadata t sender recipient extra = record {
  sender = sender;
  recipient = recipient;
  timestamp = t.now;
  extra = extra;
}

-- The sender of a reply: `sender`, else the recipient of the message, else its sender.
unfoldable pub reply_sender : Message → Option String → Value
reply_sender m (some s) = str s
reply_sender m none = elim m.metadata.recipient [ null ↦ m.metadata.sender | v ↦ v ]

-- `_build_reply_metadata`
unfoldable pub build_reply_metadata : Stamp → Message → Option String → Fields → Metadata
unfolding create_metadata reply_sender
build_reply_metadata t m sender extra =
    create_metadata t (reply_sender m sender) m.metadata.sender extra

-- `Response.to(request, body=body, sender=sender)`; its `correlation_id` is never `None`, so that
-- `__post_init__` does not raise
unfoldable pub response_to : Stamp → Message → Fields → Option String → Message
unfolding build_reply_metadata
response_to t m body sender = record {
  kind = response;
  metadata = build_reply_metadata t m sender end;
  message_id = t.fresh_id;
  version = protocol_version;
  body = body;
  correlation_id = some m.message_id;
}

-- `error_body(code, message)`, with no further details
unfoldable pub error_body : String → String → Fields
error_body code message = field "code" (str code) (field "message" (str message) end)

-- `Error.to(request, code=code, message=message, sender=sender)`
unfoldable pub error_to : Stamp → Message → String → String → Option String → Message
unfolding build_reply_metadata error_body
error_to t m code message sender = record {
  kind = error;
  metadata = build_reply_metadata t m sender end;
  message_id = t.fresh_id;
  version = protocol_version;
  body = error_body code message;
  correlation_id = some m.message_id;
}
