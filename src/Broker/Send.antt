-- ===== src/Broker/Send.antt =====
-- broker/server.py: `_route_send`, `_record_traffic` and `_handle_send`.
use robotsix_agent_comm.Prelude.{
  String, ℕ, ltb, Bool, false, not, ◌&&◌, none, some, [], ◌∷◌, ◌++◌, str_eq, if◌then◌else◌, or_else,
}
use robotsix_agent_comm.Prelude.Dict
use robotsix_agent_comm.Prelude.Int.{pos}
use robotsix_agent_comm.Prelude.Text.{concat}
use robotsix_agent_comm.Protocol.Value.{Value, int, str, at, truthy}
use robotsix_agent_comm.Protocol.Errors.{ok, err, fault, type_error}
use robotsix_agent_comm.Protocol.Messages.{Message, error_to}
use robotsix_agent_comm.Protocol.Serialization.{serialize, deserialize}
use robotsix_agent_comm.Transport.Endpoints.{DeliveryError, delivery_failed, unknown_recipient}
use robotsix_agent_comm.Transport.Registry.{found, not_found, not_hashable, lookup_value}
use robotsix_agent_comm.Transport.Router
use robotsix_agent_comm.Transport.Router.{Routed, route}
use robotsix_agent_comm.Broker.State.{Server, Disposition, log, append_traffic}
use robotsix_agent_comm.Broker.Http.{
  Request, World, Answer, response, crash, empty, json, error_response,
}
use robotsix_agent_comm.Broker.Register.{too_large, text_or_empty}

-- `_record_traffic`
unfoldable pub record_traffic : World → Message → Disposition → ℕ → Server → Server
record_traffic w m disposition status = append_traffic (record {
  timestamp = w.wall;
  source = m.metadata.sender;
  destination = m.metadata.recipient;
  kind = m.kind;
  topic = at "topic" m.metadata.extra;
  message_id = m.message_id;
  correlation_id = m.correlation_id;
  body_size_bytes = w.dumps_length m.body;
  disposition = disposition;
  status = status;
})

-- the error envelope for a recipient that the registry lacks
unfoldable pub unknown_recipient_error : World → Message → Value
unknown_recipient_error w m = serialize (
    error_to w.stamp m unknown_recipient
      (concat "unknown recipient: " (w.show m.metadata.recipient)) none)

-- `str(exc)` of a `DeliveryError`
abbrev pub delivery_text : World → DeliveryError → String
delivery_text w e =
    concat "delivery failed after " (concat (w.show (int (pos e.attempts))) " attempt(s)")

-- What `_route_send` returns, or the exception that it lets through.
unfoldable pub route_send : World → Message → Server → Answer
unfolding unknown_recipient_error
route_send w m s = elim (route s.registry w.send s.retry_policy m) [
  | Router.agent_not_found ↦ response 404 (json (unknown_recipient_error w m))
  | Router.delivery_error e ↦
      response 502 (json (serialize (error_to w.stamp m delivery_failed (delivery_text w e) none)))
  | Router.reply none ↦ response 204 empty
  | Router.reply (some reply) ↦ response 200 (json (serialize reply))
  | Router.crash f ↦ crash f
]

-- the recipient's mailbox with one message more
unfoldable pub enqueue : String → Value → Server → Server
enqueue recipient payload s = record s {
  mailboxes =
      Dict.insert recipient (or_else (Dict.lookup recipient s.mailboxes) [] ++ payload ∷ [])
        s.mailboxes;
}

-- a refusal that is recorded as traffic and in the audit log
unfoldable pub refuse_send :
    World → Message → String → Disposition → ℕ → Answer → String → Server → Answer × Server
unfolding record_traffic
refuse_send w m authenticated disposition status answer detail s = (
  answer,
  log w.wall "send" authenticated "/messages" status detail
      (record_traffic w m disposition status s),
)

-- the branch for a mailbox recipient
unfoldable pub queue_message : World → Message → String → String → Server → Answer × Server
unfolding enqueue record_traffic
queue_message w m authenticated recipient s = (
  response 202 empty,
  log w.wall "send" authenticated "/messages" 202 (concat "queued for mailbox " recipient)
      (record_traffic w m Disposition.queued 202 (enqueue recipient (serialize m) s)),
)

-- the branch for a recipient that the broker dials; an exception of the transport that is no
-- transport error leaves the handler before anything is recorded
unfoldable pub forward : World → Message → String → Server → Answer × Server
unfolding route_send record_traffic
forward w m authenticated s = elim (route_send w m s) [
  | crash f ↦ (crash f, s)
  | response status body ↦ (
    response status body,
    log w.wall "send" authenticated "/messages" status
        (concat "recipient=" (w.show m.metadata.recipient))
        (record_traffic w m Disposition.routed status s),
  )
]

-- `not isinstance(...)` aside, whether a value is the given text
abbrev pub is_text : Value → String → Bool
is_text (str s) t = str_eq s t
is_text _ t = false

-- the part of `_handle_send` after the checks on sender and recipient
unfoldable pub dispatch_message : World → Message → String → Server → Answer × Server
unfolding refuse_send queue_message forward unknown_recipient_error
dispatch_message w m authenticated s = elim (lookup_value m.metadata.recipient s.registry) [
  | not_hashable ↦ (crash type_error, s)
  | not_found ↦
      refuse_send w m authenticated Disposition.unknown_recipient 404
        (response 404 (json (unknown_recipient_error w m)))
        (concat "unknown recipient: " (w.show m.metadata.recipient)) s
  | found endpoint ↦
      if endpoint.mailbox
      then queue_message w m authenticated (text_or_empty m.metadata.recipient) s
      else forward w m authenticated s
]

-- the part of `_handle_send` after the deserialization
unfoldable pub send_message : World → Message → String → Server → Answer × Server
unfolding refuse_send dispatch_message
send_message w m authenticated s =
    if not (str_eq authenticated "") && not (is_text m.metadata.sender authenticated)
    then refuse_send w m authenticated Disposition.rejected 403
        (error_response 403 "sender does not match authenticated agent")
        "sender does not match authenticated agent" s
    else if truthy m.metadata.recipient
    then dispatch_message w m authenticated s
    else refuse_send w m authenticated Disposition.rejected 400
        (error_response 400 "metadata.recipient is required") "missing recipient" s

-- `_handle_send`
unfoldable pub handle_send : World → Request → String → Server → Answer × Server
unfolding send_message
handle_send w r authenticated s =
    if ltb s.max_body_size r.content_length
    then (too_large s.max_body_size r.content_length, s)
    else elim (deserialize r.body) [
      | ok m ↦ send_message w m authenticated s
      | fault f ↦ (crash f, s)
      | err e ↦ (
        error_response 400 (w.describe e),
        log w.wall "send" authenticated "/messages" 400
            (concat "deserialization error: " (w.describe e)) s,
      )
    ]
