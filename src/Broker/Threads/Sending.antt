-- ===== src/Broker/Threads/Sending.antt =====
-- broker/server.py: `_handle_send` as a thread.
use robotsix_agent_comm.Prelude.{String, ℕ, ltb, not, ◌&&◌, List, [], ◌∷◌, str_eq, if◌then◌else◌}
use robotsix_agent_comm.Prelude.Text.{concat}
use robotsix_agent_comm.Protocol.Value.{truthy}
use robotsix_agent_comm.Protocol.Errors.{ok, err, fault, type_error}
use robotsix_agent_comm.Protocol.Messages.{Message}
use robotsix_agent_comm.Protocol.Serialization.{serialize, deserialize}
use robotsix_agent_comm.Transport.Registry.{found, not_found, not_hashable, lookup_value}
use robotsix_agent_comm.Broker.State.{Disposition}
use robotsix_agent_comm.Broker.Http.{
  Request, World, Answer, response, crash, empty, json, error_response,
}
use robotsix_agent_comm.Broker.Register.{too_large, text_or_empty}
use robotsix_agent_comm.Broker.Send.{route_send, unknown_recipient_error, is_text}
use robotsix_agent_comm.Broker.Threads.{
  Act, observe, put_message, record_message, write_log, Thread, under_lock, then_do, return,
}

-- a refusal, and what every other answer records
abbrev pub recorded : World → Message → String → Disposition → ℕ → String → List Act
recorded w m authenticated disposition status detail =
    record_message w m disposition status
    ∷ write_log w.wall "send" authenticated "/messages" status detail
    ∷ []

abbrev pub refuse_thread : World → Message → String → Disposition → ℕ → Answer → String → Thread
refuse_thread w m authenticated disposition status a detail =
    then_do (recorded w m authenticated disposition status detail) (return a)

-- the branch for a mailbox recipient
unfoldable pub queue_thread : World → Message → String → String → Thread
unfolding then_do
queue_thread w m authenticated recipient =
    then_do
      (put_message recipient (serialize m)
        ∷ recorded w m authenticated Disposition.queued 202
            (concat "queued for mailbox " recipient))
      (return (response 202 empty))

-- the branch for a recipient that the broker dials; `route` looks the recipient up anew
unfoldable pub forward_thread : World → Message → String → Thread
unfolding then_do
forward_thread w m authenticated = under_lock observe (λ s. elim (route_send w m s) [
  | crash f ↦ return (crash f)
  | response status body ↦
      then_do
        (recorded w m authenticated Disposition.routed status
          (concat "recipient=" (w.show m.metadata.recipient)))
        (return (response status body))
])

-- the part of `_handle_send` after the checks on sender and recipient
unfoldable pub dispatch_thread : World → Message → String → Thread
unfolding then_do queue_thread forward_thread
dispatch_thread w m authenticated = under_lock observe (λ s.
    elim (lookup_value m.metadata.recipient s.registry) [
      | not_hashable ↦ return (crash type_error)
      | not_found ↦
          refuse_thread w m authenticated Disposition.unknown_recipient 404
            (response 404 (json (unknown_recipient_error w m)))
            (concat "unknown recipient: " (w.show m.metadata.recipient))
      | found endpoint ↦
          if endpoint.mailbox
          then queue_thread w m authenticated (text_or_empty m.metadata.recipient)
          else forward_thread w m authenticated
    ])

unfoldable pub send_message_thread : World → Message → String → Thread
unfolding then_do dispatch_thread
send_message_thread w m authenticated =
    if not (str_eq authenticated "") && not (is_text m.metadata.sender authenticated)
    then refuse_thread w m authenticated Disposition.rejected 403
        (error_response 403 "sender does not match authenticated agent")
        "sender does not match authenticated agent"
    else if truthy m.metadata.recipient
    then dispatch_thread w m authenticated
    else refuse_thread w m authenticated Disposition.rejected 400
        (error_response 400 "metadata.recipient is required") "missing recipient"

-- `_handle_send`
unfoldable pub send_thread : World → Request → String → Thread
unfolding then_do send_message_thread
send_thread w r authenticated = under_lock observe (λ s.
    if ltb s.max_body_size r.content_length
    then return (too_large s.max_body_size r.content_length)
    else elim (deserialize r.body) [
      | ok m ↦ send_message_thread w m authenticated
      | fault f ↦ return (crash f)
      | err e ↦
          then_do
            (write_log w.wall "send" authenticated "/messages" 400
                (concat "deserialization error: " (w.describe e))
              ∷ [])
            (return (error_response 400 (w.describe e)))
    ])
