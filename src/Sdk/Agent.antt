-- ===== src/Sdk/Agent.antt =====
-- sdk/agent.py: an agent that receives from its mailbox (`pull=True`), one step at a time. Its
-- threads share the table of waiters, the inbox and the queue of the handler pool.
pub mod Answers
pub mod Waiting
pub mod Sorting
use robotsix_agent_comm.Prelude.{
  String, Bool, true, false, Option, none, some, List, [], ◌∷◌, ◌++◌, if◌then◌else◌,
}
use robotsix_agent_comm.Prelude.Dict.{Dict, lookup, insert, remove}
use robotsix_agent_comm.Prelude.Text.{concat}
use robotsix_agent_comm.Protocol.Value.{Fields, end}
use robotsix_agent_comm.Protocol.Errors.{Fault}
use robotsix_agent_comm.Protocol.Messages.{
  Message, MessageType, request, response, error, notification, Stamp, error_to,
}
use robotsix_agent_comm.Transport.Endpoints.{TransportError, DeliveryError}
use robotsix_agent_comm.Transport.Router
use robotsix_agent_comm.Transport.Router.{Routed}
use robotsix_agent_comm.Brokered
use robotsix_agent_comm.Brokered.{Sent, Received}

-- What `_handle` comes to: a reply or none, or an exception of the callback.
pub data Handled : Type 0 where
  replied : Option Message → Handled
  raised : Handled

-- A callback for notifications tells whether it raises. `waiters` has the slot of each waiter, whose
-- event is set when the slot is not empty. `pool` is the queue of the handler pool, `none` when there
-- is no pool. `is_started` is `_recv_thread is not None`, and `is_alive` that this thread still runs.
pub record Agent : Type 0 where
  pub agent_id : String
  pub request_handler : Option (Message → Handled)
  pub notification_handler : Option (Message → Bool)
  pub inbox : List Message
  pub waiters : Dict (List Message)
  pub pool : Option (List Message)
  pub is_started : Bool
  pub is_alive : Bool

abbrev pub new_agent : String → Agent
new_agent agent_id = record {
  agent_id = agent_id;
  request_handler = none;
  notification_handler = none;
  inbox = [];
  waiters = [];
  pool = none;
  is_started = false;
  is_alive = false;
}

unfoldable pub on_request : (Message → Handled) → Agent → Agent
on_request handler a = record a { request_handler = some handler }

unfoldable pub on_notification : (Message → Bool) → Agent → Agent
on_notification handler a = record a { notification_handler = some handler }

-- `receive_message`; `none` stands for the `TransportTimeoutError`
unfoldable pub receive_message : Agent → Option Message × Agent
receive_message a = elim a.inbox [ [] ↦ (none, a) | m ∷ ms ↦ (some m, record a { inbox = ms }) ]

module _ (repr : String → String) (t : Stamp) where
  unfoldable pub handle_request : Agent → Message → Option (Message → Handled) → Handled
  handle_request a m (some handler) = handler m
  handle_request a m none = replied (
      some (
        error_to t m "no_handler"
          (concat "agent " (concat (repr a.agent_id) " has no request handler")) (some a.agent_id)))

  unfoldable pub handle_notification : Message → Option (Message → Bool) → Handled
  handle_notification m none = replied none
  handle_notification m (some handler) = if handler m then raised else replied none

  unfoldable pub handle_kind : Agent → Message → MessageType → Handled
  unfolding handle_request handle_notification
  handle_kind a m request = handle_request a m a.request_handler
  handle_kind a m notification = handle_notification m a.notification_handler
  handle_kind a m _ = replied none

  -- `_handle`, without the line that puts the message in the inbox
  unfoldable pub handle : Agent → Message → Handled
  unfolding handle_kind
  handle a m = handle_kind a m m.kind

  unfoldable pub error_reply : Agent → Message → MessageType → Option Message
  error_reply a m request =
      some (error_to t m "handler_error" "internal handler error" (some a.agent_id))
  error_reply a m _ = none

  unfoldable pub reply_or_error : Agent → Message → Handled → Option Message
  unfolding error_reply
  reply_or_error a m (replied reply) = reply
  reply_or_error a m raised = error_reply a m m.kind

  -- `_run_handler`: the agent after it, and the reply that it posts; what comes of the post is
  -- suppressed
  unfoldable pub run_handler : Agent → Message → Agent × Option Message
  unfolding handle reply_or_error
  run_handler a m = (record a { inbox = a.inbox ++ m ∷ [] }, reply_or_error a m (handle a m))

-- the message for the handler pool, dropped where there is none
unfoldable pub submit : Message → Agent → Agent
submit m a = elim a.pool [ none ↦ a | some queue ↦ record a { pool = some (queue ++ m ∷ []) } ]

-- the message for a waiter, if there is one
unfoldable pub give : String → Message → Option (List Message) → Agent → Agent
unfolding submit
give id m none a = submit m a
give id m (some slot) a = record a { waiters = insert id (slot ++ m ∷ []) a.waiters }

unfoldable pub give_correlated : Message → Option String → Agent → Agent
unfolding give
give_correlated m none a = submit m a
give_correlated m (some id) a = give id m (lookup id a.waiters) a

-- `_dispatch_pull`
unfoldable pub dispatch_pull : Message → Agent → Agent
unfolding give_correlated
dispatch_pull m a = give_correlated m m.correlation_id a

unfoldable pub dispatch_all : List Message → Agent → Agent
dispatch_all [] a = a
dispatch_all (m ∷ ms) a = dispatch_all ms (dispatch_pull m a)

-- One round of `_recv_loop` with what `receive` returns or raises: a `TransportError` is waited out,
-- another exception ends the thread.
unfoldable pub receive_round : Received → Agent → Agent
unfolding dispatch_all
receive_round (Brokered.messages ms) a = dispatch_all ms a
receive_round (Brokered.failed e) a = a
receive_round (Brokered.crashed f) a = record a { is_alive = false }

-- a worker of the pool that takes the next message
unfoldable pub run_next : (String → String) → Stamp → Agent → Agent × Option Message
run_next repr t a = elim a.pool [
  | none ↦ (a, none)
  | some [] ↦ (a, none)
  | some (m ∷ queue) ↦ run_handler repr t (record a { pool = some queue }) m
]

-- `_send_request_pull` up to the call of `send`
unfoldable pub begin_request : Message → Agent → Agent
begin_request m a = record a { waiters = insert m.message_id [] a.waiters }

-- What a request ends with: the reply, the timeout, or what `send` raises.
pub data Ended : Type 0 where
  reply : Message → Ended
  timed_out : Ended
  not_sent : Ended

abbrev pub first_of : Option (List Message) → Ended
first_of none = timed_out
first_of (some []) = timed_out
first_of (some (m ∷ ms)) = reply m

-- the end of `_send_request_pull`, when the event is set or the wait is over
unfoldable pub end_request : Message → Agent → Agent × Ended
end_request m a =
    (record a { waiters = remove m.message_id a.waiters }, first_of (lookup m.message_id a.waiters))

-- its end where `send` raises
unfoldable pub fail_request : Message → Agent → Agent × Ended
fail_request m a = (record a { waiters = remove m.message_id a.waiters }, not_sent)

-- `start` and `stop` in pull mode, besides the registry
unfoldable pub start : Agent → Agent
start a =
    if a.is_started then a else record a { pool = some []; is_started = true; is_alive = true }

unfoldable pub stop : Agent → Agent
stop a = if a.is_started then record a { pool = none; is_started = false; is_alive = false } else a

-- What `send_request` returns or raises without `pull`; `no_reply` is the `DeliveryError` for none.
pub data Requested : Type 0 where
  got : Message → Requested
  agent_not_found : Requested
  no_reply : Requested
  delivery_error : DeliveryError → Requested
  crash : Fault → Requested

-- `send_request` without `pull`, by what the router does
unfoldable pub send_request : Routed → Requested
send_request (Router.reply none) = no_reply
send_request (Router.reply (some m)) = got m
send_request Router.agent_not_found = agent_not_found
send_request (Router.delivery_error e) = delivery_error e
send_request (Router.crash f) = crash f
