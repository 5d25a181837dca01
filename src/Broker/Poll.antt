-- ===== src/Broker/Poll.antt =====
-- broker/server.py: `_auto_register_mailbox` and `_handle_poll`.
pub mod Waiting
use Prim.Native.Nat.{min}
use robotsix_agent_comm.Prelude.{
  String, ℕ, ◌+◌, ◌*◌, leb, Bool, true, false, not, Option, none, some, List, [], ◌∷◌, str_eq,
  if◌then◌else◌, is_some, length,
}
use robotsix_agent_comm.Prelude.Int.{ℤ, pos, negsuc}
use robotsix_agent_comm.Prelude.Dict
use robotsix_agent_comm.Prelude.Text.{concat}
use robotsix_agent_comm.Protocol.Value.{Value, int, arr, obj, Items, nil, cons, end, field}
use robotsix_agent_comm.Transport.Endpoints.{Endpoint, default_message_path}
use robotsix_agent_comm.Transport.Registry
use robotsix_agent_comm.Broker.RateLimit.{second}
use robotsix_agent_comm.Broker.State.{Server, log}
use robotsix_agent_comm.Broker.Http.{
  Request, World, Answer, response, json, error_response, query_or,
}

abbrev pub max_poll_wait : ℕ
max_poll_wait = 30 * second

abbrev pub mailbox_endpoint : String → Endpoint
mailbox_endpoint agent_id = record {
  agent_id = agent_id;
  host = "mailbox";
  port = pos 0;
  scheme = "http";
  path = default_message_path;
  mailbox = true;
}

-- `_auto_register_mailbox`
unfoldable pub auto_register : World → String → Server → Server
auto_register w agent_id s =
    log w.wall "auto-register" agent_id "/messages" 200 "mailbox re-registered on poll" (record s {
      registry = Registry.register (mailbox_endpoint agent_id) s.registry;
      mailboxes = Dict.set_default agent_id [] s.mailboxes;
      capabilities = Dict.set_default agent_id end s.capabilities;
      last_heartbeat = Dict.insert agent_id w.now s.last_heartbeat;
      ttl_seconds = Dict.set_default agent_id s.default_ttl_seconds s.ttl_seconds;
    })

-- the heartbeat of a poll
unfoldable pub heartbeat : ℕ → String → Server → Server
heartbeat now agent_id s =
    if is_some (Dict.lookup agent_id s.ttl_seconds)
    then record s { last_heartbeat = Dict.insert agent_id now s.last_heartbeat }
    else s

-- `max(0.0, min(30.0, float(wait)))`, or 25 seconds for a text that is no number
unfoldable pub poll_wait : Option ℤ → ℕ
poll_wait none = 25 * second
poll_wait (some (pos n)) = min max_poll_wait n
poll_wait (some (negsuc n)) = 0

-- an element stands for the JSON text of a message
abbrev pub items_of : List Value → Items
items_of [] = nil
items_of (v ∷ vs) = cons v (items_of vs)

abbrev pub messages_response : List Value → Answer
messages_response vs = response 200 (json (obj (field "messages" (arr (items_of vs)) end)))

-- `messages = list(mbox); mbox.clear()` and the answer
unfoldable pub deliver : World → String → List Value → Server → Answer × Server
deliver w poll_id messages s = (
  messages_response messages,
  log w.wall "poll" poll_id "/messages" 200
      (concat "delivered=" (w.show (int (pos (length messages)))))
      (record s { mailboxes = Dict.insert poll_id [] s.mailboxes }),
)

-- One return of `mailbox_cond.wait`: the clock then, and the server as the other threads left it.
pub record Wake : Type 0 where
  pub now : ℕ
  pub server : Server

-- A poll has answered, or still waits after the wakes that it was given.
pub data Polled : Type 0 where
  answered : Answer → Server → Polled
  waiting : Server → Polled

-- the server that a poll leaves behind, whether it has answered or still waits
abbrev pub server_of : Polled → Server
server_of (answered a s) = s
server_of (waiting s) = s

abbrev pub polled : Answer × Server → Polled
polled (a, s) = answered a s

-- One look at the mailbox under `mailbox_cond`; `next` is what follows a wait.
unfoldable pub look : World → String → ℕ → ℕ → Polled → Server → Polled
unfolding deliver
look w poll_id deadline now next s = elim (Dict.lookup poll_id s.mailboxes) [
  | none ↦ answered (messages_response []) s
  | some (m ∷ ms) ↦ polled (deliver w poll_id (m ∷ ms) s)
  | some [] ↦ if leb deadline now then polled (deliver w poll_id [] s) else next
]

-- The block under `mailbox_cond`: a wait releases the lock, and the look after a wake sees what the
-- other threads did in between.
unfoldable pub wait_for_messages : World → String → ℕ → ℕ → List Wake → Server → Polled
unfolding look
wait_for_messages w poll_id deadline now [] s = look w poll_id deadline now (waiting s) s
wait_for_messages w poll_id deadline now (wake ∷ wakes) s =
    look w poll_id deadline now (wait_for_messages w poll_id deadline wake.now wakes wake.server) s

-- the mailbox of a caller that the broker does not know is made anew
unfoldable pub self_heal : World → String → Server → Server
unfolding auto_register
self_heal w poll_id s =
    if is_some (Dict.lookup poll_id s.mailboxes) then s else auto_register w poll_id s

-- the caller: the authenticated agent, or `?agent_id=` where authentication is off
abbrev pub caller : Request → String → String
caller r agent_id = if str_eq agent_id "" then query_or "agent_id" "" r else agent_id

-- the server that the wait begins with
unfoldable pub begin_poll : World → String → Server → Server
unfolding self_heal heartbeat
begin_poll w poll_id s = heartbeat w.now poll_id (self_heal w poll_id s)

-- `_handle_poll`, with the wakes that its waits meet
unfoldable pub handle_poll : World → Request → String → List Wake → Server → Polled
unfolding begin_poll poll_wait wait_for_messages
handle_poll w r agent_id wakes s =
    let poll_id = caller r agent_id in
    if str_eq poll_id ""
    then answered (error_response 400 "agent_id required (auth token or ?agent_id=)") s
    else wait_for_messages w poll_id (w.now + poll_wait (w.float_of (query_or "wait" "25" r))) w.now
        wakes (begin_poll w poll_id s)
