-- ===== src/Broker/Threads.antt =====
-- broker/server.py: a handler or the sweep as a thread, cut where it takes a lock. What stands under
-- one lock is one act; between two acts any other thread may run.
pub mod Enrolment
pub mod Sending
pub mod Polling
pub mod Jobs
pub mod Alone
pub mod Machine
pub mod Queues
pub mod Tables
pub mod Races
pub mod Unswept
use robotsix_agent_comm.Prelude.{String, ℕ, Bool, Option, none, some, List, [], ◌∷◌}
use robotsix_agent_comm.Prelude.Dict
use robotsix_agent_comm.Protocol.Value.{Value, Fields, end}
use robotsix_agent_comm.Protocol.Messages.{Message}
use robotsix_agent_comm.Transport.Endpoints.{Endpoint}
use robotsix_agent_comm.Transport.Registry
use robotsix_agent_comm.Broker.State.{Server, Disposition, log}
use robotsix_agent_comm.Broker.Http.{World, Answer}
use robotsix_agent_comm.Broker.Register.{Registration, ttl_after}
use robotsix_agent_comm.Broker.Send.{record_traffic, enqueue}
use robotsix_agent_comm.Broker.Poll.{heartbeat}

-- What a thread does under one lock; `observe` only reads.
pub data Act : Type 0 where
  observe : Act
  register_endpoint : Endpoint → Act
  unregister_endpoint : String → Act
  open_mailbox : String → Act
  put_message : String → Value → Act
  take_messages : String → Act
  close_mailbox : String → Act
  set_capabilities : String → Fields → Act
  default_capabilities : String → Act
  drop_capabilities : String → Act
  start_heartbeat : ℕ → Registration → Bool → Act
  restart_heartbeat : ℕ → String → Act
  renew_heartbeat : ℕ → String → Act
  drop_heartbeat : String → Act
  record_message : World → Message → Disposition → ℕ → Act
  write_log : ℕ → String → String → String → ℕ → String → Act

-- `messages = list(mbox); mbox.clear()`; nothing is there to take from an empty mailbox or none
abbrev emptied : String → Option (List Value) → Server → Server
emptied a none s = s
emptied a (some []) s = s
emptied a (some (m ∷ ms)) s = record s { mailboxes = Dict.insert a [] s.mailboxes }

unfoldable pub perform : Act → Server → Server
perform observe s = s
perform (register_endpoint e) s = record s { registry = Registry.register e s.registry }
perform (unregister_endpoint a) s = record s { registry = Registry.unregister_quietly a s.registry }
perform (open_mailbox a) s = record s { mailboxes = Dict.set_default a [] s.mailboxes }
perform (put_message a v) s = enqueue a v s
perform (take_messages a) s = emptied a (Dict.lookup a s.mailboxes) s
perform (close_mailbox a) s = record s { mailboxes = Dict.remove a s.mailboxes }
perform (set_capabilities a d) s = record s { capabilities = Dict.insert a d s.capabilities }
perform (default_capabilities a) s = record s {
  capabilities = Dict.set_default a end s.capabilities;
}
perform (drop_capabilities a) s = record s { capabilities = Dict.remove a s.capabilities }
perform (start_heartbeat now g is_new) s = record s {
  last_heartbeat = Dict.insert g.agent_id now s.last_heartbeat;
  ttl_seconds = ttl_after g is_new s;
}
perform (restart_heartbeat now a) s = record s {
  last_heartbeat = Dict.insert a now s.last_heartbeat;
  ttl_seconds = Dict.set_default a s.default_ttl_seconds s.ttl_seconds;
}
perform (renew_heartbeat now a) s = heartbeat now a s
perform (drop_heartbeat a) s = record s {
  last_heartbeat = Dict.remove a s.last_heartbeat;
  ttl_seconds = Dict.remove a s.ttl_seconds;
}
perform (record_message w m disposition status) s = record_traffic w m disposition status s
perform (write_log wall action agent_id path status detail) s =
    log wall action agent_id path status detail s

-- The rest of a thread's run: an answer, or an act and what follows the server that it met. `done none`
-- is the end of a sweep, or a poll that still waits after the clock readings that it was given.
pub data Thread : Type 0 where
  done : Option Answer → Thread
  under_lock : Act → (Server → Thread) → Thread

-- acts one after the other, whatever they meet
unfoldable pub then_do : List Act → Thread → Thread
then_do [] t = t
then_do (a ∷ acts) t = under_lock a (λ _. then_do acts t)

-- a thread with the server to itself
unfoldable pub alone : Thread → Server → Option Answer × Server
unfolding perform
alone (done answer) s = (answer, s)
alone (under_lock a next) s = alone (next s) (perform a s)

abbrev pub return : Answer → Thread
return a = done (some a)
