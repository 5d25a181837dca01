-- ===== src/Broker/Threads/Queues.antt =====
-- broker/server.py: the mailboxes under all interleavings of the threads.
use mathlib.Core.List.{append-nil, append_assoc}
use robotsix_agent_comm.Prelude.{
  String, List, [], ◌∷◌, ◌++◌, str_eq, eq_iff, if◌then◌else◌, or_else, ◌≡◌, refl, arith,
}
use robotsix_agent_comm.Prelude.Dict
use robotsix_agent_comm.Protocol.Value.{Value}
use robotsix_agent_comm.Broker.State.{Server, Options, new_server}
use robotsix_agent_comm.Broker.State.{log, append_traffic}
use robotsix_agent_comm.Broker.Send.{enqueue, record_traffic}
use robotsix_agent_comm.Broker.Poll.{heartbeat}
use robotsix_agent_comm.Broker.Threads.{
  Act, observe, register_endpoint, unregister_endpoint, open_mailbox, put_message, take_messages,
  close_mailbox, set_capabilities, default_capabilities, drop_capabilities, start_heartbeat,
  restart_heartbeat, renew_heartbeat, drop_heartbeat, record_message, write_log, perform,
}
use robotsix_agent_comm.Broker.Threads.Machine.{
  Event, waiting_in, event, Machine, starting, running, Reach, start, later,
}

-- what one event adds to the messages for an agent, and to those that its polls took
unfoldable pub sent_by : String → Event → List Value → List Value
sent_by a e before = elim e.act [
  | put_message b v ↦ if str_eq b a then before ++ v ∷ [] else before
  | close_mailbox b ↦ if str_eq b a then [] else before
  | _ ↦ before
]

unfoldable pub taken_by : String → Event → List Value → List Value
taken_by a e before = elim e.act [
  | take_messages b ↦ if str_eq b a then before ++ e.found else before
  | close_mailbox b ↦ if str_eq b a then [] else before
  | _ ↦ before
]

-- the messages that were put into an agent's mailbox since it was last removed, oldest first
unfoldable pub sent : String → List Event → List Value
unfolding sent_by
sent a [] = []
sent a (e ∷ history) = sent_by a e (sent a history)

-- the messages that its polls took from it since then
unfoldable pub taken : String → List Event → List Value
unfolding taken_by
taken a [] = []
taken a (e ∷ history) = taken_by a e (taken a history)

module _ (a : String) (s : Server) (before gone : List Value) where
  event-waiting :
      (act : Act)
      → before ≡ gone ++ waiting_in s a
      → sent_by a (event act s) before
        ≡ taken_by a (event act s) gone ++ waiting_in (perform act s) a
  unfolding sent_by taken_by perform enqueue heartbeat record_traffic append_traffic log
  event-waiting observe h = h
  event-waiting (register_endpoint e) h = h
  event-waiting (unregister_endpoint b) h = h
  event-waiting (open_mailbox b) h =
      ground (arith, h, eq_iff b a, Dict.lookup-set_default b a [] s.mailboxes)
  event-waiting (put_message b v) h = ground (
    arith,
    h,
    eq_iff b a,
    Dict.lookup-insert b a (or_else (Dict.lookup b s.mailboxes) [] ++ v ∷ []) s.mailboxes,
    append_assoc gone (waiting_in s a) (v ∷ []),
  )
  event-waiting (take_messages b) h = ground (
    arith,
    h,
    eq_iff b a,
    Dict.lookup-insert b a [] s.mailboxes,
    append-nil (gone ++ waiting_in s a),
    append-nil gone,
  )
  event-waiting (close_mailbox b) h =
      ground (arith, h, eq_iff b a, Dict.lookup-remove b a s.mailboxes)
  event-waiting (set_capabilities b d) h = h
  event-waiting (default_capabilities b) h = h
  event-waiting (drop_capabilities b) h = h
  event-waiting (start_heartbeat now g is_new) h = h
  event-waiting (restart_heartbeat now b) h = h
  event-waiting (renew_heartbeat now b) h = ground (arith, h)
  event-waiting (drop_heartbeat b) h = h
  event-waiting (record_message w m d n) h = h
  event-waiting (write_log wall x b path n detail) h = h

-- At every moment of every interleaving of the threads, since the start of the daemon, the messages
-- that were put into an agent's mailbox since it was last removed are those that polls have taken from
-- it since, followed by those that wait in it: none is lost, doubled or moved past another.
pub sent-taken :
    (o : Options) (m : Machine)
    → Reach o m
    → (a : String) → sent a m.history ≡ taken a m.history ++ waiting_in m.server a
unfolding sent taken new_server Dict.lookup
sent-taken o m start a = refl
sent-taken o m (later {m = before} p (starting i answer j e)) a = sent-taken o before p a
sent-taken o m (later {m = before} p (running i act next e)) a =
    event-waiting a before.server (sent a before.history) (taken a before.history) act
      (sent-taken o before p a)
