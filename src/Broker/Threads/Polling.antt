-- ===== src/Broker/Threads/Polling.antt =====
-- broker/server.py: `_handle_poll` as a thread.
use robotsix_agent_comm.Prelude.{
  String, ℕ, ◌+◌, length, leb, Option, none, some, List, [], ◌∷◌, ◌++◌, str_eq, if◌then◌else◌,
  is_some,
}
use robotsix_agent_comm.Prelude.Dict
use robotsix_agent_comm.Prelude.Text.{concat}
use robotsix_agent_comm.Protocol.Value.{Value, int}
use robotsix_agent_comm.Prelude.Int.{pos}
use robotsix_agent_comm.Broker.Http.{Request, World, error_response, query_or}
use robotsix_agent_comm.Broker.Poll.{mailbox_endpoint, messages_response, poll_wait, caller}
use robotsix_agent_comm.Broker.Threads.{
  Act, observe, register_endpoint, open_mailbox, take_messages, default_capabilities,
  restart_heartbeat, renew_heartbeat, write_log, Thread, done, under_lock, then_do, return,
}

-- `_auto_register_mailbox`
abbrev pub auto_register_acts : World → String → List Act
auto_register_acts w a =
    register_endpoint (mailbox_endpoint a)
    ∷ open_mailbox a
    ∷ default_capabilities a
    ∷ restart_heartbeat w.now a
    ∷ write_log w.wall "auto-register" a "/messages" 200 "mailbox re-registered on poll"
    ∷ []

abbrev pub deliver_thread : World → String → List Value → Thread
deliver_thread w a messages =
    then_do
      (write_log w.wall "poll" a "/messages" 200
          (concat "delivered=" (w.show (int (pos (length messages)))))
        ∷ [])
      (return (messages_response messages))

-- what a look at the mailbox leads to; `next` is what follows a wait
abbrev pub look_thread : World → String → ℕ → ℕ → Thread → Option (List Value) → Thread
look_thread w a deadline now next none = return (messages_response [])
look_thread w a deadline now next (some (m ∷ ms)) = deliver_thread w a (m ∷ ms)
look_thread w a deadline now next (some []) =
    if leb deadline now then deliver_thread w a [] else next

-- The looks of a poll, with the clock at the return of each wait. The lock is free during a wait.
unfoldable pub wait_thread : World → String → ℕ → ℕ → List ℕ → Thread
unfolding then_do
wait_thread w a deadline now [] =
    under_lock (take_messages a)
      (λ s. look_thread w a deadline now (done none) (Dict.lookup a s.mailboxes))
wait_thread w a deadline now (clock ∷ clocks) =
    let next = wait_thread w a deadline clock clocks in
    under_lock (take_messages a)
      (λ s. look_thread w a deadline now next (Dict.lookup a s.mailboxes))

-- `_handle_poll`
unfoldable pub poll_thread : World → Request → String → List ℕ → Thread
unfolding then_do wait_thread
poll_thread w r agent_id clocks =
    let a = caller r agent_id in
    if str_eq a ""
    then return (error_response 400 "agent_id required (auth token or ?agent_id=)")
    else under_lock observe (λ s.
      then_do
        ((if is_some (Dict.lookup a s.mailboxes) then [] else auto_register_acts w a)
          ++ renew_heartbeat w.now a ∷ [])
        (wait_thread w a (w.now + poll_wait (w.float_of (query_or "wait" "25" r))) w.now clocks))
