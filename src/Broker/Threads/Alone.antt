-- ===== src/Broker/Threads/Alone.antt =====
-- broker/server.py: a thread that has the server to itself does what the handler does as one step.
use robotsix_agent_comm.Prelude.{
  String, ℕ, ◌+◌, Option, none, some, List, [], ◌∷◌, map, ◌≡◌, refl, arith, Bool-cases, inl, inr,
}
use robotsix_agent_comm.Prelude.Dict
use robotsix_agent_comm.Protocol.Value.{null, bool, int, float, str, obj, arr}
use robotsix_agent_comm.Protocol.Messages.{Message}
use robotsix_agent_comm.Protocol.Serialization.{Payload}
use robotsix_agent_comm.Transport.Endpoints.{Endpoint}
use robotsix_agent_comm.Transport.Registry
use robotsix_agent_comm.Broker.State.{Server}
use robotsix_agent_comm.Broker.Http.{Request, World, Answer, query_or}
use robotsix_agent_comm.Broker.Register.{
  validate_payload, handle_register, accept_registration, enroll, register_body, judge,
  Registration, Verdict, accept, reject,
}
use robotsix_agent_comm.Broker.Deregister.{handle_deregister, forget}
use robotsix_agent_comm.Broker.Send.{
  handle_send, send_message, dispatch_message, forward, refuse_send,
}
use robotsix_agent_comm.Broker.Poll.{
  Wake, Polled, answered, waiting, handle_poll, wait_for_messages, begin_poll, caller, look,
  deliver, poll_wait, self_heal,
}
use robotsix_agent_comm.Broker.Sweep.{sweep_once, sweep_all, sweep_agent}
use robotsix_agent_comm.Broker.Threads.{perform, take_messages, Thread, done, then_do, alone}
use robotsix_agent_comm.Broker.Threads.Enrolment.{
  deregister_thread, register_thread, accept_thread, judge_thread, register_body_thread,
}
use robotsix_agent_comm.Broker.Threads.Sending.{
  send_thread, send_message_thread, dispatch_thread, forward_thread,
}
use robotsix_agent_comm.Broker.Threads.Polling.{poll_thread, wait_thread, look_thread}
use robotsix_agent_comm.Broker.Threads.Jobs.{
  sweep_agents, sweep_thread, Job, registering, deregistering, sending, polling, sweeping,
  thread_of,
}

abbrev pub given : Answer × Server → Option Answer × Server
given (a, s) = (some a, s)

abbrev pub given_by : Polled → Option Answer × Server
given_by (answered a s) = (some a, s)
given_by (waiting s) = (none, s)

alone-deregister :
    (w : World) (r : Request) (authenticated : String) (s : Server)
    → alone (deregister_thread w r authenticated) s ≡ given (handle_deregister w r authenticated s)
unfolding alone deregister_thread handle_deregister forget
alone-deregister w r authenticated s = ground arith

alone-accept :
    (w : World) (g : Registration) (s : Server)
    → alone (accept_thread w g) s ≡ given (accept_registration w g s)
unfolding alone accept_thread accept_registration enroll
alone-accept w g s = elim (Bool-cases g.mailbox_flag) [ inl e ↦ rw (e) refl | inr e ↦ rw (e) refl ]

alone-judge :
    (w : World) (v : Verdict Registration) (s : Server)
    → alone (judge_thread w v) s ≡ given (judge w v s)
unfolding alone judge then_do
alone-judge w (reject x) s = refl
alone-judge w (accept g) s = alone-accept w g s

alone-register_body :
    (w : World) (authenticated : String) (body : Payload) (s : Server)
    → alone (register_body_thread w authenticated body) s
      ≡ given (register_body w authenticated body s)
unfolding alone register_body then_do
alone-register_body w authenticated none s = refl
alone-register_body w authenticated (some (obj d)) s =
    alone-judge w (validate_payload d authenticated) s
alone-register_body w authenticated (some null) s = refl
alone-register_body w authenticated (some (bool b)) s = refl
alone-register_body w authenticated (some (int n)) s = refl
alone-register_body w authenticated (some (float t)) s = refl
alone-register_body w authenticated (some (str t)) s = refl
alone-register_body w authenticated (some (arr xs)) s = refl

alone-register :
    (w : World) (r : Request) (authenticated : String) (s : Server)
    → alone (register_thread w r authenticated) s ≡ given (handle_register w r authenticated s)
unfolding alone register_thread handle_register
alone-register w r authenticated s = ground (arith, alone-register_body w authenticated r.body s)

alone-forward :
    (w : World) (m : Message) (authenticated : String) (s : Server)
    → alone (forward_thread w m authenticated) s ≡ given (forward w m authenticated s)
unfolding alone forward_thread forward
alone-forward w m authenticated s = ground arith

alone-dispatch :
    (w : World) (m : Message) (authenticated : String) (s : Server)
    → alone (dispatch_thread w m authenticated) s ≡ given (dispatch_message w m authenticated s)
unfolding alone then_do dispatch_thread dispatch_message
alone-dispatch w m authenticated s = ground (arith, alone-forward w m authenticated s)

alone-send_message :
    (w : World) (m : Message) (authenticated : String) (s : Server)
    → alone (send_message_thread w m authenticated) s ≡ given (send_message w m authenticated s)
unfolding alone send_message_thread send_message then_do refuse_send
alone-send_message w m authenticated s = ground (arith, alone-dispatch w m authenticated s)

alone-send :
    (w : World) (r : Request) (authenticated : String) (s : Server)
    → alone (send_thread w r authenticated) s ≡ given (handle_send w r authenticated s)
unfolding alone send_thread handle_send
alone-send w r authenticated s = grind (arith, alone-send_message)

abbrev pub wakes_at : List ℕ → Server → List Wake
wakes_at clocks s = map (λ t. record { now = t; server = s }) clocks

module _ (w : World) (a : String) (deadline : ℕ) where
  alone-look :
      (now : ℕ) (next : Thread) (after : Polled) (s : Server)
      → alone next s ≡ given_by after
      → alone
          (look_thread w a deadline now next (Dict.lookup a s.mailboxes))
          (perform (take_messages a) s)
        ≡ given_by (look w a deadline now after s)
  unfolding alone then_do look deliver
  alone-look now next after s h = ground (arith, h, Dict.insert_same a [] s.mailboxes)

  alone-wait :
      (now : ℕ) (clocks : List ℕ) (s : Server)
      → alone (wait_thread w a deadline now clocks) s
        ≡ given_by (wait_for_messages w a deadline now (wakes_at clocks s) s)
  unfolding alone wait_thread wait_for_messages
  alone-wait now [] s = alone-look now (done none) (waiting s) s refl
  alone-wait now (clock ∷ clocks) s = alone-look now _ _ s (alone-wait clock clocks s)

alone-poll :
    (w : World) (r : Request) (agent_id : String) (clocks : List ℕ) (s : Server)
    → alone (poll_thread w r agent_id clocks) s
      ≡ given_by (handle_poll w r agent_id (wakes_at clocks (begin_poll w (caller r agent_id) s)) s)
unfolding alone poll_thread handle_poll begin_poll then_do perform self_heal
alone-poll w r agent_id clocks s =
    let a = caller r agent_id in
    let deadline = w.now + poll_wait (w.float_of (query_or "wait" "25" r)) in
    ground (arith, alone-wait w a deadline w.now clocks (begin_poll w a s))

alone-sweep_agents :
    (now : ℕ) (es : List Endpoint) (s : Server)
    → alone (sweep_agents now es) s ≡ (none, sweep_all now es s)
unfolding alone sweep_agents sweep_all forget then_do
alone-sweep_agents now [] s = refl
alone-sweep_agents now (e ∷ es) s = ground (arith, alone-sweep_agents now es (sweep_agent now e s))

alone-sweep : (now : ℕ) (s : Server) → alone (sweep_thread now) s ≡ (none, sweep_once now s)
unfolding alone sweep_thread sweep_once
alone-sweep now s = alone-sweep_agents now (Registry.list_agents s.registry) s

-- the job as one step of the daemon, with no other thread between
unfoldable whole : Job → Server → Option Answer × Server
whole (registering w r authenticated) s = given (handle_register w r authenticated s)
whole (deregistering w r authenticated) s = given (handle_deregister w r authenticated s)
whole (sending w r authenticated) s = given (handle_send w r authenticated s)
whole (polling w r agent_id clocks) s =
    given_by (handle_poll w r agent_id (wakes_at clocks (begin_poll w (caller r agent_id) s)) s)
whole (sweeping now) s = (none, sweep_once now s)

-- A thread that no other thread interrupts gives the answer of the handler that runs as one step, and
-- leaves the server that the handler leaves: for registrations, deregistrations, messages, polls and
-- sweeps, on every branch.
alone-thread_of : (j : Job) (s : Server) → alone (thread_of j) s ≡ whole j s
unfolding whole thread_of
alone-thread_of (registering w r authenticated) s = alone-register w r authenticated s
alone-thread_of (deregistering w r authenticated) s = alone-deregister w r authenticated s
alone-thread_of (sending w r authenticated) s = alone-send w r authenticated s
alone-thread_of (polling w r agent_id clocks) s = alone-poll w r agent_id clocks s
alone-thread_of (sweeping now) s = alone-sweep now s
