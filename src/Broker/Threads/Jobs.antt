-- ===== src/Broker/Threads/Jobs.antt =====
-- broker/server.py: the threads of the daemon, the handlers that change the tables and the sweep.
use robotsix_agent_comm.Prelude.{String, ℕ, none, List, [], ◌∷◌, if◌then◌else◌}
use robotsix_agent_comm.Prelude.Dict
use robotsix_agent_comm.Transport.Endpoints.{Endpoint}
use robotsix_agent_comm.Transport.Registry
use robotsix_agent_comm.Transport.Registry.{found, not_found, not_hashable, lookup_value}
use robotsix_agent_comm.Broker.Http.{Request, World}
use robotsix_agent_comm.Broker.Sweep.{expired, grace_of}
use robotsix_agent_comm.Broker.Threads.{observe, Thread, done, under_lock, then_do}
use robotsix_agent_comm.Broker.Threads.Enrolment.{forget_acts, deregister_thread, register_thread}
use robotsix_agent_comm.Broker.Threads.Sending.{send_thread}
use robotsix_agent_comm.Broker.Threads.Polling.{poll_thread}

unfoldable pub sweep_agents : ℕ → List Endpoint → Thread
unfolding then_do
sweep_agents now [] = done none
sweep_agents now (e ∷ es) =
    let rest = sweep_agents now es in
    under_lock observe (λ s.
      if expired now (grace_of e s.mailbox_grace_seconds) (Dict.lookup e.agent_id s.last_heartbeat)
        (Dict.lookup e.agent_id s.ttl_seconds)
      then then_do (forget_acts e.agent_id) rest
      else rest)

-- `_sweep_once`
unfoldable pub sweep_thread : ℕ → Thread
unfolding sweep_agents
sweep_thread now = under_lock observe (λ s. sweep_agents now (Registry.list_agents s.registry))

-- what a thread of the daemon may be started for
pub data Job : Type 0 where
  registering deregistering sending : World → Request → (authenticated : String) → Job
  polling : World → Request → (authenticated : String) → (clocks : List ℕ) → Job
  sweeping : (now : ℕ) → Job

unfoldable pub thread_of : Job → Thread
unfolding register_thread deregister_thread send_thread poll_thread sweep_thread
thread_of (registering w r authenticated) = register_thread w r authenticated
thread_of (deregistering w r authenticated) = deregister_thread w r authenticated
thread_of (sending w r authenticated) = send_thread w r authenticated
thread_of (polling w r authenticated clocks) = poll_thread w r authenticated clocks
thread_of (sweeping now) = sweep_thread now
