-- ===== src/Broker/Invariant.antt =====
-- The invariant of the broker's tables, and the steps that keep it.
pub mod Changes
pub mod Steps
pub mod Requests
pub mod Polls
use robotsix_agent_comm.Prelude.{String, Option, none, some, true, ◌≡◌, is_some}
use robotsix_agent_comm.Prelude.Dict
use robotsix_agent_comm.Transport.Endpoints.{Endpoint}
use robotsix_agent_comm.Transport.Registry
use robotsix_agent_comm.Transport.Registry.Laws.{IsRegistry}
use robotsix_agent_comm.Broker.State.{Server}

-- The registry has no id twice and every endpoint stands under its own id; the registered agents are exactly those with
-- capabilities, with a heartbeat and with a TTL; a mailbox agent has a queue, and only registered
-- agents have one.
pub record IsConsistent (s : Server) : Type 0 where
  pub sound : IsRegistry s.registry
  pub named : (a : String) (e : Endpoint) → Registry.lookup a s.registry ≡ some e → e.agent_id ≡ a
  pub listed :
      (a : String) → is_some (Dict.lookup a s.capabilities) ≡ is_some (Registry.lookup a s.registry)
  pub beating :
      (a : String)
      → is_some (Dict.lookup a s.last_heartbeat) ≡ is_some (Registry.lookup a s.registry)
  pub timed :
      (a : String) → is_some (Dict.lookup a s.ttl_seconds) ≡ is_some (Registry.lookup a s.registry)
  pub queued :
      (a : String) (e : Endpoint)
      → Registry.lookup a s.registry ≡ some e
      → e.mailbox ≡ true
      → is_some (Dict.lookup a s.mailboxes) ≡ true
  pub owned :
      (a : String)
      → is_some (Dict.lookup a s.mailboxes) ≡ true
      → is_some (Registry.lookup a s.registry) ≡ true
