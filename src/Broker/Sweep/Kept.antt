-- ===== src/Broker/Sweep/Kept.antt =====
-- A sweep and the consistency of the tables.
use robotsix_agent_comm.Prelude.{ℕ, List, [], ◌∷◌, inl, inr, Bool-cases}
use robotsix_agent_comm.Prelude.Dict
use robotsix_agent_comm.Prelude.Dict.{lookup-remove}
use robotsix_agent_comm.Transport.Endpoints.{Endpoint}
use robotsix_agent_comm.Transport.Registry
use robotsix_agent_comm.Broker.State.{Server}
use robotsix_agent_comm.Broker.Sweep.{grace_of, expired, sweep_agent, sweep_all, sweep_once}
use robotsix_agent_comm.Broker.Invariant.{IsConsistent}
use robotsix_agent_comm.Broker.Invariant.Changes.{forget-IsConsistent}

step-IsConsistent :
    (now : ℕ) (e : Endpoint) (s : Server) → IsConsistent s → IsConsistent (sweep_agent now e s)
unfolding sweep_agent
step-IsConsistent now e s c =
    elim (Bool-cases (
      expired now (grace_of e s.mailbox_grace_seconds) (Dict.lookup e.agent_id s.last_heartbeat)
        (Dict.lookup e.agent_id s.ttl_seconds))) [
          | inl h ↦ rw (h, sweep_agent) (forget-IsConsistent e.agent_id c)
          | inr h ↦ rw (h, sweep_agent) c
        ]

sweep_all-IsConsistent :
    (now : ℕ) (es : List Endpoint) (s : Server) → IsConsistent s → IsConsistent (sweep_all now es s)
unfolding sweep_all
sweep_all-IsConsistent now [] s c = c
sweep_all-IsConsistent now (e ∷ es) s c =
    sweep_all-IsConsistent now es (sweep_agent now e s) (step-IsConsistent now e s c)

-- A sweep at any time keeps the tables consistent.
pub sweep_once-IsConsistent :
    (now : ℕ) (s : Server) → IsConsistent s → IsConsistent (sweep_once now s)
unfolding sweep_once
sweep_once-IsConsistent now s c = sweep_all-IsConsistent now (Registry.list_agents s.registry) s c
