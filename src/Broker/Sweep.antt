-- ===== src/Broker/Sweep.antt =====
-- broker/server.py: `_sweep_once`. The sweep runs between two requests here; it takes each lock for
-- one agent at a time.
pub mod Rounds
pub mod Evicted
pub mod Kept
use robotsix_agent_comm.Prelude.{
  String, ℕ, ◌*◌, Bool, true, false, not, Option, none, some, List, [], ◌∷◌, if◌then◌else◌, leb,
}
use robotsix_agent_comm.Prelude.Int.{ℤ, pos, negsuc, ◌+ℤ◌, sub_ℕ, leb_ℤ}
use robotsix_agent_comm.Prelude.Dict
use robotsix_agent_comm.Transport.Endpoints.{Endpoint}
use robotsix_agent_comm.Transport.Registry
use robotsix_agent_comm.Broker.RateLimit.{second}
use robotsix_agent_comm.Broker.State.{Server}
use robotsix_agent_comm.Broker.Deregister.{forget}

-- the grace of an agent, in ticks: the server's for a mailbox agent, none for another
abbrev pub grace_of : Endpoint → ℤ → ℤ
grace_of e grace = if e.mailbox then grace else pos 0

-- `now - last_hb > ttl + grace`, for a TTL above 0
unfoldable pub overdue : ℕ → ℕ → ℕ → ℤ → Bool
overdue now heartbeat ttl grace = not (leb_ℤ (sub_ℕ now heartbeat) (pos (ttl * second) +ℤ grace))

-- whether the sweep evicts an agent with this heartbeat and TTL; none of either keeps it, and so
-- does a TTL of 0 or below
unfoldable pub expired : ℕ → ℤ → Option ℕ → Option ℤ → Bool
unfolding overdue
expired now grace none ttl = false
expired now grace (some heartbeat) none = false
expired now grace (some heartbeat) (some (negsuc n)) = false
expired now grace (some heartbeat) (some (pos n)) =
    if leb n 0 then false else overdue now heartbeat n grace

-- one round of the loop
unfoldable pub sweep_agent : ℕ → Endpoint → Server → Server
unfolding expired
sweep_agent now e s =
    if expired now (grace_of e s.mailbox_grace_seconds) (Dict.lookup e.agent_id s.last_heartbeat)
      (Dict.lookup e.agent_id s.ttl_seconds)
    then forget e.agent_id s
    else s

unfoldable pub sweep_all : ℕ → List Endpoint → Server → Server
unfolding sweep_agent
sweep_all now [] s = s
sweep_all now (e ∷ es) s = sweep_all now es (sweep_agent now e s)

-- `_sweep_once` at a reading of the monotonic clock
unfoldable pub sweep_once : ℕ → Server → Server
unfolding sweep_all
sweep_once now s = sweep_all now (Registry.list_agents s.registry) s
