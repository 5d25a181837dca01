-- ===== src/Broker/Agents.antt =====
-- broker/server.py: `_build_agent_entry` and the `GET /agents` branch of `do_GET`.
pub mod Status
use robotsix_agent_comm.Prelude.{
  String, ℕ, ◌-◌, ◌*◌, leb, Bool, true, false, Option, none, some, List, [], ◌∷◌, if◌then◌else◌,
}
use robotsix_agent_comm.Prelude.Int.{ℤ, pos, negsuc, sub_ℕ}
use robotsix_agent_comm.Prelude.Dict
use robotsix_agent_comm.Prelude.Dict.{Dict}
use robotsix_agent_comm.Protocol.Value.{
  Value, null, bool, int, str, arr, obj, Items, nil, cons, Fields, end, field,
}
use robotsix_agent_comm.Transport.Registry
use robotsix_agent_comm.Transport.Registry.{Registry}
use robotsix_agent_comm.Broker.RateLimit.{second}
use robotsix_agent_comm.Broker.State.{Server}
use robotsix_agent_comm.Broker.Http.{World, Answer, response, json}

-- `AgentStatus` of protocol/_types.py
pub data AgentStatus : Type 0 where
  active stale unknown : AgentStatus

unfoldable pub status_name : AgentStatus → String
status_name active = "active"
status_name stale = "stale"
status_name unknown = "unknown"

-- An entry of the listing; the age is in ticks, and the clock never falls below a heartbeat.
pub record AgentEntry : Type 0 where
  pub agent_id : String
  pub capabilities : Fields
  pub last_seen : Option ℕ
  pub ttl_seconds : Option ℤ
  pub status : AgentStatus
  pub mailbox : Bool

-- The status of an agent with a given TTL and age: `age <= ttl` for a TTL above 0.
unfoldable pub status_of : Option ℕ → Option ℤ → AgentStatus
status_of age none = unknown
status_of age (some (negsuc n)) = active
status_of none (some (pos n)) = if leb n 0 then active else unknown
status_of (some age) (some (pos n)) =
    if leb n 0 then active else if leb age (n * second) then active else stale

abbrev pub age_of : ℕ → Option ℕ → Option ℕ
age_of now none = none
age_of now (some heartbeat) = some (now - heartbeat)

abbrev mailbox_of : Option Bool → Bool
mailbox_of none = false
mailbox_of (some b) = b

-- `_build_agent_entry`
unfoldable pub build_agent_entry : Registry → String → Fields → Dict ℕ → Dict ℤ → ℕ → AgentEntry
unfolding status_of
build_agent_entry registry agent_id caps heartbeats ttls now = record {
  agent_id = agent_id;
  capabilities = caps;
  last_seen = age_of now (Dict.lookup agent_id heartbeats);
  ttl_seconds = Dict.lookup agent_id ttls;
  status = status_of (age_of now (Dict.lookup agent_id heartbeats)) (Dict.lookup agent_id ttls);
  mailbox = elim (Registry.lookup agent_id registry) [ none ↦ false | some e ↦ e.mailbox ];
}

-- the entries of all agents with capabilities, in the order of their registration
unfoldable pub entries_of : Server → ℕ → Dict Fields → List AgentEntry
unfolding build_agent_entry
entries_of s now [] = []
entries_of s now ((agent_id, caps) ∷ d) =
    build_agent_entry s.registry agent_id caps s.last_heartbeat s.ttl_seconds now
    ∷ entries_of s now d

-- the entries that `GET /agents` lists
unfoldable pub list_entries : ℕ → Server → List AgentEntry
unfolding entries_of
list_entries now s = entries_of s now s.capabilities

-- the entry as a JSON object; a count of ticks stands for the `float` of seconds
abbrev optional_int : Option ℕ → Value
optional_int none = null
optional_int (some n) = int (pos n)

abbrev optional_ttl : Option ℤ → Value
optional_ttl none = null
optional_ttl (some n) = int n

unfoldable pub entry_value : AgentEntry → Value
unfolding status_name
entry_value e = obj (
    field "agent_id" (str e.agent_id) (
      field "capabilities" (obj e.capabilities) (
        field "last_seen_seconds_ago" (optional_int e.last_seen) (
          field "ttl_seconds" (optional_ttl e.ttl_seconds)
            (field "status" (str (status_name e.status)) (field "mailbox" (bool e.mailbox) end))))))

unfoldable pub entry_items : List AgentEntry → Items
unfolding entry_value
entry_items [] = nil
entry_items (e ∷ es) = cons (entry_value e) (entry_items es)

-- `GET /agents`
unfoldable pub handle_agents : World → Server → Answer × Server
unfolding list_entries entry_items
handle_agents w s =
    (response 200 (json (obj (field "agents" (arr (entry_items (list_entries w.now s))) end))), s)
