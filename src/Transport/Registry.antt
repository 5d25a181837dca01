-- ===== src/Transport/Registry.antt =====
-- transport/registry.py. Each operation holds the lock from its first line to its last, so it is
-- one step.
pub mod Laws
pub mod Abstract
use robotsix_agent_comm.Prelude.{
  String, Bool, true, false, Option, none, some, List, [], if◌then◌else◌, is_some,
}
use robotsix_agent_comm.Prelude.Dict
use robotsix_agent_comm.Prelude.Dict.{Dict}
use robotsix_agent_comm.Protocol.Value.{Value, str, arr, obj}
use robotsix_agent_comm.Protocol.Errors.{Fault, type_error}
use robotsix_agent_comm.Transport.Endpoints.{Endpoint}

pub record Registry : Type 0 where
  pub endpoints : Dict Endpoint

unfoldable pub empty : Registry
empty = record { endpoints = [] }

unfoldable pub register : Endpoint → Registry → Registry
register e r = record { endpoints = Dict.insert e.agent_id e r.endpoints }

-- `none` stands for the `AgentNotFoundError`
unfoldable pub unregister : String → Registry → Option Registry
unregister agent_id r =
    if is_some (Dict.lookup agent_id r.endpoints)
    then some (record { endpoints = Dict.remove agent_id r.endpoints })
    else none

-- `with suppress(AgentNotFoundError): registry.unregister(agent_id)`
unfoldable pub unregister_quietly : String → Registry → Registry
unfolding unregister
unregister_quietly agent_id r = elim (unregister agent_id r) [ none ↦ r | some r' ↦ r' ]

-- `none` stands for the `AgentNotFoundError`
unfoldable pub lookup : String → Registry → Option Endpoint
lookup agent_id r = Dict.lookup agent_id r.endpoints

unfoldable pub list_agents : Registry → List Endpoint
list_agents r = Dict.values r.endpoints

-- `lookup` of a recipient that may be any JSON value: a list or an object cannot be a key, and any
-- other value that is no text is no key of the registry.
pub data Found : Type 0 where
  found : Endpoint → Found
  not_found : Found
  not_hashable : Found

abbrev pub found_of : Option Endpoint → Found
found_of none = not_found
found_of (some e) = found e

unfoldable pub lookup_value : Value → Registry → Found
unfolding lookup
lookup_value (str s) r = found_of (lookup s r)
lookup_value (arr xs) r = not_hashable
lookup_value (obj d) r = not_hashable
lookup_value v r = not_found
