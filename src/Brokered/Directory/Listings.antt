-- ===== src/Brokered/Directory/Listings.antt =====
-- transport/brokered.py: what `BrokeredRegistry` reads from the broker's list of agents.
use robotsix_agent_comm.Prelude.{
  String, ℕ, [], ◌∷◌, map, is_some, str_eq, if◌then◌else◌, ◌≡◌, refl, ap, ◌∙◌, Bool-cases, inl, inr,
}
use robotsix_agent_comm.Prelude.Int.{ℤ}
use robotsix_agent_comm.Prelude.Dict
use robotsix_agent_comm.Prelude.Dict.{Dict}
use robotsix_agent_comm.Protocol.Value.{Value, Fields, at, at_or}
use robotsix_agent_comm.Transport.Endpoints.{agent_not_found}
use robotsix_agent_comm.Transport.Registry
use robotsix_agent_comm.Broker.State.{Server}
use robotsix_agent_comm.Broker.Http.{World}
use robotsix_agent_comm.Broker.Agents.{
  build_agent_entry, entries_of, list_entries, entry_value, entry_items, handle_agents,
}
use robotsix_agent_comm.Broker.Invariant.{IsConsistent}
use robotsix_agent_comm.Brokered.Directory.{
  AgentInfo, listed, failed, placeholder, find_entry, is_entry_of, lookup, text_of, infos,
  discover_agents, placeholders, list_agents, agents_of, elements, parsed_of,
}

-- the broker's capabilities, as discovery reports them
abbrev pub info_of : String × Fields → AgentInfo
info_of (agent_id, caps) = record { agent_id = agent_id; capabilities = caps }

find_entry-entries_of :
    (a : String) (s : Server) (now : ℕ) (d : Dict Fields)
    → find_entry a (entry_items (entries_of s now d)) ≡ is_some (Dict.lookup a d)
unfolding find_entry is_entry_of entry_items entry_value entries_of build_agent_entry at Dict.lookup
find_entry-entries_of a s now [] = refl
find_entry-entries_of a s now ((k, caps) ∷ d) = elim (Bool-cases (str_eq k a)) [
  | inl e ↦ rw (e) refl
  | inr e ↦ rw (e) (find_entry-entries_of a s now d)
]

-- what a client's `lookup` makes of the broker's listing
pub lookup-listing :
    (port : ℤ) (a : String) (w : World) (s : Server)
    → lookup port a 200 (parsed_of (handle_agents w s).0) ≡ (
        if is_some (Dict.lookup a s.capabilities)
        then listed (placeholder port a)
        else failed agent_not_found)
unfolding lookup agents_of elements handle_agents list_entries at_or
lookup-listing port a w s =
    ap (λ b. if b then listed (placeholder port a) else failed agent_not_found)
      (find_entry-entries_of a s w.now s.capabilities)

-- On a consistent broker, a client's `lookup` finds exactly the agents that are registered.
pub lookup-handle_agents :
    (port : ℤ) (a : String) (w : World) (s : Server)
    → IsConsistent s
    → lookup port a 200 (parsed_of (handle_agents w s).0) ≡ (
        if is_some (Registry.lookup a s.registry)
        then listed (placeholder port a)
        else failed agent_not_found)
lookup-handle_agents port a w s i =
    lookup-listing port a w s
    ∙ ap (λ b. if b then listed (placeholder port a) else failed agent_not_found) (i.listed a)

module _ (show : Value → String) where
  infos-entries_of :
      (s : Server) (now : ℕ) (d : Dict Fields)
      → infos show (entry_items (entries_of s now d)) ≡ map info_of d
  unfolding infos text_of entry_items entry_value entries_of build_agent_entry at_or
  infos-entries_of s now [] = refl
  infos-entries_of s now ((k, caps) ∷ d) =
      ap (λ xs. info_of (k, caps) ∷ xs) (infos-entries_of s now d)

  placeholders-entries_of :
      (port : ℤ) (s : Server) (now : ℕ) (d : Dict Fields)
      → placeholders show port (entry_items (entries_of s now d))
        ≡ map (λ e. placeholder port e.0) d
  unfolding placeholders text_of entry_items entry_value entries_of build_agent_entry at_or
  placeholders-entries_of port s now [] = refl
  placeholders-entries_of port s now ((k, caps) ∷ d) =
      ap (λ xs. placeholder port k ∷ xs) (placeholders-entries_of port s now d)

  -- A client's `discover_agents` and `list_agents` return all the agents of the broker in its order,
  -- and discovery gives each the capabilities that the broker holds for it.
  pub discover_agents-handle_agents :
      (port : ℤ) (w : World) (s : Server)
      → (discover_agents show 200 (parsed_of (handle_agents w s).0)
          ≡ listed (map info_of s.capabilities))
        × (list_agents show port 200 (parsed_of (handle_agents w s).0)
            ≡ listed (map (λ e. placeholder port e.0) s.capabilities))
  unfolding discover_agents list_agents agents_of elements handle_agents list_entries at_or
  discover_agents-handle_agents port w s = (
    ap listed (infos-entries_of s w.now s.capabilities),
    ap listed (placeholders-entries_of port s w.now s.capabilities),
  )
