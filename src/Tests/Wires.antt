-- ===== src/Tests/Wires.antt =====
-- The wire between client and broker: runs of the theorems at concrete inputs.
use robotsix_agent_comm.Prelude.{
  String, none, some, [], ◌≡◌, ◌≢◌, inl, inr, refl, arith, str_eq, eq_iff, if◌then◌else◌,
}
use robotsix_agent_comm.Prelude.Int.{pos}
use robotsix_agent_comm.Prelude.Dict
use robotsix_agent_comm.Prelude.Text.{text_length, starts_with_text, starts_with_codes, codes}
use robotsix_agent_comm.Protocol.Value.{Fields, arr, nil, end, field}
use robotsix_agent_comm.Transport.Registry
use robotsix_agent_comm.Broker.State.{Server, invert_tokens}
use robotsix_agent_comm.Broker.Agents.{handle_agents}
use robotsix_agent_comm.Broker.Poll.{polled, server_of}
use robotsix_agent_comm.Broker.Dispatch.{handle_request}
use robotsix_agent_comm.Brokered.Directory.{listed, placeholder, lookup, parsed_of}
use robotsix_agent_comm.Brokered.Directory.Enrolment.{IsOpen}
use robotsix_agent_comm.Brokered.Wire.{Wire, register_request, listing_request}
use robotsix_agent_comm.Brokered.Wire.Shown.{Trusts, Unshared}
use robotsix_agent_comm.Brokered.Wire.Visible.{register_request-found}
use robotsix_agent_comm.Prelude.{◌∷◌, false, ltb, map, is_some}
use robotsix_agent_comm.Brokered.Directory.{AgentInfo, discover_agents, supported_kinds}
use robotsix_agent_comm.Brokered.Directory.Listings.{info_of}
use robotsix_agent_comm.Sdk.Responder.{Responder, base_responder, returned, lookup_handler}
use robotsix_agent_comm.Sdk.Responder.Kinds.{
  HasMethods, base_responder-HasMethods, registration_capabilities,
}
use robotsix_agent_comm.Sdk.Agent.{Agent, new_agent}
use robotsix_agent_comm.Sdk.Conversation.{responder_agent}
use robotsix_agent_comm.Sdk.Lifetime.{pull_endpoint, start, stop}
use robotsix_agent_comm.Sdk.Lifetime.Discovered.{responder_discovered, offers, find_info}
use robotsix_agent_comm.Sdk.Lifetime.Sessions.{stop-start}
use robotsix_agent_comm.Tests.Data.{world, tokens, tokens-IsDict, broker, bob}

bob-IsOpen : IsOpen "bob" bob
unfolding text_length starts_with_text starts_with_codes codes
bob-IsOpen = record {
  named = λ e. cc;
  short = refl;
  own = inr refl;
  host_present = λ e. cc;
  host_short = λ e. cc;
  port_valid = inr (refl, refl);
  scheme_listed = inl refl;
  path_absolute = refl;
}

secrets_differ : ◌≢◌ {A = String} "secret-a" "secret-b"
secrets_differ = λ e. ground (arith, (eq_iff "secret-a" "secret-b").1 e)

tokens-Unshared : Unshared tokens
unfolding Dict.lookup
tokens-Unshared a b t h k =
    ground
      (arith, h, k, secrets_differ, eq_iff "ann" a, eq_iff "bob" a, eq_iff "ann" b, eq_iff "bob" b)

bob_trusted : Trusts broker "bob" "secret-b"
unfolding invert_tokens Dict.insert Dict.lookup
bob_trusted = record {
  tokens = tokens;
  on = refl;
  table = refl;
  distinct = tokens-IsDict;
  unshared = tokens-Unshared;
  own = refl;
}

ann_trusted : Trusts broker "ann" "secret-a"
unfolding invert_tokens Dict.insert Dict.lookup
ann_trusted = record {
  tokens = tokens;
  on = refl;
  table = refl;
  distinct = tokens-IsDict;
  unshared = tokens-Unshared;
  own = refl;
}

short_id : ltb 255 (text_length "ann") ≡ false
unfolding text_length
short_id = refl

abbrev wire : Wire
wire = record {
  split = λ path. (path, []);
  length_of = λ body. 200;
  poll_query = λ agent_id wait. agent_id;
}

abbrev capabilities : Fields
capabilities = field "supported_kinds" (arr nil) end

abbrev registered : Server
registered =
    server_of
      (handle_request world (register_request wire (some "secret-b") bob capabilities) [] broker)

register_request-found_example :
    (Registry.lookup "bob" registered.registry ≡ some bob)
    × (Dict.lookup "bob" registered.capabilities ≡ some capabilities)
    × (handle_request world (listing_request wire (some "secret-a")) [] registered
        ≡ polled (handle_agents world registered))
    × (lookup (pos 8443) "bob" 200 (parsed_of (handle_agents world registered).0)
        ≡ listed (placeholder (pos 8443) "bob"))
register_request-found_example =
    register_request-found world world wire [] broker "bob" "secret-b" "ann" "secret-a" bob_trusted
      ann_trusted refl refl (pos 8443) bob capabilities bob-IsOpen refl

abbrev responder : Responder
responder = record (base_responder "ann") { extra = ("echo", λ m params. returned params) ∷ [] }

responder-HasMethods : HasMethods responder
responder-HasMethods = base_responder-HasMethods "ann" responder.extra

abbrev repr : String → String
repr = λ text. text

abbrev served : Server
served =
    (start world wire (some "secret-a") [] (registration_capabilities responder)
      (responder_agent repr world.stamp responder, broker)).1

responder_discovered_example :
    (info : AgentInfo) × (Registry.lookup "ann" served.registry ≡ some (pull_endpoint "ann"))
    × (handle_request world (listing_request wire (some "secret-b")) [] served
        ≡ polled (handle_agents world served))
    × (discover_agents world.show 200 (parsed_of (handle_agents world served).0)
        ≡ listed (map info_of served.capabilities))
    × (info.agent_id ≡ "ann")
    × (find_info "ann" (map info_of served.capabilities) ≡ some info)
    × (Dict.lookup "ann" served.capabilities ≡ some info.capabilities)
    × ((kind : String)
        → offers kind (supported_kinds info) ≡ is_some (lookup_handler responder kind))
responder_discovered_example =
    responder_discovered world world wire [] broker "secret-a" "bob" "secret-b" responder
      ann_trusted bob_trusted refl refl repr world.stamp world.show responder-HasMethods (λ e. cc)
      short_id refl

abbrev after_session : Agent × Server
after_session =
    stop world wire (some "secret-a") []
      (start world wire (some "secret-a") [] capabilities (new_agent "ann", broker))

stop-start_example :
    (after_session.0.is_started ≡ false)
    × (after_session.0.pool ≡ none)
    × (Dict.lookup "ann" after_session.1.mailboxes ≡ none)
    × ((c : String)
        → Registry.lookup c after_session.1.registry
          ≡ (if str_eq "ann" c then none else Registry.lookup c broker.registry))
stop-start_example =
    stop-start world world wire [] broker "secret-a" (new_agent "ann") ann_trusted refl refl
      (λ e. cc) short_id refl capabilities refl
