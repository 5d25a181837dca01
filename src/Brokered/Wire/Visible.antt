-- ===== src/Brokered/Wire/Visible.antt =====
-- transport/brokered.py and broker/server.py: what the broker holds, and what another client finds,
-- after `register` and `unregister`.
use robotsix_agent_comm.Prelude.{
  String, ltb, true, false, Option, none, some, List, [], str_eq, eq_refl, ◌≡◌, ◌≢◌, refl, ◌∙◌,
  arith, if◌then◌else◌,
}
use robotsix_agent_comm.Prelude.Int.{ℤ}
use robotsix_agent_comm.Prelude.Dict
use robotsix_agent_comm.Prelude.Text.{concat, join}
use robotsix_agent_comm.Protocol.Value.{Fields, obj}
use robotsix_agent_comm.Transport.Endpoints.{Endpoint, agent_not_found}
use robotsix_agent_comm.Transport.Registry
use robotsix_agent_comm.Transport.Registry.Laws.{lookup-register, lookup-unregister_quietly}
use robotsix_agent_comm.Broker.State.{Server, log}
use robotsix_agent_comm.Broker.Http.{World, Answer}
use robotsix_agent_comm.Broker.Register.{accept_registration, enroll, endpoint_of}
use robotsix_agent_comm.Broker.Deregister.{forget}
use robotsix_agent_comm.Broker.Agents.{handle_agents}
use robotsix_agent_comm.Broker.Poll.{Wake, answered, polled, server_of}
use robotsix_agent_comm.Broker.Dispatch.{handle_request}
use robotsix_agent_comm.Transport.Retry.{returned}
use robotsix_agent_comm.Transport.Client.{health_check}
use robotsix_agent_comm.Brokered.{exchange_of}
use robotsix_agent_comm.Brokered.Directory.{
  registration_body, listed, failed, placeholder, lookup, parsed_of,
}
use robotsix_agent_comm.Brokered.Directory.Listings.{lookup-listing}
use robotsix_agent_comm.Brokered.Directory.Enrolment.{IsOpen, registration_of}
use robotsix_agent_comm.Brokered.Wire.{
  Wire, request_of, health_request, register_request, unregister_request, listing_request,
}
use robotsix_agent_comm.Brokered.Wire.Shown.{Trusts}
use robotsix_agent_comm.Brokered.Wire.Enrolled.{
  register_answer, unregister_answer, listing_answer, kept-Trusts,
}

-- A client finds a broker that answers healthy, with a token or none, and a probe changes nothing.
pub health_check-health_request :
    (w : World) (wire : Wire) (token : Option String) (wakes : List Wake) (s : Server)
    → (answer : Answer) × (handle_request w (health_request wire token) wakes s ≡ answered answer s)
      × (health_check (exchange_of answer) ≡ returned true)
unfolding handle_request health_request request_of health_check exchange_of
health_check-health_request w wire token wakes s = (_, refl, refl)

module _ (w v : World) (wire : Wire) (wakes : List Wake) (s : Server) (a t b u : String)
    (k : Trusts s a t) (l : Trusts s b u) (free : s.rate_limit_per_second ≡ 0)
    (plain : wire.split "/agents" ≡ ("/agents", [])) (port : ℤ) where
  -- A client with the token of an agent registers an endpoint that is open to this agent, in a body
  -- that is not too long, at a broker with no rate limit: the broker then holds the endpoint and its
  -- capabilities as they are, and to a client with a token, the same or another, that asks for the
  -- listing it answers with the listing, in which the client finds the agent.
  pub register_request-found :
      (e : Endpoint) (caps : Fields)
      → IsOpen a e
      → ltb s.max_body_size (wire.length_of (some (obj (registration_body e caps)))) ≡ false
      → let after = server_of (handle_request w (register_request wire (some t) e caps) wakes s) in
        (Registry.lookup e.agent_id after.registry ≡ some e)
        × (Dict.lookup e.agent_id after.capabilities ≡ some caps)
        × (handle_request v (listing_request wire (some u)) wakes after
            ≡ polled (handle_agents v after))
        × (lookup port e.agent_id 200 (parsed_of (handle_agents v after).0)
            ≡ listed (placeholder port e.agent_id))
  unfolding accept_registration enroll endpoint_of log
  register_request-found e caps o fits =
      let after = (accept_registration w (registration_of e caps) s).1 in
      let known : Dict.lookup e.agent_id after.capabilities ≡ some caps =
        Dict.lookup-insert e.agent_id e.agent_id caps s.capabilities
        ∙ ground (arith, eq_refl e.agent_id) in
      rw (register_answer w wire wakes s a t k free e caps o fits) (
        lookup-register e s.registry e.agent_id ∙ ground (arith, eq_refl e.agent_id),
        known,
        listing_answer v wire wakes after b u (kept-Trusts refl refl l) free plain,
        rw (lookup-listing port e.agent_id v after, known) refl,
      )

  -- A client with the token of an agent unregisters this agent, whose id stands in the path as it is,
  -- at a broker with no rate limit: the broker then has neither an endpoint nor a mailbox of the
  -- agent and has kept the endpoints of all others, and a client with a token that asks for the
  -- listing gets it and does not find the agent.
  pub unregister_request-gone :
      wire.split (join "/agents/" a) ≡ (join "/agents/" a, [])
      → a ≢ ""
      → let after = server_of (handle_request w (unregister_request wire (some t) a) wakes s) in
        ((c : String)
          → Registry.lookup c after.registry
            ≡ (if str_eq a c then none else Registry.lookup c s.registry))
        × (Dict.lookup a after.mailboxes ≡ none)
        × (handle_request v (listing_request wire (some u)) wakes after
            ≡ polled (handle_agents v after))
        × (lookup port a 200 (parsed_of (handle_agents v after).0) ≡ failed agent_not_found)
  unfolding forget log
  unregister_request-gone own n =
      let after = log w.wall "deregister" a (concat "/agents/" a) 204 "deregistered" (forget a s) in
      let unlisted : Dict.lookup a after.capabilities ≡ none =
        Dict.lookup-remove a a s.capabilities ∙ ground (arith, eq_refl a) in
      rw (unregister_answer w wire wakes s a t k free own n) (
        lookup-unregister_quietly a s.registry,
        Dict.lookup-remove a a s.mailboxes ∙ ground (arith, eq_refl a),
        listing_answer v wire wakes after b u (kept-Trusts refl refl l) free plain,
        rw (lookup-listing port a v after, unlisted) refl,
      )
