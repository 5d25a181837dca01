-- ===== src/Sdk/Lifetime/Sessions.antt =====
-- sdk and broker/server.py: what a pull agent that starts and stops leaves behind at the broker.
use robotsix_agent_comm.Prelude.{
  String, ltb, false, none, some, List, [], str_eq, eq_refl, ◌≡◌, ◌≢◌, refl, ◌∙◌, arith,
  if◌then◌else◌,
}
use robotsix_agent_comm.Prelude.Dict
use robotsix_agent_comm.Prelude.Text.{text_length, join}
use robotsix_agent_comm.Protocol.Value.{Fields, obj}
use robotsix_agent_comm.Transport.Registry
use robotsix_agent_comm.Transport.Registry.Laws.{lookup-register, lookup-unregister_quietly}
use robotsix_agent_comm.Broker.State.{Server, log}
use robotsix_agent_comm.Broker.Http.{World}
use robotsix_agent_comm.Broker.Register.{accept_registration, enroll, endpoint_of}
use robotsix_agent_comm.Broker.Deregister.{forget}
use robotsix_agent_comm.Broker.Poll.{Wake}
use robotsix_agent_comm.Brokered.Directory.{registration_body}
use robotsix_agent_comm.Brokered.Directory.Enrolment.{registration_of}
use robotsix_agent_comm.Brokered.Wire.{Wire}
use robotsix_agent_comm.Brokered.Wire.Shown.{Trusts}
use robotsix_agent_comm.Brokered.Wire.Enrolled.{register_answer, unregister_answer, kept-Trusts}
use robotsix_agent_comm.Sdk.Agent
use robotsix_agent_comm.Sdk.Agent.{Agent}
use robotsix_agent_comm.Sdk.Lifetime.{pull_endpoint, start, stop}
use robotsix_agent_comm.Sdk.Lifetime.Discovered.{pull_endpoint-IsOpen}

module _ (w v : World) (wire : Wire) (wakes : List Wake) (s : Server) (t : String) (a : Agent)
    (k : Trusts s a.agent_id t) (free : s.rate_limit_per_second ≡ 0) where
  -- An agent with an id of at most 255 characters that stands in a path as it is, that has its token
  -- and is not started, starts and then stops at a broker with no rate limit, with a registration
  -- that is not too long. After that it runs no longer and has no handler pool, and the broker has
  -- neither its endpoint nor its mailbox and has kept the endpoints of all others.
  pub stop-start :
      wire.split (join "/agents/" a.agent_id) ≡ (join "/agents/" a.agent_id, [])
      → a.agent_id ≢ ""
      → ltb 255 (text_length a.agent_id) ≡ false
      → a.is_started ≡ false
      → (caps : Fields)
      → ltb s.max_body_size
          (wire.length_of (some (obj (registration_body (pull_endpoint a.agent_id) caps))))
        ≡ false
      → let (b, after) = stop v wire (some t) wakes (start w wire (some t) wakes caps (a, s)) in
        (b.is_started ≡ false)
        × (b.pool ≡ none)
        × (Dict.lookup a.agent_id after.mailboxes ≡ none)
        × ((c : String)
            → Registry.lookup c after.registry
              ≡ (if str_eq a.agent_id c then none else Registry.lookup c s.registry))
  unfolding start stop Agent.start Agent.stop accept_registration enroll endpoint_of forget log
  stop-start own named short idle caps fits =
      let e = pull_endpoint a.agent_id in
      let during = (accept_registration w (registration_of e caps) s).1 in
      rw
        (
          idle,
          register_answer w wire wakes s a.agent_id t k free e caps
              (pull_endpoint-IsOpen a.agent_id named short) fits,
          unregister_answer v wire wakes during a.agent_id t (kept-Trusts refl refl k) free own
              named,
        )
        (
          refl,
          refl,
          Dict.lookup-remove a.agent_id a.agent_id (Dict.set_default a.agent_id [] s.mailboxes)
              ∙ ground (arith, eq_refl a.agent_id),
          λ c.
              lookup-unregister_quietly a.agent_id (Registry.register e s.registry) c
              ∙ ground (arith, lookup-register e s.registry c),
        )
