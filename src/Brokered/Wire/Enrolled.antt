-- ===== src/Brokered/Wire/Enrolled.antt =====
-- transport/brokered.py and broker/server.py: `register` and `unregister` of a client, through the
-- dispatchers of the broker.
use robotsix_agent_comm.Prelude.{
  String, ℕ, ltb, Bool, true, false, none, some, List, [], str_eq, eq_iff, eq_refl, ◌≡◌, ◌≢◌, refl,
  ◌∙◌, arith,
}
use robotsix_agent_comm.Prelude.Text.{
  concat, join, starts_with_text, starts_with_codes, codes, text_drop,
}
use robotsix_agent_comm.Protocol.Value.{Fields, obj}
use robotsix_agent_comm.Transport.Endpoints.{Endpoint}
use robotsix_agent_comm.Broker.State.{Server, log}
use robotsix_agent_comm.Broker.Http.{World, Request, response, empty, get, post, delete}
use robotsix_agent_comm.Broker.Auth.{
  authenticate, proceed, admit, check_rate_limit, admit_stage, limit_stage,
}
use robotsix_agent_comm.Broker.Register.{accept_registration, handle_register, register_body, judge}
use robotsix_agent_comm.Broker.Deregister.{handle_deregister, forget, agent_id_of_path}
use robotsix_agent_comm.Broker.Poll.{Wake, answered, polled}
use robotsix_agent_comm.Broker.Dispatch.{
  handle_request, route_method, route_get, route_post, route_delete, allows_query_token,
}
use robotsix_agent_comm.Brokered.Directory.{registration_body}
use robotsix_agent_comm.Brokered.Directory.Enrolment.{
  IsOpen, registration_of, validate_payload-registration_body,
}
use robotsix_agent_comm.Broker.Agents.{handle_agents}
use robotsix_agent_comm.Brokered.Wire.{
  Wire, request_of, register_request, unregister_request, listing_request,
}
use robotsix_agent_comm.Brokered.Wire.Shown.{Trusts, authenticate-request_of}

check_rate_limit-free :
    (now : ℕ) (key : String) (s : Server)
    → s.rate_limit_per_second ≡ 0
    → check_rate_limit now key s ≡ (true, s)
unfolding check_rate_limit
check_rate_limit-free now key s free = ground (arith, free)

admit-free :
    (w : World) (b : Bool) (r : Request) (s : Server) (a : String)
    → s.rate_limit_per_second ≡ 0
    → authenticate s b r ≡ proceed a
    → admit w b r s ≡ (proceed a, s)
unfolding admit admit_stage limit_stage
admit-free w b r s a free h = rw (h, check_rate_limit-free w.now _ s free) refl

plain_id : (a : String) → a ≢ "" → agent_id_of_path (join "/agents/" a) ≡ a
unfolding agent_id_of_path starts_with_text starts_with_codes codes text_drop
plain_id a n = refl

plain_path : (a : String) → starts_with_text "/agents/" (join "/agents/" a) ≡ true
unfolding starts_with_text starts_with_codes codes
plain_path a = refl

pub kept-Trusts :
    {s s' : Server} {a t : String}
    → s'.agent_tokens ≡ s.agent_tokens
    → s'.token_to_agent ≡ s.token_to_agent
    → Trusts s a t
    → Trusts s' a t
kept-Trusts on table k = record {
  tokens = k.tokens;
  on = on ∙ k.on;
  table = table ∙ k.table;
  distinct = k.distinct;
  unshared = k.unshared;
  own = k.own;
}

module _ (w : World) (wire : Wire) (wakes : List Wake) (s : Server) (a t : String)
    (k : Trusts s a t) (free : s.rate_limit_per_second ≡ 0) where
  pub register_answer :
      (e : Endpoint) (caps : Fields)
      → IsOpen a e
      → ltb s.max_body_size (wire.length_of (some (obj (registration_body e caps)))) ≡ false
      → handle_request w (register_request wire (some t) e caps) wakes s
        ≡ polled (accept_registration w (registration_of e caps) s)
  unfolding handle_request register_request route_method route_post handle_register register_body
      judge request_of
  register_answer e caps o fits =
      rw
        (
          admit-free w false (register_request wire (some t) e caps) s a free (
              authenticate-request_of wire post "/agents" (some (obj (registration_body e caps)))
                false s a t k),
          fits,
          validate_payload-registration_body a e o caps,
        )
        refl

  pub unregister_answer :
      wire.split (join "/agents/" a) ≡ (join "/agents/" a, [])
      → a ≢ ""
      → handle_request w (unregister_request wire (some t) a) wakes s
        ≡ answered
            (response 204 empty)
            (log w.wall "deregister" a (concat "/agents/" a) 204 "deregistered" (forget a s))
  unfolding handle_request unregister_request route_method route_delete handle_deregister request_of
  unregister_answer plain n =
      let absent : str_eq a "" ≡ false = ground (arith, n, eq_iff a "") in
      rw
        (
          admit-free w false (unregister_request wire (some t) a) s a free
              (authenticate-request_of wire delete (join "/agents/" a) none false s a t k),
          plain,
          plain_path a,
          plain_id a n,
          absent,
          eq_refl a,
        )
        refl

  pub listing_answer :
      wire.split "/agents" ≡ ("/agents", [])
      → handle_request w (listing_request wire (some t)) wakes s ≡ polled (handle_agents w s)
  unfolding handle_request listing_request route_method route_get request_of
  listing_answer plain =
      let r = listing_request wire (some t) in
      let b = allows_query_token r in
      rw
        (
          admit-free w b r s a free (authenticate-request_of wire get "/agents" none b s a t k),
          plain,
        )
        refl
