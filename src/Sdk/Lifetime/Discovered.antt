-- ===== src/Sdk/Lifetime/Discovered.antt =====
-- sdk and broker/server.py: what other clients of the broker find out about a responder.
use robotsix_agent_comm.Prelude.{
  String, arith, Option, none, List, if◌then◌else◌, Bool-cases, eq_iff, ap₂, ltb, Bool, false, ◌||◌,
  some, List, [], ◌∷◌, map, str_eq, ◌≡◌, ◌≢◌, refl, ap, ◌∙◌, is_some, inl, inr,
}
use robotsix_agent_comm.Prelude.Int.{pos}
use robotsix_agent_comm.Prelude.Dict
use robotsix_agent_comm.Prelude.Text.{text_length, starts_with_text, starts_with_codes, codes}
use robotsix_agent_comm.Protocol.Value.{Fields, Value, str, obj, Items, nil, cons, at, at_or}
use robotsix_agent_comm.Protocol.Messages.{Stamp}
use robotsix_agent_comm.Transport.Registry
use robotsix_agent_comm.Broker.State.{Server}
use robotsix_agent_comm.Broker.Http.{World}
use robotsix_agent_comm.Broker.Agents.{handle_agents}
use robotsix_agent_comm.Broker.Poll.{Wake, polled}
use robotsix_agent_comm.Broker.Dispatch.{handle_request}
use robotsix_agent_comm.Brokered.Directory.{
  AgentInfo, supported_kinds, registration_body, listed, discover_agents, parsed_of,
}
use robotsix_agent_comm.Brokered.Directory.Listings.{info_of, discover_agents-handle_agents}
use robotsix_agent_comm.Brokered.Directory.Enrolment.{IsOpen}
use robotsix_agent_comm.Brokered.Wire.{Wire, listing_request}
use robotsix_agent_comm.Brokered.Wire.Shown.{Trusts}
use robotsix_agent_comm.Brokered.Wire.Visible.{register_request-found}
use robotsix_agent_comm.Sdk.Responder.{Responder, lookup_handler}
use robotsix_agent_comm.Sdk.Responder.Kinds
use robotsix_agent_comm.Sdk.Responder.Kinds.{
  contains, texts_of, registration_capabilities, HasMethods, supported_kinds_lem,
}
use robotsix_agent_comm.Sdk.Conversation.{responder_agent}
use robotsix_agent_comm.Sdk.Lifetime.{pull_endpoint, start}

-- `kind in info.supported_kinds`
unfoldable pub offers : String → Items → Bool
offers kind nil = false
offers kind (cons (str k) vs) = str_eq k kind || offers kind vs
offers kind (cons _ vs) = offers kind vs

offers-texts_of : (kind : String) (ks : List String) → offers kind (texts_of ks) ≡ contains kind ks
unfolding offers
offers-texts_of kind [] = refl
offers-texts_of kind (k ∷ ks) = ap (λ b. str_eq k kind || b) (offers-texts_of kind ks)

-- the entry of an agent among those that a discovery returns, the first if there are several
abbrev pub find_info : String → List AgentInfo → Option AgentInfo
find_info a [] = none
find_info a (i ∷ is) = if str_eq i.agent_id a then some i else find_info a is

find_info-map :
    (a : String) (caps : Fields) (d : Dict.Dict Fields)
    → Dict.lookup a d ≡ some caps
    → find_info a (map info_of d) ≡ some (info_of (a, caps))
unfolding Dict.lookup
find_info-map a caps [] h = absurd (ground (arith, h))
find_info-map a caps ((k, c) ∷ d) h = elim (Bool-cases (str_eq k a)) [
  | inl e ↦
      let same : k ≡ a = (eq_iff k a).0 e in
      let held : c ≡ caps = ground (arith, e, h) in
      rw (e) (ap some (ap₂ (λ x y. info_of (x, y)) same held))
  | inr e ↦ rw (e) (find_info-map a caps d (ground (arith, e, h)))
]

pub pull_endpoint-IsOpen :
    (a : String) → a ≢ "" → ltb 255 (text_length a) ≡ false → IsOpen a (pull_endpoint a)
unfolding text_length starts_with_text starts_with_codes codes
pull_endpoint-IsOpen a named short = record {
  named = named;
  short = short;
  own = inr refl;
  host_present = λ e. cc;
  host_short = λ e. cc;
  port_valid = inr (refl, refl);
  scheme_listed = inl refl;
  path_absolute = refl;
}

module _ (w v : World) (wire : Wire) (wakes : List Wake) (s : Server) (t b u : String)
    (r : Responder) (k : Trusts s r.agent_id t) (l : Trusts s b u)
    (free : s.rate_limit_per_second ≡ 0) (plain : wire.split "/agents" ≡ ("/agents", []))
    (repr : String → String) (stamp : Stamp) (show : Value → String) where
  -- A responder with an id of at most 255 characters, that has the token of its agent and whose
  -- class has the methods of its built-in kinds, starts at a broker with no rate limit, and its
  -- registration is not too long. The broker then has its mailbox endpoint, and another client with a
  -- token that asks for the listing gets it and discovers all agents, with for each the capabilities
  -- that the broker holds, among them the responder, under its id, with exactly the kinds that it has
  -- a handler for.
  pub responder_discovered :
      HasMethods r
      → r.agent_id ≢ ""
      → ltb 255 (text_length r.agent_id) ≡ false
      → ltb s.max_body_size (
          wire.length_of (
            some
              (obj (registration_body (pull_endpoint r.agent_id) (registration_capabilities r)))))
        ≡ false
      → let after =
          (start w wire
            (some t)
            wakes
            (registration_capabilities r)
            (responder_agent repr stamp r, s)).1 in
        (info : AgentInfo) × (Registry.lookup r.agent_id after.registry
          ≡ some (pull_endpoint r.agent_id))
        × (handle_request v (listing_request wire (some u)) wakes after
            ≡ polled (handle_agents v after))
        × (discover_agents show 200 (parsed_of (handle_agents v after).0)
            ≡ listed (map info_of after.capabilities))
        × (info.agent_id ≡ r.agent_id)
        × (find_info r.agent_id (map info_of after.capabilities) ≡ some info)
        × (Dict.lookup r.agent_id after.capabilities ≡ some info.capabilities)
        × ((kind : String) → offers kind (supported_kinds info) ≡ is_some (lookup_handler r kind))
  unfolding start responder_agent supported_kinds registration_capabilities at_or at
  responder_discovered has named short fits =
      let e = pull_endpoint r.agent_id in
      let caps = registration_capabilities r in
      let is_open = pull_endpoint-IsOpen r.agent_id named short in
      let (held, caps_held, told, _) =
        register_request-found w v wire wakes s r.agent_id t b u k l free plain (pos 0) e caps
          is_open fits in
      let after = (start w wire (some t) wakes caps (responder_agent repr stamp r, s)).1 in
      (
        info_of (r.agent_id, caps),
        held,
        told,
        (discover_agents-handle_agents show (pos 0) v after).0,
        refl,
        find_info-map r.agent_id caps after.capabilities caps_held,
        caps_held,
        λ kind. offers-texts_of kind (Kinds.supported_kinds r) ∙ supported_kinds_lem r has kind,
      )
