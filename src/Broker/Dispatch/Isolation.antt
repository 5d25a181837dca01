-- ===== src/Broker/Dispatch/Isolation.antt =====
-- broker/server.py: what the requests of one agent can change of another's entries.
pub mod Waits
pub mod Requests
use robotsix_agent_comm.Prelude.{
  String, ℕ, ltb, leb, Bool, true, false, not, Option, none, some, List, [], ◌∷◌, ◌++◌, ◌≡◌, ◌≢◌,
  refl, sym, ◌∙◌, arith, str_eq, eq_iff, if◌then◌else◌, ◌&&◌, ◌||◌, ◌⊎◌, inl, inr, Bool-cases,
  Option-cases, or_else, is_some, ◌==◌,
}
use robotsix_agent_comm.Prelude.Dict
use robotsix_agent_comm.Prelude.Dict.{lookup-insert, lookup-remove, lookup-set_default}
use robotsix_agent_comm.Prelude.Text.{starts_with_text}
use robotsix_agent_comm.Protocol.Value.{Value, str, obj, Fields}
use robotsix_agent_comm.Protocol.Errors.{ok, err, fault}
use robotsix_agent_comm.Protocol.Messages.{Message}
use robotsix_agent_comm.Protocol.Serialization.{serialize, deserialize}
use robotsix_agent_comm.Transport.Endpoints.{health_path, default_message_path}
use robotsix_agent_comm.Transport.Registry
use robotsix_agent_comm.Transport.Registry.Laws.{lookup-register, lookup-unregister_quietly}
use robotsix_agent_comm.Broker.State
use robotsix_agent_comm.Broker.State.{Server, log, append_traffic}
use robotsix_agent_comm.Broker.Http.{
  Method, get, post, delete, Request, World, Answer, response, crash, json, dashboard_html,
}
use robotsix_agent_comm.Broker.Auth
use robotsix_agent_comm.Broker.Auth.{Stage, proceed, authenticate, admit, admit_stage}
use robotsix_agent_comm.Broker.Register.{
  Registration, accept, reject, enroll, endpoint_of, ttl_after, accept_registration, judge,
  reject_request, register_body, handle_register, validate_payload,
}
use robotsix_agent_comm.Broker.Register.Validated.{IsSound, validate_payload-IsSound}
use robotsix_agent_comm.Broker.Deregister.{
  forget, refuse_deregister, handle_deregister, agent_id_of_path,
}
use robotsix_agent_comm.Broker.Send.{
  record_traffic, enqueue, refuse_send, queue_message, forward, dispatch_message, send_message,
  handle_send, is_text,
}
use robotsix_agent_comm.Broker.Agents.{handle_agents}
use robotsix_agent_comm.Broker.Traffic.{handle_traffic}
use robotsix_agent_comm.Broker.Poll
use robotsix_agent_comm.Broker.Poll.{
  server_of, Wake, Polled, waiting, polled, deliver, look, wait_for_messages, heartbeat,
  auto_register, self_heal, begin_poll, handle_poll,
}
use robotsix_agent_comm.Broker.Dispatch.{
  route_get, route_post, route_delete, route_method, handle_request, allows_query_token, go_on,
  is_get, not_found,
}

-- The mailbox of `b` is as before, or has one message more, at its end, that names `p` as sender.
abbrev pub Posted : String → String → Server → Server → Type 0
Posted p b s t =
    (Dict.lookup b t.mailboxes ≡ Dict.lookup b s.mailboxes)
    ⊎ ((m : Message) × (m.metadata.sender ≡ str p)
        × (Dict.lookup b t.mailboxes
            ≡ some (or_else (Dict.lookup b s.mailboxes) [] ++ serialize m ∷ [])))

-- What a request of `p` leaves of the entries of `b`.
pub record Spares (p b : String) (s t : Server) : Type 0 where
  pub registry : Registry.lookup b t.registry ≡ Registry.lookup b s.registry
  pub capabilities : Dict.lookup b t.capabilities ≡ Dict.lookup b s.capabilities
  pub last_heartbeat : Dict.lookup b t.last_heartbeat ≡ Dict.lookup b s.last_heartbeat
  pub ttl_seconds : Dict.lookup b t.ttl_seconds ≡ Dict.lookup b s.ttl_seconds
  pub mailbox : Posted p b s t

module _ (p b : String) (s : Server) (other : str_eq p b ≡ false) where
  pub self : Spares p b s s
  self = record {
    registry = refl;
    capabilities = refl;
    last_heartbeat = refl;
    ttl_seconds = refl;
    mailbox = inl refl;
  }

  pub log-Spares :
      (wall : ℕ) (action a path : String) (status : ℕ) (detail : String) {t : Server}
      → Spares p b s t
      → Spares p b s (log wall action a path status detail t)
  unfolding log
  log-Spares wall action a path status detail x = record {
    registry = x.registry;
    capabilities = x.capabilities;
    last_heartbeat = x.last_heartbeat;
    ttl_seconds = x.ttl_seconds;
    mailbox = x.mailbox;
  }

  pub traffic-Spares :
      (r : State.TrafficRecord) {t : Server} → Spares p b s t → Spares p b s (append_traffic r t)
  unfolding append_traffic
  traffic-Spares r x = record {
    registry = x.registry;
    capabilities = x.capabilities;
    last_heartbeat = x.last_heartbeat;
    ttl_seconds = x.ttl_seconds;
    mailbox = x.mailbox;
  }

  ttl-Spares :
      (g : Registration) (is_new : Bool)
      → g.agent_id ≡ p
      → Dict.lookup b (ttl_after g is_new s) ≡ Dict.lookup b s.ttl_seconds
  unfolding ttl_after
  ttl-Spares g is_new own = elim (Option-cases g.ttl) [
    | inl e ↦
        ground
          (arith, e, own, other, lookup-insert g.agent_id b s.default_ttl_seconds s.ttl_seconds)
    | inr (n, e) ↦ ground (arith, e, own, other, lookup-insert g.agent_id b n s.ttl_seconds)
  ]

  pub enroll-Spares :
      (now : ℕ) (g : Registration) (is_new : Bool)
      → g.agent_id ≡ p
      → Spares p b s (enroll now g is_new s)
  unfolding enroll endpoint_of ttl_after
  enroll-Spares now g is_new own = record {
    registry = ground (arith, own, other, lookup-register (endpoint_of g) s.registry b);
    capabilities = ground (arith, own, other, lookup-insert g.agent_id b g.caps s.capabilities);
    last_heartbeat = ground (arith, own, other, lookup-insert g.agent_id b now s.last_heartbeat);
    ttl_seconds = ttl-Spares g is_new own;
    mailbox = inl (ground (arith, own, other, lookup-set_default g.agent_id b [] s.mailboxes));
  }

  pub forget-Spares : Spares p b s (forget p s)
  unfolding forget
  forget-Spares = record {
    registry = lookup-unregister_quietly p s.registry b ∙ rw (other) refl;
    capabilities = ground (arith, other, lookup-remove p b s.capabilities);
    last_heartbeat = ground (arith, other, lookup-remove p b s.last_heartbeat);
    ttl_seconds = ground (arith, other, lookup-remove p b s.ttl_seconds);
    mailbox = inl (ground (arith, other, lookup-remove p b s.mailboxes));
  }

  pub enqueue-Spares :
      (m : Message) (a : String)
      → m.metadata.sender ≡ str p
      → Spares p b s (enqueue a (serialize m) s)
  unfolding enqueue
  enqueue-Spares m a from = record {
    registry = refl;
    capabilities = refl;
    last_heartbeat = refl;
    ttl_seconds = refl;
    mailbox = elim (Bool-cases (str_eq a b)) [
      | inl e ↦ inr (
        m,
        from,
        ground (
          arith,
          e,
          eq_iff a b,
          lookup-insert a b (or_else (Dict.lookup a s.mailboxes) [] ++ serialize m ∷ [])
              s.mailboxes,
        ),
      )
      | inr e ↦ inl (
          ground (
            arith,
            e,
            lookup-insert a b (or_else (Dict.lookup a s.mailboxes) [] ++ serialize m ∷ [])
                s.mailboxes,
          ))
    ];
  }

  heartbeat-Spares : (now : ℕ) {t : Server} → Spares p b s t → Spares p b s (heartbeat now p t)
  unfolding heartbeat
  heartbeat-Spares now {t} x = elim (Bool-cases (is_some (Dict.lookup p t.ttl_seconds))) [
    | inl e ↦ rw (e) (record {
      registry = x.registry;
      capabilities = x.capabilities;
      ttl_seconds = x.ttl_seconds;
      mailbox = x.mailbox;
      last_heartbeat =
          ground (arith, other, x.last_heartbeat, lookup-insert p b now t.last_heartbeat);
    })
    | inr e ↦ rw (e) x
  ]

  auto_register-Spares : (w : World) → Spares p b s (auto_register w p s)
  unfolding auto_register
  auto_register-Spares w = log-Spares _ _ _ _ _ _ (record {
    registry = lookup-register (Poll.mailbox_endpoint p) s.registry b ∙ rw (other) refl;
    capabilities = ground (arith, other, lookup-set_default p b Fields.end s.capabilities);
    last_heartbeat = ground (arith, other, lookup-insert p b w.now s.last_heartbeat);
    ttl_seconds = ground (arith, other, lookup-set_default p b s.default_ttl_seconds s.ttl_seconds);
    mailbox = inl (ground (arith, other, lookup-set_default p b [] s.mailboxes));
  })

  pub begin_poll-Spares : (w : World) → Spares p b s (begin_poll w p s)
  unfolding begin_poll
  begin_poll-Spares w =
      heartbeat-Spares w.now (elim (Bool-cases (is_some (Dict.lookup p s.mailboxes))) [
        | inl e ↦ rw (e, self_heal) self
        | inr e ↦ rw (e, self_heal) (auto_register-Spares w)
      ])

  pub deliver-Spares :
      (w : World) (vs : List Value) {t : Server}
      → Spares p b s t
      → Spares p b s (deliver w p vs t).1
  unfolding deliver
  deliver-Spares w vs {t} x = log-Spares _ _ _ _ _ _ (record {
    registry = x.registry;
    capabilities = x.capabilities;
    last_heartbeat = x.last_heartbeat;
    ttl_seconds = x.ttl_seconds;
    mailbox = elim x.mailbox [
      | inl e ↦ inl (ground (arith, other, e, lookup-insert p b [] t.mailboxes))
      | inr (m, from, e) ↦ inr (m, from, ground (arith, other, e, lookup-insert p b [] t.mailboxes))
    ];
  })

  -- the same of what a request leaves behind
  pub record Safe (x : Polled) : Type 0 where
    pub kept : Spares p b s (server_of x)

  pub Safe-if : (c : Bool) (x y : Polled) → Safe x → Safe y → Safe (if c then x else y)
  Safe-if true x y h k = h
  Safe-if false x y h k = k

  pub Safe-unchanged : (a : Answer) → Safe (Poll.answered a s)
  Safe-unchanged a = record { kept = self }

  pub Safe-pair : (a : Answer) {t : Server} → Spares p b s t → Safe (polled (a, t))
  Safe-pair a x = record { kept = x }

  -- the same of an answer with its server
  pub record Spared (x : Answer × Server) : Type 0 where
    pub kept : Spares p b s x.1

  pub Spared-pair : (a : Answer) {t : Server} → Spares p b s t → Spared (a, t)
  Spared-pair a x = record { kept = x }

  pub Spared-if :
      (c : Bool) (x y : Answer × Server) → Spared x → Spared y → Spared (if c then x else y)
  Spared-if true x y h k = h
  Spared-if false x y h k = k

  pub Safe-polled : (x : Answer × Server) → Spared x → Safe (polled x)
  Safe-polled x h = record { kept = h.kept }
