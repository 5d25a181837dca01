-- ===== src/Broker/Invariant/Changes.antt =====
-- broker/server.py: a new server, a registration and a removal, and the consistency of the tables.
use robotsix_agent_comm.Prelude.{
  String, ℕ, Bool, none, some, [], not, ◌≡◌, refl, arith, str_eq, eq_iff, is_some, if◌then◌else◌,
  ◌||◌, Option-cases, inl, inr,
}
use robotsix_agent_comm.Prelude.Int.{ℤ}
use robotsix_agent_comm.Prelude.Dict
use robotsix_agent_comm.Prelude.Dict.{lookup-insert, lookup-remove, lookup-set_default}
use robotsix_agent_comm.Transport.Registry
use robotsix_agent_comm.Transport.Registry.Laws.{
  lookup-register, lookup-unregister_quietly, register-IsRegistry, unregister_quietly-IsRegistry,
}
use robotsix_agent_comm.Broker.State.{Server, Options, new_server}
use robotsix_agent_comm.Broker.Register.{Registration, enroll, endpoint_of, ttl_after}
use robotsix_agent_comm.Broker.Deregister.{forget}
use robotsix_agent_comm.Broker.Invariant.{IsConsistent}

-- The tables of a new server, on which no agent is registered, are consistent.
pub new_server-IsConsistent : (o : Options) → IsConsistent (new_server o)
unfolding new_server Registry.empty Registry.lookup Dict.lookup
new_server-IsConsistent o = record {
  sound = record { distinct = tt; names = tt };
  named = λ a e h. cc;
  listed = λ a. refl;
  beating = λ a. refl;
  timed = λ a. refl;
  queued = λ a e h m. cc;
  owned = λ a h. h;
}

pub forget-IsConsistent : (b : String) {s : Server} → IsConsistent s → IsConsistent (forget b s)
unfolding forget
forget-IsConsistent b {s} c = record {
  sound = unregister_quietly-IsRegistry b c.sound;
  named = λ a e h. ground (arith, lookup-unregister_quietly b s.registry a, c.named a e);
  listed = λ a. ground (
    arith,
    lookup-unregister_quietly b s.registry a,
    lookup-remove b a s.capabilities,
    c.listed a,
  );
  beating = λ a. ground (
    arith,
    lookup-unregister_quietly b s.registry a,
    lookup-remove b a s.last_heartbeat,
    c.beating a,
  );
  timed = λ a.
      ground (
        arith,
        lookup-unregister_quietly b s.registry a,
        lookup-remove b a s.ttl_seconds,
        c.timed a,
      );
  queued = λ a e h m. ground (
    arith,
    lookup-unregister_quietly b s.registry a,
    lookup-remove b a s.mailboxes,
    c.queued a e,
  );
  owned = λ a h.
      ground
        (arith, lookup-unregister_quietly b s.registry a, lookup-remove b a s.mailboxes, c.owned a);
}

module _ (now : ℕ) (g : Registration) (s : Server) (c : IsConsistent s) where
  abbrev pub enroll_is_new : Bool
  enroll_is_new = not (is_some (Registry.lookup g.agent_id s.registry))

  timed_after :
      (a : String)
      → is_some (Dict.lookup a (ttl_after g enroll_is_new s))
        ≡ (str_eq g.agent_id a || is_some (Registry.lookup a s.registry))
  unfolding ttl_after
  timed_after a = elim (Option-cases g.ttl) [
    | inl e ↦ ground (
      arith,
      e,
      ttl_default,
      lookup-insert g.agent_id a s.default_ttl_seconds s.ttl_seconds,
      c.timed a,
      c.timed g.agent_id,
      eq_iff g.agent_id a,
    )
    | inr (t, e) ↦
        ground (arith, ttl_given t e, lookup-insert g.agent_id a t s.ttl_seconds, c.timed a)
  ]
    where
      ttl_default :
          g.ttl ≡ none
          → ttl_after g enroll_is_new s ≡ (
              if enroll_is_new
              then Dict.insert g.agent_id s.default_ttl_seconds s.ttl_seconds
              else s.ttl_seconds)
      ttl_default e = ground (arith, e)

      ttl_given :
          (t : ℤ)
          → g.ttl ≡ some t
          → ttl_after g enroll_is_new s ≡ Dict.insert g.agent_id t s.ttl_seconds
      ttl_given t e = ground (arith, e)

  pub enroll-IsConsistent : IsConsistent (enroll now g enroll_is_new s)
  unfolding enroll
  enroll-IsConsistent = record {
    sound = register-IsRegistry (endpoint_of g) c.sound;
    named = λ a e h.
        ground
          (arith, lookup-register (endpoint_of g) s.registry a, eq_iff g.agent_id a, c.named a e);
    listed = λ a. ground (
      arith,
      lookup-register (endpoint_of g) s.registry a,
      lookup-insert g.agent_id a g.caps s.capabilities,
      c.listed a,
    );
    beating = λ a. ground (
      arith,
      lookup-register (endpoint_of g) s.registry a,
      lookup-insert g.agent_id a now s.last_heartbeat,
      c.beating a,
    );
    timed = λ a. ground (arith, lookup-register (endpoint_of g) s.registry a, timed_after a);
    queued = λ a e h m. ground (
      arith,
      lookup-register (endpoint_of g) s.registry a,
      lookup-set_default g.agent_id a [] s.mailboxes,
      eq_iff g.agent_id a,
      c.queued a e,
    );
    owned = λ a h. ground (
      arith,
      lookup-register (endpoint_of g) s.registry a,
      lookup-set_default g.agent_id a [] s.mailboxes,
      eq_iff g.agent_id a,
      c.owned a,
    );
  }
