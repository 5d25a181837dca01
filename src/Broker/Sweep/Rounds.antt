-- ===== src/Broker/Sweep/Rounds.antt =====
-- What the loop of a sweep over the endpoints leaves of an agent.
use robotsix_agent_comm.Prelude.{
  String, ℕ, Bool, false, Option, none, List, [], ◌∷◌, ◌≡◌, refl, inl, inr, arith, str_eq, eq_iff,
  if◌then◌else◌, Bool-cases, ◌&&◌, ◌||◌,
}
use robotsix_agent_comm.Prelude.Int.{ℤ}
use robotsix_agent_comm.Prelude.Dict
use robotsix_agent_comm.Prelude.Dict.{lookup-remove}
use robotsix_agent_comm.Transport.Endpoints.{Endpoint}
use robotsix_agent_comm.Transport.Registry
use robotsix_agent_comm.Transport.Registry.Laws.{lookup-unregister_quietly}
use robotsix_agent_comm.Broker.State.{Server}
use robotsix_agent_comm.Broker.Deregister.{forget}
use robotsix_agent_comm.Broker.Sweep.{grace_of, expired, sweep_agent, sweep_all}

-- whether one of the endpoints is the agent's and makes the sweep evict it
unfoldable pub evicts : ℕ → ℤ → List Endpoint → String → Option ℕ → Option ℤ → Bool
evicts now grace [] a heartbeat ttl = false
evicts now grace (e ∷ es) a heartbeat ttl =
    (str_eq e.agent_id a && expired now (grace_of e grace) heartbeat ttl)
    || evicts now grace es a heartbeat ttl

evicts-none :
    (now : ℕ) (grace : ℤ) (es : List Endpoint) (a : String) (ttl : Option ℤ)
    → evicts now grace es a none ttl ≡ false
unfolding evicts expired
evicts-none now grace [] a ttl = refl
evicts-none now grace (e ∷ es) a ttl = ground (arith, evicts-none now grace es a ttl)

abbrev pub evicted_in : ℕ → List Endpoint → String → Server → Bool
evicted_in now es a s =
    evicts now s.mailbox_grace_seconds es a (Dict.lookup a s.last_heartbeat)
      (Dict.lookup a s.ttl_seconds)

-- What a sweep leaves of an agent in the registry and among the mailboxes.
abbrev pub LeftAfter : Bool → String → Server → Server → Type 0
LeftAfter evicted a s s' =
    (Registry.lookup a s'.registry ≡ (if evicted then none else Registry.lookup a s.registry))
    × (Dict.lookup a s'.mailboxes ≡ (if evicted then none else Dict.lookup a s.mailboxes))

forget_facts :
    (b a : String) (s : Server)
    → LeftAfter (str_eq b a) a s (forget b s)
      × (Dict.lookup a (forget b s).last_heartbeat
          ≡ (if str_eq b a then none else Dict.lookup a s.last_heartbeat))
      × (Dict.lookup a (forget b s).ttl_seconds
          ≡ (if str_eq b a then none else Dict.lookup a s.ttl_seconds))
unfolding forget
forget_facts b a s = (
  (lookup-unregister_quietly b s.registry a, lookup-remove b a s.mailboxes),
  lookup-remove b a s.last_heartbeat,
  lookup-remove b a s.ttl_seconds,
)

module _ (now : ℕ) (e : Endpoint) (a : String) (s : Server) where
  abbrev hit : Bool
  hit =
      str_eq e.agent_id a
      && expired now (grace_of e s.mailbox_grace_seconds) (Dict.lookup a s.last_heartbeat)
          (Dict.lookup a s.ttl_seconds)

  step_registry :
      Registry.lookup a (sweep_agent now e s).registry
      ≡ (if hit then none else Registry.lookup a s.registry)
  unfolding sweep_agent
  step_registry = ground (arith, (forget_facts e.agent_id a s).0.0, eq_iff e.agent_id a)

  step_mailboxes :
      Dict.lookup a (sweep_agent now e s).mailboxes
      ≡ (if hit then none else Dict.lookup a s.mailboxes)
  unfolding sweep_agent
  step_mailboxes = ground (arith, (forget_facts e.agent_id a s).0.1, eq_iff e.agent_id a)

  step_heartbeat :
      Dict.lookup a (sweep_agent now e s).last_heartbeat
      ≡ (if hit then none else Dict.lookup a s.last_heartbeat)
  unfolding sweep_agent
  step_heartbeat = ground (arith, (forget_facts e.agent_id a s).1, eq_iff e.agent_id a)

  step_ttl :
      Dict.lookup a (sweep_agent now e s).ttl_seconds
      ≡ (if hit then none else Dict.lookup a s.ttl_seconds)
  unfolding sweep_agent
  step_ttl = ground (arith, (forget_facts e.agent_id a s).2, eq_iff e.agent_id a)

  step_grace : (sweep_agent now e s).mailbox_grace_seconds ≡ s.mailbox_grace_seconds
  unfolding sweep_agent forget
  step_grace = ground arith

pub sweep_all_facts :
    (now : ℕ) (es : List Endpoint) (a : String) (s : Server)
    → LeftAfter (evicted_in now es a s) a s (sweep_all now es s)
unfolding sweep_all evicts
sweep_all_facts now [] a s = (refl, refl)
sweep_all_facts now (e ∷ es) a s =
    let s' = sweep_agent now e s in
    let ih = sweep_all_facts now es a s' in
    elim (Bool-cases (hit now e a s)) [
      | inl h ↦ (
        ground (
          arith,
          h,
          ih.0,
          step_registry now e a s,
          step_heartbeat now e a s,
          evicts-none now s'.mailbox_grace_seconds es a (Dict.lookup a s'.ttl_seconds),
        ),
        ground (
          arith,
          h,
          ih.1,
          step_mailboxes now e a s,
          step_heartbeat now e a s,
          evicts-none now s'.mailbox_grace_seconds es a (Dict.lookup a s'.ttl_seconds),
        ),
      )
      | inr h ↦ (
        ground (
          arith,
          h,
          ih.0,
          step_registry now e a s,
          step_heartbeat now e a s,
          step_ttl now e a s,
          step_grace now e a s,
        ),
        ground (
          arith,
          h,
          ih.1,
          step_mailboxes now e a s,
          step_heartbeat now e a s,
          step_ttl now e a s,
          step_grace now e a s,
        ),
      )
    ]

-- In a sound registry, the agent's own endpoint is the only one that counts.
