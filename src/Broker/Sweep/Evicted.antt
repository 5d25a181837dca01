-- ===== src/Broker/Sweep/Evicted.antt =====
-- Which agents a sweep evicts.
use robotsix_agent_comm.Prelude.{
  String, ℕ, ◌+◌, ◌*◌, ◌<◌, Bool, true, false, Option, none, some, [], ◌∷◌, ◌≡◌, refl, ◌↔◌, inl,
  inr, arith, eq_iff, Bool-cases, Option-cases,
}
use robotsix_agent_comm.Prelude.Int.{ℤ, pos, negsuc, ◌+ℤ◌, pos_part, neg_part}
use robotsix_agent_comm.Prelude.Dict
use robotsix_agent_comm.Prelude.Dict.{lookup-remove}
use robotsix_agent_comm.Transport.Endpoints.{Endpoint}
use robotsix_agent_comm.Transport.Registry
use robotsix_agent_comm.Transport.Registry.Laws.{Named}
use robotsix_agent_comm.Broker.RateLimit.{second}
use robotsix_agent_comm.Broker.State.{Server}
use robotsix_agent_comm.Broker.Sweep.{grace_of, overdue, expired, sweep_once}
use robotsix_agent_comm.Broker.Invariant.{IsConsistent}
use robotsix_agent_comm.Broker.Sweep.Rounds.{evicts, LeftAfter, sweep_all_facts}

evicts-values :
    (now : ℕ) (grace : ℤ) (d : Dict.Dict Endpoint) (a : String) (h : Option ℕ) (t : Option ℤ)
    → Dict.IsDict d
    → Named d
    → evicts now grace (Dict.values d) a h t
      ≡ elim (Dict.lookup a d) [ none ↦ false | some e ↦ expired now (grace_of e grace) h t ]
unfolding evicts Dict.values Dict.lookup
evicts-values now grace [] a h t u n = refl
evicts-values now grace ((k, e) ∷ d) a h t u n =
    ground
      (arith, evicts-values now grace d a h t u.1 n.1, u.0, n.0, eq_iff k a, eq_iff e.agent_id a)

-- An agent is overdue: it has a TTL above 0, and since its last heartbeat more time has passed than
-- the TTL and, for a mailbox agent, the grace.
pub record IsOverdue (now : ℕ) (a : String) (s : Server) : Type 0 where
  pub endpoint : Endpoint
  pub registered : Registry.lookup a s.registry ≡ some endpoint
  pub heartbeat : ℕ
  pub seen : Dict.lookup a s.last_heartbeat ≡ some heartbeat
  pub ttl : ℕ
  pub timed : Dict.lookup a s.ttl_seconds ≡ some (pos ttl)
  pub positive : 0 < ttl
  pub late :
      heartbeat + ttl * second + pos_part (grace_of endpoint s.mailbox_grace_seconds)
      < now + neg_part (grace_of endpoint s.mailbox_grace_seconds)

overdue_iff :
    (now h t : ℕ) (g : ℤ)
    → (overdue now h t g ≡ true) ↔ (h + t * second + pos_part g < now + neg_part g)
unfolding overdue ◌+ℤ◌
overdue_iff now h t (pos n) = (λ x. ground arith, λ x. ground arith)
overdue_iff now h t (negsuc n) = (λ x. ground arith, λ x. ground arith)

abbrev doomed : ℕ → String → Server → Bool
doomed now a s = elim (Registry.lookup a s.registry) [
  | none ↦ false
  | some e ↦
      expired now (grace_of e s.mailbox_grace_seconds) (Dict.lookup a s.last_heartbeat)
        (Dict.lookup a s.ttl_seconds)
]

expired_parts :
    (now : ℕ) (g : ℤ) (heartbeat : Option ℕ) (ttl : Option ℤ)
    → expired now g heartbeat ttl ≡ true
    → (h t : ℕ) × (heartbeat ≡ some h) × (ttl ≡ some (pos t)) × (0 < t) × (overdue now h t g ≡ true)
unfolding expired
expired_parts now g none ttl e = cc
expired_parts now g (some h) none e = cc
expired_parts now g (some h) (some (negsuc n)) e = cc
expired_parts now g (some h) (some (pos n)) e = (h, n, refl, refl, ground arith, ground arith)

doomed_sound : (now : ℕ) (a : String) (s : Server) → doomed now a s ≡ true → IsOverdue now a s
doomed_sound now a s d = elim (Option-cases (Registry.lookup a s.registry)) [
  | inl e ↦ absurd (ground (arith, e))
  | inr (x, e) ↦
      let g = grace_of x s.mailbox_grace_seconds in
      let (h, t, seen, timed, positive, late) =
        expired_parts now g (Dict.lookup a s.last_heartbeat) (Dict.lookup a s.ttl_seconds)
          (ground (arith, e)) in
      record {
        endpoint = x;
        registered = e;
        heartbeat = h;
        seen = seen;
        ttl = t;
        timed = timed;
        positive = positive;
        late = (overdue_iff now h t g).0 late;
      }
]

doomed_iff : (now : ℕ) (a : String) (s : Server) → (doomed now a s ≡ true) ↔ IsOverdue now a s
unfolding expired
doomed_iff now a s = (
  doomed_sound now a s,
  λ o. ground (
    arith,
    o.registered,
    o.seen,
    o.timed,
    (overdue_iff now o.heartbeat o.ttl (grace_of o.endpoint s.mailbox_grace_seconds)).1 o.late,
  ),
)

sweep_once_facts :
    (now : ℕ) (a : String) (s : Server)
    → IsConsistent s
    → LeftAfter (doomed now a s) a s (sweep_once now s)
unfolding sweep_once Registry.list_agents Registry.lookup
sweep_once_facts now a s c =
    let all = sweep_all_facts now (Registry.list_agents s.registry) a s in
    let e =
      evicts-values now s.mailbox_grace_seconds s.registry.endpoints a
        (Dict.lookup a s.last_heartbeat) (Dict.lookup a s.ttl_seconds) c.sound.distinct
        c.sound.names in
    (ground (arith, all.0, e), ground (arith, all.1, e))

-- A sweep of a consistent server removes an overdue agent from the registry, and its mailbox; of
-- any other agent it leaves the endpoint and the queued messages as they are.
pub sweep_once_exact :
    (now : ℕ) (a : String) (s : Server)
    → IsConsistent s
    → (IsOverdue now a s → LeftAfter true a s (sweep_once now s))
      × (¬ IsOverdue now a s → LeftAfter false a s (sweep_once now s))
sweep_once_exact now a s c =
    let facts = sweep_once_facts now a s c in
    (
      λ o. rw ((doomed_iff now a s).1 o) at facts,
      λ no_. elim (Bool-cases (doomed now a s)) [
        | inl e ↦ absurd (no_ ((doomed_iff now a s).0 e))
        | inr e ↦ rw e at facts
      ],
    )
