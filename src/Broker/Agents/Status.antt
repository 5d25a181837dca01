-- ===== src/Broker/Agents/Status.antt =====
-- broker/server.py: what `GET /agents` says of an agent, beside what `_sweep_once` does to it.
use robotsix_agent_comm.Prelude.{
  String, ℕ, ◌+◌, ◌*◌, ◌-◌, ◌<◌, Bool, true, false, ◌||◌, Option, none, some, List, [], ◌∷◌,
  is_some, ◌≡◌, ◌≢◌, refl, sym, ◌∙◌, arith, All, str_eq, eq_iff,
}
use robotsix_agent_comm.Prelude.Dict
use robotsix_agent_comm.Prelude.Dict.{Dict}
use robotsix_agent_comm.Prelude.Int.{ℤ, pos, negsuc, leb_ℤ, neg_part}
use robotsix_agent_comm.Protocol.Value.{Fields}
use robotsix_agent_comm.Transport.Endpoints.{Endpoint}
use robotsix_agent_comm.Transport.Registry
use robotsix_agent_comm.Broker.RateLimit.{second}
use robotsix_agent_comm.Broker.State.{Server}
use robotsix_agent_comm.Broker.Agents.{
  stale, unknown, AgentEntry, status_of, age_of, build_agent_entry, entries_of, list_entries,
}
use robotsix_agent_comm.Broker.Sweep.{grace_of}
use robotsix_agent_comm.Broker.Sweep.Evicted.{IsOverdue}
use robotsix_agent_comm.Broker.Invariant.{IsConsistent}

grace_natural :
    (e : Endpoint) (grace : ℤ) → leb_ℤ (pos 0) grace ≡ true → neg_part (grace_of e grace) ≡ 0
grace_natural e (pos n) h = ground arith
grace_natural e (negsuc n) h = ground arith

late_stale :
    (now heartbeat ttl : ℕ)
    → 0 < ttl
    → heartbeat + ttl * second < now
    → status_of (some (now - heartbeat)) (some (pos ttl)) ≡ stale
unfolding status_of
late_stale now heartbeat ttl positive late = ground arith

-- On a server with a mailbox grace of 0 or more, an agent that a sweep would evict now is listed as
-- stale now: none goes from active to evicted.
pub build_agent_entry_overdue :
    (now : ℕ) (a : String) (s : Server) (caps : Fields)
    → leb_ℤ (pos 0) s.mailbox_grace_seconds ≡ true
    → IsOverdue now a s
    → (build_agent_entry s.registry a caps s.last_heartbeat s.ttl_seconds now).status ≡ stale
unfolding build_agent_entry
build_agent_entry_overdue now a s caps natural o =
    let exact = grace_natural o.endpoint s.mailbox_grace_seconds natural in
    rw (o.seen, o.timed)
      (late_stale now o.heartbeat o.ttl o.positive (omega (arith, o.late, exact)))

-- the status of an agent with a TTL and a heartbeat is known
status_known :
    (age : Option ℕ) (ttl : Option ℤ)
    → is_some age ≡ true
    → is_some ttl ≡ true
    → status_of age ttl ≢ unknown
unfolding status_of
status_known none ttl h k = cc
status_known (some a) none h k = cc
status_known (some a) (some (pos n)) h k = λ e. ground (arith, e)
status_known (some a) (some (negsuc n)) h k = λ e. cc

age_known : (now : ℕ) (t : Option ℕ) → is_some (age_of now t) ≡ is_some t
age_known now none = refl
age_known now (some x) = refl

-- The listing says of an entry what the tables say.
pub record Told (s : Server) (e : AgentEntry) : Type 0 where
  pub registered : is_some (Registry.lookup e.agent_id s.registry) ≡ true
  pub known : e.status ≢ unknown

entries_of-Told :
    (s : Server) (now : ℕ) (d : Dict Fields)
    → IsConsistent s
    → ((a : String)
        → is_some (Dict.lookup a d) ≡ true
        → is_some (Dict.lookup a s.capabilities) ≡ true)
    → All (Told s) (entries_of s now d)
unfolding entries_of build_agent_entry Dict.lookup
entries_of-Told s now [] c inside = tt
entries_of-Told s now ((a, caps) ∷ d) c inside = (
  record {
    registered = sym (c.listed a) ∙ inside a (ground (arith, eq_iff a a));
    known =
        status_known _ _
          (age_known now _
            ∙ (c.beating a ∙ (sym (c.listed a) ∙ inside a (ground (arith, eq_iff a a)))))
          (c.timed a ∙ (sym (c.listed a) ∙ inside a (ground (arith, eq_iff a a))));
  },
  entries_of-Told s now d c (λ b h. inside b (ground (arith, h))),
)

-- whether the listing has an entry of the agent
pub lists : String → List AgentEntry → Bool
lists a [] = false
lists a (e ∷ es) = str_eq e.agent_id a || lists a es

lists-entries_of :
    (s : Server) (now : ℕ) (a : String) (d : Dict Fields)
    → lists a (entries_of s now d) ≡ is_some (Dict.lookup a d)
unfolding lists entries_of build_agent_entry Dict.lookup
lists-entries_of s now a [] = refl
lists-entries_of s now a ((b, caps) ∷ d) = ground (arith, lists-entries_of s now a d)

-- On a server with consistent tables, the listing has an entry of exactly the registered agents, and
-- of none is the status unknown.
pub list_entries-Told :
    (now : ℕ) (s : Server)
    → IsConsistent s
    → All (Told s) (list_entries now s)
      × ((a : String) → lists a (list_entries now s) ≡ is_some (Registry.lookup a s.registry))
unfolding list_entries
list_entries-Told now s c = (
  entries_of-Told s now s.capabilities c (λ a h. h),
  λ a. lists-entries_of s now a s.capabilities ∙ c.listed a,
)
