-- ===== src/Broker/Invariant/Steps.antt =====
-- The steps of the handlers of broker/server.py, and the consistency of its tables.
use robotsix_agent_comm.Prelude.{
  String, ℕ, Bool, List, [], true, false, ◌≡◌, arith, eq_iff, is_some, if◌then◌else◌, Bool-cases,
  inl, inr,
}
use robotsix_agent_comm.Prelude.Dict
use robotsix_agent_comm.Prelude.Dict.{lookup-insert, lookup-remove, lookup-set_default}
use robotsix_agent_comm.Protocol.Value.{Value, end}
use robotsix_agent_comm.Transport.Registry
use robotsix_agent_comm.Transport.Registry.Laws.{lookup-register, register-IsRegistry}
use robotsix_agent_comm.Broker.State.{Server, TrafficRecord, log, append_traffic}
use robotsix_agent_comm.Broker.RateLimit.{TokenBucket}
use robotsix_agent_comm.Broker.Http.{World, Answer}
use robotsix_agent_comm.Broker.Poll.{auto_register, heartbeat, mailbox_endpoint}
use robotsix_agent_comm.Broker.Invariant.{IsConsistent}
use robotsix_agent_comm.Broker.Invariant.Changes.{forget-IsConsistent, enroll-IsConsistent}

pub heartbeat-IsConsistent :
    (now : ℕ) (b : String) {s : Server} → IsConsistent s → IsConsistent (heartbeat now b s)
unfolding heartbeat
heartbeat-IsConsistent now b {s} c = elim (Bool-cases (is_some (Dict.lookup b s.ttl_seconds))) [
  | inr e ↦ rw e c
  | inl e ↦ rw e (record {
    sound = c.sound;
    named = c.named;
    listed = c.listed;
    beating = λ a.
        ground (arith, lookup-insert b a now s.last_heartbeat, c.beating a, c.timed b, eq_iff b a);
    timed = c.timed;
    queued = c.queued;
    owned = c.owned;
  })
]

pub auto_register-IsConsistent :
    (w : World) (b : String) {s : Server} → IsConsistent s → IsConsistent (auto_register w b s)
unfolding auto_register log
auto_register-IsConsistent w b {s} c = record {
  sound = register-IsRegistry (mailbox_endpoint b) c.sound;
  named = λ a e h.
      ground (arith, lookup-register (mailbox_endpoint b) s.registry a, eq_iff b a, c.named a e);
  listed = λ a. ground (
    arith,
    lookup-register (mailbox_endpoint b) s.registry a,
    lookup-set_default b a end s.capabilities,
    c.listed a,
  );
  beating = λ a. ground (
    arith,
    lookup-register (mailbox_endpoint b) s.registry a,
    lookup-insert b a w.now s.last_heartbeat,
    c.beating a,
  );
  timed = λ a. ground (
    arith,
    lookup-register (mailbox_endpoint b) s.registry a,
    lookup-set_default b a s.default_ttl_seconds s.ttl_seconds,
    c.timed a,
  );
  queued = λ a e h m. ground (
    arith,
    lookup-register (mailbox_endpoint b) s.registry a,
    lookup-set_default b a [] s.mailboxes,
    eq_iff b a,
    c.queued a e,
  );
  owned = λ a h. ground (
    arith,
    lookup-register (mailbox_endpoint b) s.registry a,
    lookup-set_default b a [] s.mailboxes,
    eq_iff b a,
    c.owned a,
  );
}

-- a write to the queue of an agent that is registered
pub refill-IsConsistent :
    (b : String) (vs : List Value) {s : Server}
    → is_some (Registry.lookup b s.registry) ≡ true
    → IsConsistent s
    → IsConsistent (record s { mailboxes = Dict.insert b vs s.mailboxes })
refill-IsConsistent b vs {s} known c = record {
  sound = c.sound;
  named = c.named;
  listed = c.listed;
  beating = c.beating;
  timed = c.timed;
  queued = λ a e h m. ground (arith, lookup-insert b a vs s.mailboxes, c.queued a e);
  owned = λ a h. ground (arith, lookup-insert b a vs s.mailboxes, eq_iff b a, c.owned a);
}

pub log-IsConsistent :
    (t : ℕ) (action agent_id path : String) (status : ℕ) (detail : String) {s : Server}
    → IsConsistent s
    → IsConsistent (log t action agent_id path status detail s)
unfolding log
log-IsConsistent t action agent_id path status detail c = record {
  sound = c.sound;
  named = c.named;
  listed = c.listed;
  beating = c.beating;
  timed = c.timed;
  queued = c.queued;
  owned = c.owned;
}

pub traffic-IsConsistent :
    (r : TrafficRecord) {s : Server} → IsConsistent s → IsConsistent (append_traffic r s)
unfolding append_traffic
traffic-IsConsistent r c = record {
  sound = c.sound;
  named = c.named;
  listed = c.listed;
  beating = c.beating;
  timed = c.timed;
  queued = c.queued;
  owned = c.owned;
}

pub buckets-IsConsistent :
    (b : Dict.Dict TokenBucket) {s : Server}
    → IsConsistent s
    → IsConsistent (record s { rate_buckets = b })
buckets-IsConsistent b c = record {
  sound = c.sound;
  named = c.named;
  listed = c.listed;
  beating = c.beating;
  timed = c.timed;
  queued = c.queued;
  owned = c.owned;
}

-- What a handler returns leaves the tables consistent.
pub record Keeps (x : Answer × Server) : Type 0 where
  pub kept : IsConsistent x.1

pub Keeps-pair : (a : Answer) (s : Server) → IsConsistent s → Keeps (a, s)
Keeps-pair a s c = record { kept = c }

pub Keeps-if : (b : Bool) (x y : Answer × Server) → Keeps x → Keeps y → Keeps (if b then x else y)
Keeps-if true x y p q = p
Keeps-if false x y p q = q

pub ruleset keeps_rules = (
  Keeps-pair, Keeps-if, log-IsConsistent, traffic-IsConsistent, forget-IsConsistent,
  enroll-IsConsistent,
)
