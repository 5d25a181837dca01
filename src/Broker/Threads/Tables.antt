-- ===== src/Broker/Threads/Tables.antt =====
-- broker/server.py: what holds of the tables between any two acts of any threads.
use robotsix_agent_comm.Prelude.{
  String, ℕ, ◌≤◌, Option, none, some, List, [], ◌∷◌, true, eq_iff, is_some, ◌≡◌, arith, length,
  last_n, length-drop, ◌-◌, Bool, Bool-cases, Option-cases, inl, inr,
}
use robotsix_agent_comm.Prelude.Dict
use robotsix_agent_comm.Prelude.Dict.{Dict}
use robotsix_agent_comm.Prelude.Int.{ℤ}
use robotsix_agent_comm.Protocol.Value.{Value}
use robotsix_agent_comm.Transport.Registry.{Registry}
use robotsix_agent_comm.Transport.Registry.Laws.{
  IsRegistry, register-IsRegistry, unregister_quietly-IsRegistry,
}
use robotsix_agent_comm.Transport.Registry
use robotsix_agent_comm.Broker.State.{
  Server, Options, TrafficRecord, new_server, log, append_traffic,
}
use robotsix_agent_comm.Broker.Send.{enqueue, record_traffic}
use robotsix_agent_comm.Broker.Register.{Registration, ttl_after}
use robotsix_agent_comm.Broker.Poll.{heartbeat}
use robotsix_agent_comm.Broker.Threads.{
  Act, observe, register_endpoint, unregister_endpoint, open_mailbox, put_message, take_messages,
  close_mailbox, set_capabilities, default_capabilities, drop_capabilities, start_heartbeat,
  restart_heartbeat, renew_heartbeat, drop_heartbeat, record_message, write_log, emptied, perform,
}
use robotsix_agent_comm.Broker.Threads.Machine.{Machine, starting, running, Reach, start, later}

-- No id stands twice in the registry and each endpoint stands under its own; an agent with a TTL has
-- a heartbeat; and the traffic buffer keeps its bound.
pub record AreSafe (r : Registry) (ttls : Dict ℤ) (beats : Dict ℕ) (maxlen : ℕ)
    (traffic : List TrafficRecord) : Type 0 where
  pub sound : IsRegistry r
  pub beating :
      (a : String) → is_some (Dict.lookup a ttls) ≡ true → is_some (Dict.lookup a beats) ≡ true
  pub bounded : length traffic ≤ maxlen

abbrev pub IsSafe : Server → Type 0
IsSafe s = AreSafe s.registry s.ttl_seconds s.last_heartbeat s.traffic_maxlen s.traffic_buffer

abbrev Beating : Dict ℤ → Dict ℕ → Type 0
Beating ttls beats =
    (a : String) → is_some (Dict.lookup a ttls) ≡ true → is_some (Dict.lookup a beats) ≡ true

insert-Beating :
    (k : String) (now : ℕ) (t : ℤ) (ttls : Dict ℤ) (beats : Dict ℕ)
    → Beating ttls beats
    → Beating (Dict.insert k t ttls) (Dict.insert k now beats)
insert-Beating k now t ttls beats h a e =
    ground (arith, h a, eq_iff k a, Dict.lookup-insert k a now beats, Dict.lookup-insert k a t ttls)

renew-Beating :
    (k : String) (now : ℕ) (ttls : Dict ℤ) (beats : Dict ℕ)
    → Beating ttls beats
    → Beating ttls (Dict.insert k now beats)
renew-Beating k now ttls beats h a e =
    ground (arith, h a e, eq_iff k a, Dict.lookup-insert k a now beats)

default-Beating :
    (k : String) (now : ℕ) (t : ℤ) (ttls : Dict ℤ) (beats : Dict ℕ)
    → Beating ttls beats
    → Beating (Dict.set_default k t ttls) (Dict.insert k now beats)
unfolding Dict.set_default
default-Beating k now t ttls beats h = elim (Bool-cases (is_some (Dict.lookup k ttls))) [
  | inl e ↦ rw (e) (renew-Beating k now ttls beats h)
  | inr e ↦ rw (e) (insert-Beating k now t ttls beats h)
]

remove-Beating :
    (k : String) (ttls : Dict ℤ) (beats : Dict ℕ)
    → Beating ttls beats
    → Beating (Dict.remove k ttls) (Dict.remove k beats)
remove-Beating k ttls beats h a e =
    ground (arith, h a, eq_iff k a, Dict.lookup-remove k a beats, Dict.lookup-remove k a ttls)

start-Beating :
    (now : ℕ) (g : Registration) (is_new : Bool) (s : Server)
    → Beating s.ttl_seconds s.last_heartbeat
    → Beating (ttl_after g is_new s) (Dict.insert g.agent_id now s.last_heartbeat)
unfolding ttl_after
start-Beating now g is_new s h = elim (Option-cases g.ttl) [
  | inl e ↦ elim (Bool-cases is_new) [
    | inl q ↦ rw (e, q) (insert-Beating g.agent_id now _ s.ttl_seconds s.last_heartbeat h)
    | inr q ↦ rw (e, q) (renew-Beating g.agent_id now s.ttl_seconds s.last_heartbeat h)
  ]
  | inr (t, e) ↦ rw (e) (insert-Beating g.agent_id now t s.ttl_seconds s.last_heartbeat h)
]

emptied-IsSafe :
    (a : String) (q : Option (List Value)) (s : Server) → IsSafe s → IsSafe (emptied a q s)
emptied-IsSafe a none s h = h
emptied-IsSafe a (some []) s h = h
emptied-IsSafe a (some (m ∷ ms)) s h = h

last_n-length : (n : ℕ) (rs : List TrafficRecord) → length (last_n n rs) ≤ n
last_n-length n rs = omega (arith, length-drop (length rs - n) rs)

perform-IsSafe : (act : Act) (s : Server) → IsSafe s → IsSafe (perform act s)
unfolding perform enqueue heartbeat record_traffic append_traffic log
perform-IsSafe observe s h = h
perform-IsSafe (register_endpoint e) s h = record {
  sound = register-IsRegistry e h.sound;
  beating = h.beating;
  bounded = h.bounded;
}
perform-IsSafe (unregister_endpoint a) s h = record {
  sound = unregister_quietly-IsRegistry a h.sound;
  beating = h.beating;
  bounded = h.bounded;
}
perform-IsSafe (open_mailbox a) s h = h
perform-IsSafe (put_message a v) s h = h
perform-IsSafe (take_messages a) s h = emptied-IsSafe a (Dict.lookup a s.mailboxes) s h
perform-IsSafe (close_mailbox a) s h = h
perform-IsSafe (set_capabilities a d) s h = h
perform-IsSafe (default_capabilities a) s h = h
perform-IsSafe (drop_capabilities a) s h = h
perform-IsSafe (start_heartbeat now g is_new) s h = record {
  sound = h.sound;
  beating = start-Beating now g is_new s h.beating;
  bounded = h.bounded;
}
perform-IsSafe (restart_heartbeat now a) s h = record {
  sound = h.sound;
  beating = default-Beating a now s.default_ttl_seconds s.ttl_seconds s.last_heartbeat h.beating;
  bounded = h.bounded;
}
perform-IsSafe (renew_heartbeat now a) s h =
    elim (Bool-cases (is_some (Dict.lookup a s.ttl_seconds))) [
      | inl e ↦ rw (e) (record {
        sound = h.sound;
        beating = renew-Beating a now s.ttl_seconds s.last_heartbeat h.beating;
        bounded = h.bounded;
      })
      | inr e ↦ rw (e) h
    ]
perform-IsSafe (drop_heartbeat a) s h = record {
  sound = h.sound;
  beating = remove-Beating a s.ttl_seconds s.last_heartbeat h.beating;
  bounded = h.bounded;
}
perform-IsSafe (record_message w m d n) s h = record {
  sound = h.sound;
  beating = h.beating;
  bounded = last_n-length s.traffic_maxlen _;
}
perform-IsSafe (write_log wall x b path n detail) s h = h

new_server-IsSafe : (o : Options) → IsSafe (new_server o)
unfolding new_server Dict.lookup Registry.empty
new_server-IsSafe o = record {
  sound = record { distinct = tt; names = tt };
  beating = λ a e. cc;
  bounded = omega arith;
}

-- At every moment of every interleaving of the threads, since the start of the daemon, no id stands
-- twice in the registry, each endpoint stands under its own id, an agent with a TTL has a heartbeat,
-- and the traffic buffer keeps its bound.
pub Reach-IsSafe : (o : Options) (m : Machine) → Reach o m → IsSafe m.server
Reach-IsSafe o m start = new_server-IsSafe o
Reach-IsSafe o m (later {m = before} p (starting i answer j e)) = Reach-IsSafe o before p
Reach-IsSafe o m (later {m = before} p (running i act next e)) =
    perform-IsSafe act before.server (Reach-IsSafe o before p)
