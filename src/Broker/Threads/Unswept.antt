-- ===== src/Broker/Threads/Unswept.antt =====
-- broker/server.py: an eviction or a deregistration that a registration of the same agent overtakes.
use robotsix_agent_comm.Prelude.{
  String, ℕ, none, some, List, [], ◌∷◌, ◌++◌, Bool-cases, inl, inr, str_eq, eq_iff, ◌≡◌, ◌≢◌, ◌∙◌,
  ◌&&◌, refl, arith,
}
use robotsix_agent_comm.Prelude.Dict
use robotsix_agent_comm.Transport.Endpoints.{Endpoint, health_path}
use robotsix_agent_comm.Transport.Registry
use robotsix_agent_comm.Transport.Registry.Laws.{lookup-register, lookup-unregister_quietly}
use robotsix_agent_comm.Broker.State.{Server, log}
use robotsix_agent_comm.Broker.Http.{World, Request, Answer}
use robotsix_agent_comm.Broker.Auth
use robotsix_agent_comm.Broker.Auth.{authenticate, proceed, admit, admit_stage}
use robotsix_agent_comm.Broker.Poll.{Wake, waiting, server_of}
use robotsix_agent_comm.Broker.Dispatch.{handle_request, allows_query_token, is_get}
use robotsix_agent_comm.Broker.Dispatch.Isolation.{Spares}
use robotsix_agent_comm.Broker.Dispatch.Isolation.Requests.{handle_request_isolated}
use robotsix_agent_comm.Broker.Register.{Registration, endpoint_of}
use robotsix_agent_comm.Broker.Deregister.{forget}
use robotsix_agent_comm.Broker.Sweep.{sweep_once, sweep_all, sweep_agent, expired}
use robotsix_agent_comm.Broker.Threads.{Thread, perform, then_do}
use robotsix_agent_comm.Broker.Threads.Enrolment.{forget_acts, accept_thread}
use robotsix_agent_comm.Broker.Threads.Machine.{Machine, run, duel}

-- a registered agent with no heartbeat
pub record IsUnwatched (a : String) (e : Endpoint) (s : Server) : Type 0 where
  pub registered : Registry.lookup a s.registry ≡ some e
  pub silent : Dict.lookup a s.last_heartbeat ≡ none

sweep_agent-IsUnwatched :
    (a : String) (e : Endpoint) (now : ℕ) (x : Endpoint) (s : Server)
    → IsUnwatched a e s
    → IsUnwatched a e (sweep_agent now x s)
unfolding sweep_agent expired forget
sweep_agent-IsUnwatched a e now x s h = elim (Bool-cases (str_eq x.agent_id a)) [
  | inl q ↦
      let same : x.agent_id ≡ a = (eq_iff x.agent_id a).0 q in
      let none_here : Dict.lookup x.agent_id s.last_heartbeat ≡ none = rw (same) h.silent in
      rw (none_here) h
  | inr q ↦ record {
    registered = ground (arith, h.registered, q, lookup-unregister_quietly x.agent_id s.registry a);
    silent = ground (arith, h.silent, q, Dict.lookup-remove x.agent_id a s.last_heartbeat);
  }
]

sweep_all-IsUnwatched :
    (a : String) (e : Endpoint) (now : ℕ) (es : List Endpoint) (s : Server)
    → IsUnwatched a e s
    → IsUnwatched a e (sweep_all now es s)
unfolding sweep_all
sweep_all-IsUnwatched a e now [] s h = h
sweep_all-IsUnwatched a e now (x ∷ es) s h =
    sweep_all-IsUnwatched a e now es (sweep_agent now x s) (sweep_agent-IsUnwatched a e now x s h)

-- What the daemon may do while nothing comes from the agent `a`: sweeps at whatever times, requests
-- that fail the authentication, requests of other agents up to their answer or first wait, and what
-- a poll of another agent does after a wake.
pub data Onward (a : String) (s : Server) : Server → Type 0 where
  here : Onward a s s
  swept : {t : Server} → Onward a s t → (now : ℕ) → Onward a s (sweep_once now t)
  refused :
      {t : Server} (w : World) (r : Request) (x : Answer)
      → Onward a s t
      → authenticate t (allows_query_token r) r ≡ Auth.answered x
      → Onward a s (server_of (handle_request w r [] t))
  asked :
      {t : Server} (w : World) (r : Request) (p : String)
      → Onward a s t
      → authenticate t (allows_query_token r) r ≡ proceed p
      → p ≢ ""
      → a ≢ p
      → Onward a s (server_of (handle_request w r [] t))
  woken :
      (w : World) (r : Request) (p : String) (before : List Wake) (k : Wake) (u x : Server)
      → Onward a s k.server
      → authenticate u (allows_query_token r) r ≡ proceed p
      → p ≢ ""
      → a ≢ p
      → handle_request w r before u ≡ waiting x
      → Onward a s (server_of (handle_request w r (before ++ k ∷ []) u))

sweep_once-IsUnwatched :
    (a : String) (e : Endpoint) (now : ℕ) (s : Server)
    → IsUnwatched a e s
    → IsUnwatched a e (sweep_once now s)
unfolding sweep_once
sweep_once-IsUnwatched a e now s = sweep_all-IsUnwatched a e now (Registry.list_agents s.registry) s

refused-unchanged :
    (w : World) (r : Request) (s : Server) (x : Answer)
    → authenticate s (allows_query_token r) r ≡ Auth.answered x
    → server_of (handle_request w r [] s) ≡ s
unfolding handle_request admit admit_stage
refused-unchanged w r s x auth = elim (Bool-cases (is_get r.method && str_eq r.path health_path)) [
  | inl probe ↦ rw (probe) refl
  | inr probe ↦ rw (probe, auth) refl
]

Spares-IsUnwatched :
    (p a : String) (e : Endpoint) {s t : Server}
    → Spares p a s t
    → IsUnwatched a e s
    → IsUnwatched a e t
Spares-IsUnwatched p a e x h = record {
  registered = x.registry ∙ h.registered;
  silent = x.last_heartbeat ∙ h.silent;
}

Onward-IsUnwatched :
    (a : String) (e : Endpoint) (s t : Server)
    → Onward a s t
    → IsUnwatched a e s
    → IsUnwatched a e t
Onward-IsUnwatched a e s _ here h = h
Onward-IsUnwatched a e s _ (swept {t} o now) h =
    sweep_once-IsUnwatched a e now t (Onward-IsUnwatched a e s t o h)
Onward-IsUnwatched a e s _ (refused {t} w r x o auth) h =
    rw (refused-unchanged w r t x auth) (Onward-IsUnwatched a e s t o h)
Onward-IsUnwatched a e s _ (asked {t} w r p o auth named other) h =
    Spares-IsUnwatched p a e ((handle_request_isolated w r t p a auth named other).0)
      (Onward-IsUnwatched a e s t o h)
Onward-IsUnwatched a e s _ (woken w r p before k u x o auth named other waits) h =
    Spares-IsUnwatched p a e
      ((handle_request_isolated w r u p a auth named other).1 before k x waits)
      (Onward-IsUnwatched a e s k.server o h)

-- An eviction removes the agent from the registry, a registration of the agent runs to its end, and
-- the eviction goes on. Turns of a thread that has ended are idle.
abbrev pub crossed : List ℕ
crossed = 0 ∷ 1 ∷ 1 ∷ 1 ∷ 1 ∷ 1 ∷ 1 ∷ 0 ∷ 0 ∷ 0 ∷ []

module _ (w : World) (g : Registration) (rest : Thread) (m : Machine) where
  abbrev raced : Machine
  raced = run crossed (duel (then_do (forget_acts g.agent_id) rest) (accept_thread w g) m)

  registered_anew :
      Registry.lookup g.agent_id (
        Registry.register
          (endpoint_of g)
          (Registry.unregister_quietly g.agent_id m.server.registry))
      ≡ some (endpoint_of g)
  unfolding endpoint_of
  registered_anew = ground (
    arith,
    eq_iff g.agent_id g.agent_id,
    lookup-register (endpoint_of g) (Registry.unregister_quietly g.agent_id m.server.registry)
        g.agent_id,
  )

  gone :
      Dict.lookup g.agent_id
        (Dict.remove g.agent_id (Dict.insert g.agent_id w.now m.server.last_heartbeat))
      ≡ none
  gone = ground (
    arith,
    eq_iff g.agent_id g.agent_id,
    Dict.lookup-remove g.agent_id g.agent_id (Dict.insert g.agent_id w.now m.server.last_heartbeat),
  )

  raced-IsUnwatched : IsUnwatched g.agent_id (endpoint_of g) raced.server
  unfolding run accept_thread then_do perform log
  raced-IsUnwatched = elim (Bool-cases g.mailbox_flag) [
    | inl e ↦ simp (e) (record { registered = registered_anew; silent = gone })
    | inr e ↦ simp (e) (record { registered = registered_anew; silent = gone })
  ]

  -- A registration of an agent that runs between the first act of the agent's eviction, or
  -- deregistration, and the others leaves the agent registered with no heartbeat, and it stays so, in
  -- any sequence of sweeps, at whatever times, of requests that fail the authentication, and of
  -- requests and wakes of polls of other agents: for as long as nothing comes from the agent, no sweep
  -- evicts it.
  pub unswept_race :
      (s : Server) → Onward g.agent_id raced.server s → IsUnwatched g.agent_id (endpoint_of g) s
  unswept_race s o =
      Onward-IsUnwatched g.agent_id (endpoint_of g) raced.server s o raced-IsUnwatched
