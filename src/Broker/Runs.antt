-- ===== src/Broker/Runs.antt =====
-- broker/server.py: the servers that requests and sweeps lead to, from the start of the daemon on.
use robotsix_agent_comm.Prelude.{ℕ, List, [], ◌∷◌}
use robotsix_agent_comm.Broker.State.{Server, Options, new_server}
use robotsix_agent_comm.Broker.Http.{Request, World}
use robotsix_agent_comm.Broker.Poll.{Wake, server_of}
use robotsix_agent_comm.Broker.Sweep.{sweep_once}
use robotsix_agent_comm.Broker.Dispatch.{handle_request}
use robotsix_agent_comm.Broker.Invariant.{IsConsistent}
use robotsix_agent_comm.Broker.Invariant.Changes.{new_server-IsConsistent}
use robotsix_agent_comm.Broker.Invariant.Polls.{WakesConsistent, handle_request-IsConsistent}
use robotsix_agent_comm.Broker.Sweep.Kept.{sweep_once-IsConsistent}

-- The servers that a run can reach. While a poll waits, the other threads run: what it wakes up to
-- is itself a server that can be reached.
mutual
  pub data Reach (o : Options) : Server → Type 0 where
    started : Reach o (new_server o)
    requested :
        {s : Server} (w : World) (r : Request) (wakes : List Wake)
        → Reach o s
        → Woken o wakes
        → Reach o (server_of (handle_request w r wakes s))
    swept : {s : Server} (now : ℕ) → Reach o s → Reach o (sweep_once now s)

  pub data Woken (o : Options) : List Wake → Type 0 where
    no_wake : Woken o []
    woken : {k : Wake} {ks : List Wake} → Reach o k.server → Woken o ks → Woken o (k ∷ ks)

mutual
  reached-IsConsistent : (o : Options) (t : Server) → Reach o t → IsConsistent t
  reached-IsConsistent o t started = new_server-IsConsistent o
  reached-IsConsistent o t (requested {s} w r wakes p k) =
      handle_request-IsConsistent w r wakes (Woken-IsConsistent o wakes k) s
        (reached-IsConsistent o s p)
  reached-IsConsistent o t (swept {s} now p) =
      sweep_once-IsConsistent now s (reached-IsConsistent o s p)

  Woken-IsConsistent : (o : Options) (wakes : List Wake) → Woken o wakes → WakesConsistent wakes
  Woken-IsConsistent o wakes no_wake = tt
  Woken-IsConsistent o wakes (woken {k} {ks} p q) =
      (reached-IsConsistent o k.server p, Woken-IsConsistent o ks q)

-- Whatever requests were made and whenever the sweeps ran, with the polls that waited meanwhile, the
-- tables of the broker are consistent.
pub Reach-IsConsistent : (o : Options) (s : Server) → Reach o s → IsConsistent s
Reach-IsConsistent o s p = reached-IsConsistent o s p
