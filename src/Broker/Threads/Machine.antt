-- ===== src/Broker/Threads/Machine.antt =====
-- broker/server.py: the threads of the daemon over one server, interleaved in any order.
use robotsix_agent_comm.Prelude.{
  String, ℕ, Option, none, List, [], ◌∷◌, ◌==◌, if◌then◌else◌, or_else, ◌≡◌, refl,
}
use robotsix_agent_comm.Prelude.Dict
use robotsix_agent_comm.Protocol.Value.{Value}
use robotsix_agent_comm.Broker.State.{Server, Options, new_server}
use robotsix_agent_comm.Broker.Http.{Answer}
use robotsix_agent_comm.Broker.Threads.{Act, take_messages, perform, Thread, done, under_lock}
use robotsix_agent_comm.Broker.Threads.Jobs.{Job, thread_of}

-- An act with the messages that it found in the mailbox that it takes from.
pub record Event : Type 0 where
  pub act : Act
  pub found : List Value

abbrev pub waiting_in : Server → String → List Value
waiting_in s a = or_else (Dict.lookup a s.mailboxes) []

abbrev pub event : Act → Server → Event
event (take_messages a) s = record { act = take_messages a; found = waiting_in s a }
event act s = record { act = act; found = [] }

-- The history has the newest event first. It is no part of the program.
pub record Machine : Type 0 where
  pub server : Server
  pub threads : ℕ → Thread
  pub history : List Event

abbrev pub update : (ℕ → Thread) → ℕ → Thread → ℕ → Thread
update threads i t k = if k == i then t else threads k

-- A thread that has ended may be started for a new job; any other may run its next act.
pub data Step (m : Machine) : Machine → Type 0 where
  starting :
      (i : ℕ) (answer : Option Answer) (j : Job)
      → m.threads i ≡ done answer
      → Step m (record m { threads = update m.threads i (thread_of j) })
  running :
      (i : ℕ) (act : Act) (next : Server → Thread)
      → m.threads i ≡ under_lock act next
      → Step m (record {
        server = perform act m.server;
        threads = update m.threads i (next m.server);
        history = event act m.server ∷ m.history;
      })

abbrev pub fresh : Options → Machine
fresh o = record { server = new_server o; threads = λ i. done none; history = [] }

pub data Reach (o : Options) : Machine → Type 0 where
  start : Reach o (fresh o)
  later : {m n : Machine} → Reach o m → Step m n → Reach o n

-- One turn of a thread, and a run by a given order of turns; a thread that has ended does nothing.
abbrev pub after_turn : ℕ → Thread → Machine → Machine
after_turn i (done answer) m = m
after_turn i (under_lock act next) m = record {
  server = perform act m.server;
  threads = update m.threads i (next m.server);
  history = event act m.server ∷ m.history;
}

unfoldable pub run : List ℕ → Machine → Machine
run [] m = m
run (i ∷ order) m = run order (after_turn i (m.threads i) m)

after_turn-Reach :
    (o : Options) (i : ℕ) (t : Thread) (m : Machine)
    → m.threads i ≡ t
    → Reach o m
    → Reach o (after_turn i t m)
after_turn-Reach o i (done answer) m e p = p
after_turn-Reach o i (under_lock act next) m e p = later p (running i act next e)

pub run-Reach : (o : Options) (order : List ℕ) (m : Machine) → Reach o m → Reach o (run order m)
unfolding run
run-Reach o [] m p = p
run-Reach o (i ∷ order) m p =
    run-Reach o order (after_turn i (m.threads i) m) (after_turn-Reach o i (m.threads i) m refl p)

-- a machine with two threads in the first two places
abbrev pub duel : Thread → Thread → Machine → Machine
duel t u m = record m { threads = update (update m.threads 0 t) 1 u }
