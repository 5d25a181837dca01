-- ===== src/Broker/Register/Histories.antt =====
-- broker/server.py: the directory of agents after any registrations and removals, whatever their
-- order.
use mathlib.Core.Quot
use robotsix_agent_comm.Prelude.{
  String, ℕ, Bool, Option, none, some, List, [], ◌∷◌, str_eq, if◌then◌else◌, ◌≡◌, refl, sym, ap,
  ◌∙◌,
}
use robotsix_agent_comm.Transport.Endpoints.{Endpoint}
use robotsix_agent_comm.Transport.Registry
use robotsix_agent_comm.Transport.Registry.Laws.{lookup-register, lookup-unregister_quietly}
use robotsix_agent_comm.Transport.Registry.Abstract.{Directory, find, find_ext}
use robotsix_agent_comm.Broker.State.{Server}
use robotsix_agent_comm.Broker.Register.{Registration, endpoint_of, enroll}
use robotsix_agent_comm.Broker.Deregister.{forget}

-- the registry of a server up to the order of its entries
abbrev pub directory : Server → Directory
directory s = Quot.mk s.registry

-- A registration that is accepted at a time, of a new agent or not, or the removal of an agent by a
-- deregistration or the sweep.
pub data Change : Type 0 where
  registration : ℕ → Registration → Bool → Change
  removal : String → Change

unfoldable pub change : Change → Server → Server
change (registration now g is_new) s = enroll now g is_new s
change (removal a) s = forget a s

-- the changes of a list, the first one first
unfoldable pub run : List Change → Server → Server
unfolding change
run [] s = s
run (c ∷ cs) s = run cs (change c s)

-- the endpoint of an agent after a list of changes, from the one before it
abbrev pub after : String → Change → Option Endpoint → Option Endpoint
after a (registration now g is_new) e = if str_eq g.agent_id a then some (endpoint_of g) else e
after a (removal b) e = if str_eq b a then none else e

abbrev pub latest : String → List Change → Option Endpoint → Option Endpoint
latest a [] e = e
latest a (c ∷ cs) e = latest a cs (after a c e)

find-change :
    (a : String) (c : Change) (s : Server)
    → find a (directory (change c s)) ≡ after a c (find a (directory s))
unfolding find change enroll forget endpoint_of
find-change a (registration now g is_new) s = lookup-register (endpoint_of g) s.registry a
find-change a (removal b) s = lookup-unregister_quietly b s.registry a

find-run :
    (a : String) (cs : List Change) (s : Server)
    → find a (directory (run cs s)) ≡ latest a cs (find a (directory s))
unfolding run
find-run a [] s = refl
find-run a (c ∷ cs) s = find-run a cs (change c s) ∙ ap (latest a cs) (find-change a c s)

-- After any accepted registrations and removals, the registry has for each agent the endpoint of its
-- last registration, or none where a removal came after it, and what it had before where there was
-- neither; and two histories in which the last change of each agent is the same lead to the same
-- directory, which is the registry up to the order of its entries.
pub directory-run :
    (cs ds : List Change) (s : Server)
    → ((a : String) (e : Option Endpoint) → latest a cs e ≡ latest a ds e)
    → ((a : String)
        → Registry.lookup a (run cs s).registry ≡ latest a cs (Registry.lookup a s.registry))
      × (directory (run cs s) ≡ directory (run ds s))
unfolding find
directory-run cs ds s same = (
  λ a. find-run a cs s,
  (find_ext (directory (run cs s)) (directory (run ds s))).1
      (λ a. find-run a cs s ∙ (same a (find a (directory s)) ∙ sym (find-run a ds s))),
)
