-- ===== src/Broker/Threads/Races.antt =====
-- broker/server.py: an eviction or a deregistration that runs while a message to the agent is under way.
use robotsix_agent_comm.Prelude.{
  String, ℕ, Option, none, some, List, [], ◌∷◌, ◌++◌, true, str_eq, eq_iff, ◌+◌, leb, is_some, ◌≡◌,
  refl, ap, arith, Bool-cases, inl, inr,
}
use robotsix_agent_comm.Prelude.Dict
use robotsix_agent_comm.Prelude.Text.{concat}
use robotsix_agent_comm.Protocol.Value.{Value, str}
use robotsix_agent_comm.Protocol.Messages.{Message}
use robotsix_agent_comm.Protocol.Serialization.{serialize}
use robotsix_agent_comm.Transport.Endpoints.{Endpoint}
use robotsix_agent_comm.Transport.Registry
use robotsix_agent_comm.Transport.Registry.{Registry, found, not_found, lookup_value}
use robotsix_agent_comm.Transport.Registry.Laws.{lookup-unregister_quietly}
use robotsix_agent_comm.Broker.State.{Server, Disposition}
use robotsix_agent_comm.Broker.Http.{query_or, World, Request, response, json, empty}
use robotsix_agent_comm.Broker.Send.{enqueue}
use robotsix_agent_comm.Broker.Register.{text_or_empty}
use robotsix_agent_comm.Broker.State.{log}
use robotsix_agent_comm.Broker.Send.{unknown_recipient_error}
use robotsix_agent_comm.Broker.Poll.{heartbeat, caller, poll_wait}
use robotsix_agent_comm.Broker.Threads.Polling.{look_thread, wait_thread, poll_thread}
use robotsix_agent_comm.Broker.Threads.{Thread, done, emptied, perform, then_do, return, alone}
use robotsix_agent_comm.Broker.Threads.Enrolment.{forget_acts}
use robotsix_agent_comm.Broker.Threads.Sending.{dispatch_thread, queue_thread, recorded}
use robotsix_agent_comm.Broker.Threads.Machine.{Machine, run, duel}

-- an agent with a mailbox that the registry does not have
pub record IsOrphan (a : String) (s : Server) : Type 0 where
  pub unregistered : Registry.lookup a s.registry ≡ none
  pub kept : is_some (Dict.lookup a s.mailboxes) ≡ true

-- A send looks its recipient up, an eviction or a deregistration of the recipient runs, and the send
-- goes on.
abbrev pub overtaken : List ℕ
overtaken = 0 ∷ 1 ∷ 1 ∷ 1 ∷ 1 ∷ 0 ∷ []

module _ (w : World) (msg : Message) (authenticated : String) (a : String) (e : Endpoint)
    (rest : Thread) (m : Machine) where
  abbrev raced : Machine
  raced =
      run overtaken (duel (dispatch_thread w msg authenticated) (then_do (forget_acts a) rest) m)

  looked_up :
      msg.metadata.recipient ≡ str a
      → Registry.lookup a m.server.registry ≡ some e
      → lookup_value msg.metadata.recipient m.server.registry ≡ found e
  unfolding lookup_value
  looked_up r q = rw (r, q) refl

  -- A message to a registered mailbox agent, whose eviction or deregistration runs between the lookup
  -- of the recipient and the append to its mailbox: the message is accepted with 202 and stands in a
  -- new mailbox, of an agent that the registry does not have.
  pub eviction_race :
      msg.metadata.recipient ≡ str a
      → Registry.lookup a m.server.registry ≡ some e
      → e.mailbox ≡ true
      → IsOrphan a raced.server
        × (raced.threads 0
            ≡ then_do
                (recorded w msg authenticated Disposition.queued 202
                  (concat "queued for mailbox " a))
                (return (response 202 empty)))
        × (Dict.lookup a raced.server.mailboxes ≡ some (serialize msg ∷ []))
  unfolding run dispatch_thread queue_thread then_do perform enqueue
  eviction_race r q b =
      let there = looked_up r q in
      let name : text_or_empty msg.metadata.recipient ≡ a = rw (r) refl in
      let gone : Dict.lookup a (Dict.remove a m.server.mailboxes) ≡ none =
        ground (arith, Dict.lookup-remove a a m.server.mailboxes, eq_iff a a) in
      let put : Dict.lookup a
            (Dict.insert a (serialize msg ∷ []) (Dict.remove a m.server.mailboxes))
          ≡ some (serialize msg ∷ []) =
        ground (
          arith,
          eq_iff a a,
          Dict.lookup-insert a a (serialize msg ∷ []) (Dict.remove a m.server.mailboxes),
        ) in
      rw (there, b, name, gone)
        (
          record {
            unregistered =
                ground (arith, lookup-unregister_quietly a m.server.registry a, eq_iff a a);
            kept = ap is_some put;
          },
          refl,
          put,
        )

emptied-IsOrphan :
    (a : String) (q : Option (List Value)) (s : Server)
    → Dict.lookup a s.mailboxes ≡ q
    → IsOrphan a s
    → IsOrphan a (emptied a q s)
emptied-IsOrphan a none s e h = h
emptied-IsOrphan a (some []) s e h = h
emptied-IsOrphan a (some (m ∷ ms)) s e h = record {
  unregistered = h.unregistered;
  kept = ground (arith, eq_iff a a, Dict.lookup-insert a a [] s.mailboxes);
}

heartbeat-IsOrphan :
    (a : String) (now : ℕ) (s : Server) → IsOrphan a s → IsOrphan a (heartbeat now a s)
unfolding heartbeat
heartbeat-IsOrphan a now s h = elim (Bool-cases (is_some (Dict.lookup a s.ttl_seconds))) [
  | inl e ↦ rw (e) (record { unregistered = h.unregistered; kept = h.kept })
  | inr e ↦ rw (e) h
]

module _ (w : World) (a : String) (deadline : ℕ) where
  look-IsOrphan :
      (now : ℕ) (next : Thread) (q : Option (List Value)) (s : Server)
      → IsOrphan a (alone next s).1
      → IsOrphan a s
      → IsOrphan a (alone (look_thread w a deadline now next q) s).1
  unfolding alone then_do log
  look-IsOrphan now next none s p h = h
  look-IsOrphan now next (some (m ∷ ms)) s p h = record {
    unregistered = h.unregistered;
    kept = h.kept;
  }
  look-IsOrphan now next (some []) s p h = elim (Bool-cases (leb deadline now)) [
    | inl e ↦ rw (e) (record { unregistered = h.unregistered; kept = h.kept })
    | inr e ↦ rw (e) p
  ]

  wait-IsOrphan :
      (now : ℕ) (clocks : List ℕ) (s : Server)
      → IsOrphan a s
      → IsOrphan a (alone (wait_thread w a deadline now clocks) s).1
  unfolding alone wait_thread
  wait-IsOrphan now [] s h =
      let after = emptied-IsOrphan a (Dict.lookup a s.mailboxes) s refl h in
      look-IsOrphan now (done none) (Dict.lookup a s.mailboxes) _ after after
  wait-IsOrphan now (clock ∷ clocks) s h =
      let after = emptied-IsOrphan a (Dict.lookup a s.mailboxes) s refl h in
      look-IsOrphan now _ (Dict.lookup a s.mailboxes) _ (wait-IsOrphan clock clocks _ after) after

poll-IsOrphan :
    (w : World) (r : Request) (agent_id : String) (clocks : List ℕ) (s : Server)
    → IsOrphan (caller r agent_id) s
    → IsOrphan (caller r agent_id) (alone (poll_thread w r agent_id clocks) s).1
unfolding alone poll_thread then_do
poll-IsOrphan w r agent_id clocks s h = elim (Bool-cases (str_eq (caller r agent_id) "")) [
  | inl e ↦ rw (e) h
  | inr e ↦
      let deadline = w.now + poll_wait (w.float_of (query_or "wait" "25" r)) in
      rw (e, alone, then_do, ◌++◌, h.kept)
        (wait-IsOrphan w (caller r agent_id) deadline w.now clocks _
          (heartbeat-IsOrphan (caller r agent_id) w.now s h))
]

not_looked_up :
    (msg : Message) (a : String) (r : Registry)
    → msg.metadata.recipient ≡ str a
    → Registry.lookup a r ≡ none
    → lookup_value msg.metadata.recipient r ≡ not_found
unfolding lookup_value
not_looked_up msg a r q h = rw (q, h) refl

dispatch-IsOrphan :
    (w : World) (msg : Message) (authenticated : String) (a : String) (s : Server)
    → msg.metadata.recipient ≡ str a
    → IsOrphan a s
    → (alone (dispatch_thread w msg authenticated) s).0
      ≡ some (response 404 (json (unknown_recipient_error w msg)))
unfolding alone dispatch_thread then_do
dispatch-IsOrphan w msg authenticated a s q h =
    let missing = not_looked_up msg a s.registry q h.unregistered in rw (missing, alone) refl

-- A poll does not register an orphan again, whatever its waits, and leaves it an orphan; and a message
-- to an orphan is answered with 404.
pub never_healed :
    (w : World) (r : Request) (agent_id : String) (clocks : List ℕ) (msg : Message)
    (authenticated : String) (s : Server)
    → msg.metadata.recipient ≡ str (caller r agent_id)
    → IsOrphan (caller r agent_id) s
    → IsOrphan (caller r agent_id) (alone (poll_thread w r agent_id clocks) s).1
      × ((alone (dispatch_thread w msg authenticated) s).0
          ≡ some (response 404 (json (unknown_recipient_error w msg))))
never_healed w r agent_id clocks msg authenticated s q h = (
  poll-IsOrphan w r agent_id clocks s h,
  dispatch-IsOrphan w msg authenticated (caller r agent_id) s q h,
)
