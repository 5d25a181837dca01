-- ===== src/Sdk/Agent/Waiting.antt =====
-- sdk/agent.py: a pending request gets no reply but its own, whatever the other threads do.
use robotsix_agent_comm.Prelude.{
  String, Bool, Option, none, some, List, [], ◌∷◌, ◌++◌, All, str_eq, eq_iff, ◌≡◌, refl, sym, arith,
  Bool-cases, Option-cases, inl, inr,
}
use robotsix_agent_comm.Prelude.Dict.{Dict, lookup, insert, remove, lookup-insert, lookup-remove}
use robotsix_agent_comm.Protocol.Messages.{Message, Stamp}
use robotsix_agent_comm.Brokered
use robotsix_agent_comm.Brokered.{Received}
use robotsix_agent_comm.Sdk.Agent.{
  Handled, Agent, new_agent, on_request, on_notification, receive_message, run_handler, submit,
  give, give_correlated, dispatch_pull, dispatch_all, receive_round, run_next, begin_request, reply,
  first_of, end_request, fail_request, start, stop,
}

-- a slot that holds replies to one request only
abbrev IsSlotOf : String → List Message → Type 0
IsSlotOf id = All (λ m. m.correlation_id ≡ some id)

-- every waiter's slot holds replies to its request only
abbrev pub IsRouted : Dict (List Message) → Type 0
IsRouted waiters =
    (id : String) (slot : List Message) → lookup id waiters ≡ some slot → IsSlotOf id slot

-- What the threads of an agent do, each in one step.
pub data Step (repr : String → String) : Agent → Agent → Type 0 where
  requests : (a : Agent) (h : Message → Handled) → Step repr a (on_request h a)
  notifications : (a : Agent) (h : Message → Bool) → Step repr a (on_notification h a)
  takes : (a : Agent) → Step repr a (receive_message a).1
  starts : (a : Agent) → Step repr a (start a)
  stops : (a : Agent) → Step repr a (stop a)
  receives : (a : Agent) (r : Received) → Step repr a (receive_round r a)
  runs : (a : Agent) (t : Stamp) → Step repr a (run_next repr t a).0
  begins : (a : Agent) (m : Message) → Step repr a (begin_request m a)
  ends : (a : Agent) (m : Message) → Step repr a (end_request m a).0
  fails : (a : Agent) (m : Message) → Step repr a (fail_request m a).0

-- the agents that a run can reach
pub data Reach (repr : String → String) : Agent → Type 0 where
  initial : (agent_id : String) → Reach repr (new_agent agent_id)
  next : {a b : Agent} → Reach repr a → Step repr a b → Reach repr b

insert-IsRouted :
    (key : String) (new : List Message) (d : Dict (List Message))
    → IsSlotOf key new
    → IsRouted d
    → IsRouted (insert key new d)
insert-IsRouted key new d s r id slot e = elim (Bool-cases (str_eq key id)) [
  | inl q ↦
      let same : new ≡ slot = ground (arith, q, e, lookup-insert key id new d) in
      let at_key : key ≡ id = (eq_iff key id).0 q in rw (sym same, sym at_key) s
  | inr q ↦ r id slot (ground (arith, q, e, lookup-insert key id new d))
]

remove-IsRouted : (key : String) (d : Dict (List Message)) → IsRouted d → IsRouted (remove key d)
remove-IsRouted key d r id slot e = elim (Bool-cases (str_eq key id)) [
  | inl q ↦ absurd (ground (arith, q, e, lookup-remove key id d))
  | inr q ↦ r id slot (ground (arith, q, e, lookup-remove key id d))
]

IsSlotOf-append :
    (id : String) (slot : List Message) (m : Message)
    → IsSlotOf id slot
    → m.correlation_id ≡ some id
    → IsSlotOf id (slot ++ m ∷ [])
IsSlotOf-append id [] m s e = (e, tt)
IsSlotOf-append id (x ∷ xs) m s e = (s.0, IsSlotOf-append id xs m s.1 e)

submit-waiters : (m : Message) (a : Agent) → (submit m a).waiters ≡ a.waiters
unfolding submit
submit-waiters m a = elim (Option-cases a.pool) [ inl e ↦ rw (e) refl | inr (q, e) ↦ rw (e) refl ]

give-IsRouted :
    (id : String) (m : Message) (o : Option (List Message)) (a : Agent)
    → m.correlation_id ≡ some id
    → lookup id a.waiters ≡ o
    → IsRouted a.waiters
    → IsRouted (give id m o a).waiters
unfolding give
give-IsRouted id m none a c e r = rw (submit-waiters m a) r
give-IsRouted id m (some slot) a c e r =
    insert-IsRouted id (slot ++ m ∷ []) a.waiters (IsSlotOf-append id slot m (r id slot e) c) r

give_correlated-IsRouted :
    (m : Message) (o : Option String) (a : Agent)
    → m.correlation_id ≡ o
    → IsRouted a.waiters
    → IsRouted (give_correlated m o a).waiters
unfolding give_correlated
give_correlated-IsRouted m none a e r = rw (submit-waiters m a) r
give_correlated-IsRouted m (some id) a e r = give-IsRouted id m (lookup id a.waiters) a e refl r

dispatch_pull-IsRouted :
    (m : Message) (a : Agent) → IsRouted a.waiters → IsRouted (dispatch_pull m a).waiters
unfolding dispatch_pull
dispatch_pull-IsRouted m a r = give_correlated-IsRouted m m.correlation_id a refl r

dispatch_all-IsRouted :
    (ms : List Message) (a : Agent) → IsRouted a.waiters → IsRouted (dispatch_all ms a).waiters
unfolding dispatch_all
dispatch_all-IsRouted [] a r = r
dispatch_all-IsRouted (m ∷ ms) a r = dispatch_all-IsRouted ms _ (dispatch_pull-IsRouted m a r)

receive_round-IsRouted :
    (x : Received) (a : Agent) → IsRouted a.waiters → IsRouted (receive_round x a).waiters
unfolding receive_round
receive_round-IsRouted (Brokered.messages ms) a r = dispatch_all-IsRouted ms a r
receive_round-IsRouted (Brokered.failed e) a r = r
receive_round-IsRouted (Brokered.crashed f) a r = r

receive_message-waiters : (a : Agent) → (receive_message a).1.waiters ≡ a.waiters
unfolding receive_message
receive_message-waiters a = ground arith

run_next-waiters :
    (repr : String → String) (t : Stamp) (a : Agent) → (run_next repr t a).0.waiters ≡ a.waiters
unfolding run_next run_handler
run_next-waiters repr t a = elim (Option-cases a.pool) [
  | inl e ↦ rw (e) refl
  | inr ([], e) ↦ rw (e) refl
  | inr (m ∷ queue, e) ↦ rw (e) refl
]

start-waiters : (a : Agent) → ((start a).waiters ≡ a.waiters) × ((stop a).waiters ≡ a.waiters)
unfolding start stop
start-waiters a = ground arith

Step-IsRouted :
    (repr : String → String) (a b : Agent) → Step repr a b → IsRouted a.waiters → IsRouted b.waiters
unfolding on_request on_notification begin_request end_request fail_request
Step-IsRouted repr a b (requests _ h) r = r
Step-IsRouted repr a b (notifications _ h) r = r
Step-IsRouted repr a b (takes _) r = rw (receive_message-waiters a) r
Step-IsRouted repr a b (starts _) r = rw ((start-waiters a).0) r
Step-IsRouted repr a b (stops _) r = rw ((start-waiters a).1) r
Step-IsRouted repr a b (receives _ x) r = receive_round-IsRouted x a r
Step-IsRouted repr a b (runs _ t) r = rw (run_next-waiters repr t a) r
Step-IsRouted repr a b (begins _ m) r = insert-IsRouted m.message_id [] a.waiters tt r
Step-IsRouted repr a b (ends _ m) r = remove-IsRouted m.message_id a.waiters r
Step-IsRouted repr a b (fails _ m) r = remove-IsRouted m.message_id a.waiters r

-- At every point of a run, every waiter's slot holds replies to its own request only.
pub Reach-IsRouted : (repr : String → String) (a : Agent) → Reach repr a → IsRouted a.waiters
unfolding lookup
Reach-IsRouted repr a (initial agent_id) = λ id slot e. absurd (ground arith)
Reach-IsRouted repr b (next {a} r step) = Step-IsRouted repr a b step (Reach-IsRouted repr a r)

first_of-slot :
    (id : String) (o : Option (List Message)) (x : Message)
    → ((slot : List Message) → o ≡ some slot → IsSlotOf id slot)
    → first_of o ≡ reply x
    → x.correlation_id ≡ some id
first_of-slot id none x r e = absurd (ground arith)
first_of-slot id (some []) x r e = absurd (ground arith)
first_of-slot id (some (m ∷ ms)) x r e = ground (arith, e, (r (m ∷ ms) refl).0)

-- Whatever the threads of an agent have done, a request that ends with a reply ends with a message
-- that is correlated to it.
pub end_request-correlated :
    (repr : String → String) (a : Agent) (m x : Message)
    → Reach repr a
    → (end_request m a).1 ≡ reply x
    → x.correlation_id ≡ some m.message_id
unfolding end_request
end_request-correlated repr a m x r e =
    first_of-slot m.message_id (lookup m.message_id a.waiters) x
      (Reach-IsRouted repr a r m.message_id) e
