-- ===== src/Broker/Poll/Waiting.antt =====
-- broker/server.py: what `_handle_poll` hands out, and when its wait ends.
use robotsix_agent_comm.Prelude.{
  String, ℕ, ◌+◌, ◌<◌, ◌≤◌, true, Option, none, some, List, [], ◌∷◌, ◌++◌, map, str_eq, eq_iff,
  is_some, All, ◌≡◌, ◌≢◌, refl, sym, ap, ◌∙◌, arith, inl, inr, Bool-cases, Option-cases,
}
use robotsix_agent_comm.Prelude.Dict
use robotsix_agent_comm.Prelude.Dict.{lookup-insert, lookup-set_default}
use robotsix_agent_comm.Prelude.Int.{ℤ, pos, negsuc}
use robotsix_agent_comm.Protocol.Value.{Value}
use robotsix_agent_comm.Protocol.Messages.{Message}
use robotsix_agent_comm.Protocol.Serialization.{serialize}
use robotsix_agent_comm.Broker.State
use robotsix_agent_comm.Broker.State.{Server, log}
use robotsix_agent_comm.Broker.Http.{Request, World, query_or}
use robotsix_agent_comm.Broker.Send.{queue_message, enqueue, record_traffic}
use robotsix_agent_comm.Broker.Poll.{
  server_of, Wake, Polled, answered, waiting, max_poll_wait, messages_response, deliver, look,
  wait_for_messages, heartbeat, self_heal, begin_poll, poll_wait, caller, handle_poll,
}

-- a run of messages that their senders post to the mailbox of `a`
pub queue_all : World → String → List (String × Message) → Server → Server
queue_all w a [] s = s
queue_all w a ((p, m) ∷ ms) s = queue_all w a ms (queue_message w m p a s).1

-- what the messages look like in the mailbox
abbrev pub payloads : List (String × Message) → List Value
payloads ms = map (λ e. serialize e.1) ms

append_assoc : (xs ys zs : List Value) → (xs ++ ys) ++ zs ≡ xs ++ (ys ++ zs)
append_assoc [] ys zs = refl
append_assoc (x ∷ xs) ys zs = ground (arith, append_assoc xs ys zs)

append_nil : (xs : List Value) → xs ++ [] ≡ xs
append_nil [] = refl
append_nil (x ∷ xs) = ground (arith, append_nil xs)

pub queue_message_mailbox :
    (w : World) (m : Message) (p a : String) (s : Server) (old : List Value)
    → Dict.lookup a s.mailboxes ≡ some old
    → Dict.lookup a (queue_message w m p a s).1.mailboxes ≡ some (old ++ serialize m ∷ [])
unfolding queue_message enqueue record_traffic log State.append_traffic
queue_message_mailbox w m p a s old h =
    ground (arith, h, lookup-insert a a (old ++ serialize m ∷ []) s.mailboxes, eq_iff a a)

queue_all_mailbox :
    (w : World) (a : String) (ms : List (String × Message)) (s : Server) (old : List Value)
    → Dict.lookup a s.mailboxes ≡ some old
    → Dict.lookup a (queue_all w a ms s).mailboxes ≡ some (old ++ payloads ms)
unfolding queue_all
queue_all_mailbox w a [] s old h = rw (append_nil old) h
queue_all_mailbox w a ((p, m) ∷ ms) s old h =
    queue_all_mailbox w a ms (queue_message w m p a s).1 (old ++ serialize m ∷ [])
      (queue_message_mailbox w m p a s old h)
    ∙ ap some (append_assoc old (serialize m ∷ []) (payloads ms))

-- a caller with a mailbox is not registered anew
begin_poll_mailboxes :
    (w : World) (a : String) (s : Server)
    → is_some (Dict.lookup a s.mailboxes) ≡ true
    → (begin_poll w a s).mailboxes ≡ s.mailboxes
unfolding begin_poll self_heal heartbeat
begin_poll_mailboxes w a s h = ground (arith, h)

deliver_mailbox :
    (w : World) (a : String) (vs : List Value) (s : Server)
    → Dict.lookup a (deliver w a vs s).1.mailboxes ≡ some []
unfolding deliver log
deliver_mailbox w a vs s = ground (arith, lookup-insert a a [] s.mailboxes, eq_iff a a)

-- What a poll by `a` has done that found these messages.
abbrev pub HandsOut : World → String → List Value → Polled → Type 0
HandsOut w a vs p =
    (t : Server) × (p ≡ answered (messages_response vs) t) × (Dict.lookup a t.mailboxes ≡ some [])

look-HandsOut :
    (w : World) (a : String) (deadline now : ℕ) (next : Polled) (s : Server) (v : Value)
    (vs : List Value)
    → Dict.lookup a s.mailboxes ≡ some (v ∷ vs)
    → HandsOut w a (v ∷ vs) (look w a deadline now next s)
unfolding look
look-HandsOut w a deadline now next s v vs h =
    ((deliver w a (v ∷ vs) s).1, rw (h, look) refl, deliver_mailbox w a (v ∷ vs) s)

wait-HandsOut :
    (w : World) (a : String) (deadline now : ℕ) (wakes : List Wake) (s : Server) (v : Value)
    (vs : List Value)
    → Dict.lookup a s.mailboxes ≡ some (v ∷ vs)
    → HandsOut w a (v ∷ vs) (wait_for_messages w a deadline now wakes s)
unfolding wait_for_messages
wait-HandsOut w a deadline now [] s v vs h = look-HandsOut w a deadline now _ s v vs h
wait-HandsOut w a deadline now (k ∷ ks) s v vs h = look-HandsOut w a deadline now _ s v vs h

pub poll-HandsOut :
    (w : World) (r : Request) (agent_id a : String) (wakes : List Wake) (s : Server) (v : Value)
    (vs : List Value)
    → caller r agent_id ≡ a
    → a ≢ ""
    → Dict.lookup a s.mailboxes ≡ some (v ∷ vs)
    → HandsOut w a (v ∷ vs) (handle_poll w r agent_id wakes s)
unfolding handle_poll
poll-HandsOut w r agent_id a wakes s v vs is named h = elim (Bool-cases (str_eq a "")) [
  | inl e ↦ absurd (named ((eq_iff a "").0 e))
  | inr e ↦
      rw (is, e)
        (wait-HandsOut w a _ w.now wakes (begin_poll w a s) v vs
          (rw (begin_poll_mailboxes w a s (rw (h) refl)) h))
]

-- The messages that are queued for an agent, by whichever senders, reach it at its next poll, each of
-- them once, in the order of their sends and behind those that were already in its mailbox; the poll
-- answers without a wait and leaves the mailbox empty.
pub handle_poll-queue_all :
    (w : World) (r : Request) (agent_id a : String) (wakes : List Wake) (s : Server)
    (old : List Value) (ms : List (String × Message))
    → caller r agent_id ≡ a
    → a ≢ ""
    → Dict.lookup a s.mailboxes ≡ some old
    → ms ≢ []
    → HandsOut w a (old ++ payloads ms) (handle_poll w r agent_id wakes (queue_all w a ms s))
handle_poll-queue_all w r agent_id a wakes s old [] is named h some_queued =
    absurd (some_queued refl)
handle_poll-queue_all w r agent_id a wakes s [] (m ∷ ms) is named h some_queued =
    poll-HandsOut w r agent_id a wakes _ (serialize m.1) (payloads ms) is named
      (queue_all_mailbox w a (m ∷ ms) s [] h)
handle_poll-queue_all w r agent_id a wakes s (v ∷ vs) (m ∷ ms) is named h some_queued =
    poll-HandsOut w r agent_id a wakes _ v (vs ++ payloads (m ∷ ms)) is named
      (queue_all_mailbox w a (m ∷ ms) s (v ∷ vs) h)

-- ends of a wait

poll_wait_bound : (t : Option ℤ) → poll_wait t ≤ max_poll_wait
unfolding poll_wait
poll_wait_bound none = omega arith
poll_wait_bound (some (pos n)) = omega arith
poll_wait_bound (some (negsuc n)) = omega arith

abbrev Pending : String → ℕ → List Wake → Server → Type 0
Pending a deadline wakes t =
    All (λ k. k.now < deadline) wakes × (Dict.lookup a t.mailboxes ≡ some [])

look_waits :
    (w : World) (a : String) (deadline now : ℕ) (next : Polled) (s t : Server)
    → look w a deadline now next s ≡ waiting t
    → (now < deadline) × (next ≡ waiting t) × (Dict.lookup a s.mailboxes ≡ some [])
unfolding look
look_waits w a deadline now next s t h = elim (Option-cases (Dict.lookup a s.mailboxes)) [
  | inl e ↦ ground (arith, h, e)
  | inr ([], e) ↦ ground (arith, h, e)
  | inr (m ∷ ms, e) ↦ ground (arith, h, e)
]

waiting-injective : (s t : Server) → waiting s ≡ waiting t → s ≡ t
waiting-injective s t h = ap server_of h

wait_waits :
    (w : World) (a : String) (deadline now : ℕ) (wakes : List Wake) (s t : Server)
    → wait_for_messages w a deadline now wakes s ≡ waiting t
    → (now < deadline) × Pending a deadline wakes t
unfolding wait_for_messages
wait_waits w a deadline now [] s t h =
    let l = look_waits w a deadline now (waiting s) s t h in
    (l.0, (tt, rw (sym (waiting-injective s t l.1)) l.2))
wait_waits w a deadline now (k ∷ ks) s t h =
    let l = look_waits w a deadline now _ s t h in
    let rest = wait_waits w a deadline k.now ks k.server t l.1 in
    (l.0, ((rest.0, rest.1.0), rest.1.1))

earlier :
    (wakes : List Wake) (m n : ℕ) → m ≤ n → All (λ k. k.now < m) wakes → All (λ k. k.now < n) wakes
earlier [] m n le h = tt
earlier (k ∷ ks) m n le h = (omega (arith, h.0), earlier ks m n le h.1)

-- A poll that still waits after the wakes it was given has met none of them at or after the end of
-- its time, which is at most 30 seconds after its start, and its mailbox was empty at the last one;
-- so the first wake from then on answers it.
pub handle_poll-waiting :
    (w : World) (r : Request) (agent_id : String) (wakes : List Wake) (s t : Server)
    → handle_poll w r agent_id wakes s ≡ waiting t
    → All (λ k. k.now < w.now + max_poll_wait) wakes
      × (Dict.lookup (caller r agent_id) t.mailboxes ≡ some [])
unfolding handle_poll
handle_poll-waiting w r agent_id wakes s t h = elim (Bool-cases (str_eq (caller r agent_id) "")) [
  | inl e ↦ ground (arith, h, e)
  | inr e ↦
      let span = poll_wait (w.float_of (query_or "wait" "25" r)) in
      let rest =
        wait_waits w (caller r agent_id) (w.now + span) w.now wakes
          (begin_poll w (caller r agent_id) s) t (ground (arith, h, e)) in
      let bound = poll_wait_bound (w.float_of (query_or "wait" "25" r)) in
      (
        earlier wakes (w.now + span) (w.now + max_poll_wait) (omega (arith, bound)) rest.1.0,
        rest.1.1,
      )
]
