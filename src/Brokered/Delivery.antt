-- ===== src/Brokered/Delivery.antt =====
-- transport/brokered.py and broker/server.py: a message on its way through a mailbox of the broker.
use robotsix_agent_comm.Prelude.{
  String, ltb, true, false, not, ◌&&◌, some, List, [], ◌∷◌, ◌++◌, map, All, str_eq, eq_iff, ◌≡◌,
  ◌≢◌, ◌⊎◌, inl, inr, refl, ap, ◌∙◌, arith,
}
use robotsix_agent_comm.Prelude.Dict
use robotsix_agent_comm.Protocol.Value.{str, truthy}
use robotsix_agent_comm.Protocol.Errors.{ok, ◌>>◌}
use robotsix_agent_comm.Protocol.Messages.{Message}
use robotsix_agent_comm.Protocol.Validation.{validate, message}
use robotsix_agent_comm.Protocol.Serialization.{serialize, deserialize}
use robotsix_agent_comm.Protocol.Serialization.RoundTrip.{deserialize-serialize}
use robotsix_agent_comm.Transport.Endpoints.{Endpoint}
use robotsix_agent_comm.Transport.Registry
use robotsix_agent_comm.Transport.Registry.{lookup_value, found, found_of}
use robotsix_agent_comm.Broker.State.{Server}
use robotsix_agent_comm.Broker.Http.{Request, World, Answer}
use robotsix_agent_comm.Broker.Register.{text_or_empty}
use robotsix_agent_comm.Broker.Send.{
  is_text, queue_message, dispatch_message, send_message, handle_send,
}
use robotsix_agent_comm.Broker.Poll.{Wake, answered, messages_response, caller, handle_poll}
use robotsix_agent_comm.Broker.Poll.Waiting.{HandsOut, poll-HandsOut, queue_message_mailbox}
use robotsix_agent_comm.Brokered.{exchange_of, messages, receive}
use robotsix_agent_comm.Brokered.Outcomes.{receive-messages_response}

-- The request `r` posts the message `m` as the agent `p`, to the pull agent `a`, whose mailbox holds
-- the valid messages `old`.
pub record IsPost (r : Request) (p a : String) (m : Message) (old : List Message) (s : Server)
    : Type 0 where
  pub fits : ltb s.max_body_size r.content_length ≡ false
  pub body : r.body ≡ some (serialize m)
  pub valid : validate (message m) ≡ ok tt
  pub own : (p ≡ "") ⊎ (m.metadata.sender ≡ str p)
  pub named : a ≢ ""
  pub addressed : m.metadata.recipient ≡ str a
  pub endpoint : Endpoint
  pub registered : Registry.lookup a s.registry ≡ some endpoint
  pub pulls : endpoint.mailbox ≡ true
  pub queue : Dict.lookup a s.mailboxes ≡ some (map serialize old)
  pub old_valid : All (λ x. validate (message x) ≡ ok tt) old

abbrev ValidAll : List Message → Type 0
ValidAll = All (λ x. validate (message x) ≡ ok tt)

map-append :
    (xs : List Message) (m : Message)
    → map serialize xs ++ serialize m ∷ [] ≡ map serialize (xs ++ m ∷ [])
map-append [] m = refl
map-append (x ∷ xs) m = ap (λ vs. serialize x ∷ vs) (map-append xs m)

all_append_one :
    (old : List Message) (m : Message)
    → ValidAll old
    → validate (message m) ≡ ok tt
    → ValidAll (old ++ m ∷ [])
all_append_one [] m h v = (v, tt)
all_append_one (x ∷ xs) m h v = (h.0, all_append_one xs m h.1 v)

-- a poll of an agent whose mailbox holds these messages and one more
handed_out :
    (w : World) (r : Request) (agent_id a : String) (wakes : List Wake) (s : Server)
    (old : List Message) (m : Message)
    → caller r agent_id ≡ a
    → a ≢ ""
    → Dict.lookup a s.mailboxes ≡ some (map serialize old ++ serialize m ∷ [])
    → HandsOut w a (map serialize (old ++ m ∷ [])) (handle_poll w r agent_id wakes s)
handed_out w r agent_id a wakes s [] m is named h =
    poll-HandsOut w r agent_id a wakes s (serialize m) [] is named h
handed_out w r agent_id a wakes s (x ∷ xs) m is named h =
    poll-HandsOut w r agent_id a wakes s (serialize x) (map serialize (xs ++ m ∷ [])) is named
      (h ∙ ap (λ vs. some (serialize x ∷ vs)) (map-append xs m))

module _ (w : World) (r : Request) (p a : String) (m : Message) (old : List Message) (s : Server)
    (i : IsPost r p a m old s) where
  sender_passes : (not (str_eq p "") && not (is_text m.metadata.sender p)) ≡ false
  sender_passes = elim i.own [
    | inl e ↦ ground (arith, e, eq_iff p "")
    | inr e ↦ rw (e) (ground (arith, eq_iff p p))
  ]

  recipient_given : truthy m.metadata.recipient ≡ true
  unfolding truthy
  recipient_given = rw (i.addressed) (ground (arith, i.named, eq_iff a ""))

  looked_up : lookup_value m.metadata.recipient s.registry ≡ found i.endpoint
  unfolding lookup_value
  looked_up = ap (λ v. lookup_value v s.registry) i.addressed ∙ ap found_of i.registered

  dispatch_queues : dispatch_message w m p s ≡ queue_message w m p a s
  unfolding dispatch_message
  dispatch_queues =
      rw (dispatch_message, looked_up, i.pulls)
        (ap (λ v. queue_message w m p (text_or_empty v) s) i.addressed)

  send_queues : handle_send w r p s ≡ queue_message w m p a s
  unfolding handle_send send_message
  send_queues =
      let read : deserialize r.body ≡ ok m =
        ap deserialize i.body ∙ deserialize-serialize m ∙ ap (λ x. x >> ok m) i.valid in
      rw (i.fits, read, sender_passes, recipient_given) dispatch_queues

  All-valid : All (λ x. validate (message x) ≡ ok tt) (old ++ m ∷ [])
  All-valid = all_append_one old m i.old_valid i.valid

  mailbox_after :
      Dict.lookup a (handle_send w r p s).1.mailboxes ≡ some (map serialize old ++ serialize m ∷ [])
  mailbox_after = rw (send_queues) (queue_message_mailbox w m p a s (map serialize old) i.queue)

  -- A valid message that is posted to a pull agent reaches it: the agent's next poll is answered at
  -- once, and the agent reads from the answer the messages that were waiting and then this one.
  pub receive-handle_send :
      (w' : World) (r' : Request) (agent_id : String) (wakes : List Wake)
      → caller r' agent_id ≡ a
      → (t : Server) × (answer : Answer) × (handle_poll w' r' agent_id wakes (handle_send w r p s).1
          ≡ answered answer t)
        × (receive (exchange_of answer) ≡ messages (old ++ m ∷ []))
        × (Dict.lookup a t.mailboxes ≡ some [])
  receive-handle_send w' r' agent_id wakes is =
      let (t, e, empty) = handed_out w' r' agent_id a wakes _ old m is i.named mailbox_after in
      (
        t,
        messages_response (map serialize (old ++ m ∷ [])),
        e,
        receive-messages_response (old ++ m ∷ []) All-valid,
        empty,
      )
