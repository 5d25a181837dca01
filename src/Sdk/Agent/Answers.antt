-- ===== src/Sdk/Agent/Answers.antt =====
-- sdk/agent.py: what `_run_handler` posts for a message.
use robotsix_agent_comm.Prelude.{
  String, Bool, Option, none, some, ◌≡◌, ◌≢◌, ◌↔◌, ◌⊎◌, inl, inr, refl, sym, ap, ◌∙◌, arith,
  Bool-cases, Option-cases,
}
use robotsix_agent_comm.Prelude.Text.{concat}
use robotsix_agent_comm.Protocol.Value.{end}
use robotsix_agent_comm.Protocol.Errors.{ok}
use robotsix_agent_comm.Protocol.Messages.{
  Message, MessageType, request, response, error, notification, Stamp, error_to,
}
use robotsix_agent_comm.Protocol.Validation.{validate, message}
use robotsix_agent_comm.Protocol.Replies.{IsStamp, reply_valid_iff, reply_routing}
use robotsix_agent_comm.Sdk.Agent.{
  Handled, replied, raised, Agent, handle, handle_request, handle_notification, handle_kind,
  reply_or_error, error_reply, run_handler,
}

-- the callback of the agent fails on a request: there is none, or it raises
abbrev pub Fails : Agent → Message → Type 0
Fails a m =
    (a.request_handler ≡ none)
    ⊎ ((h : Message → Handled) × (a.request_handler ≡ some h) × (h m ≡ raised))

-- the callback of the agent returns nothing for a request
abbrev pub Declines : Agent → Message → Type 0
Declines a m = (h : Message → Handled) × (a.request_handler ≡ some h) × (h m ≡ replied none)

data Kind (k : MessageType) : Type 0 where
  asking : k ≡ request → Kind k
  telling : k ≡ notification → Kind k
  answering : k ≡ response → Kind k
  failing : k ≡ error → Kind k

kind_of : (k : MessageType) → Kind k
kind_of request = asking refl
kind_of notification = telling refl
kind_of response = answering refl
kind_of error = failing refl

module _ (repr : String → String) (t : Stamp) (a : Agent) (m : Message) where
  run_handler-kind :
      (k : MessageType)
      → m.kind ≡ k
      → (run_handler repr t a m).1 ≡ reply_or_error repr t a m (handle_kind repr t a m k)
  unfolding run_handler handle
  run_handler-kind k e = ap (λ x. reply_or_error repr t a m (handle_kind repr t a m x)) e

  run_handler-request :
      m.kind ≡ request
      → (run_handler repr t a m).1
        ≡ reply_or_error repr t a m (handle_request repr t a m a.request_handler)
  unfolding handle_kind
  run_handler-request k = run_handler-kind request k

  pub run_handler-handled :
      (h : Message → Handled)
      → m.kind ≡ request
      → a.request_handler ≡ some h
      → (run_handler repr t a m).1 ≡ reply_or_error repr t a m (h m)
  unfolding handle_request
  run_handler-handled h k e = run_handler-request k ∙ rw (e) refl

  Fails-error :
      m.kind ≡ request
      → Fails a m
      → (code : String) × (text : String) × ((run_handler repr t a m).1
          ≡ some (error_to t m code text (some a.agent_id)))
  unfolding handle_request reply_or_error error_reply
  Fails-error k (inl e) = (
    "no_handler",
    concat "agent " (concat (repr a.agent_id) " has no request handler"),
    run_handler-request k ∙ rw (e) refl,
  )
  Fails-error k (inr (h, e, x)) = (
    "handler_error",
    "internal handler error",
    run_handler-handled h k e ∙ ap (reply_or_error repr t a m) x ∙ ap (error_reply repr t a m) k,
  )

  silent_notification :
      (o : Option (Message → Bool))
      → m.kind ≡ notification
      → reply_or_error repr t a m (handle_notification repr t m o) ≡ none
  unfolding handle_notification reply_or_error error_reply
  silent_notification none k = refl
  silent_notification (some h) k = elim (Bool-cases (h m)) [
    | inl e ↦ rw (e) (ap (error_reply repr t a m) k)
    | inr e ↦ rw (e) refl
  ]

  silent : m.kind ≢ request → (run_handler repr t a m).1 ≡ none
  unfolding handle_kind reply_or_error
  silent n = elim (kind_of m.kind) [
    | asking k ↦ absurd (n k)
    | telling k ↦ run_handler-kind notification k ∙ silent_notification a.notification_handler k
    | answering k ↦ run_handler-kind response k
    | failing k ↦ run_handler-kind error k
  ]

  handled_nothing :
      (o : Handled) → o ≢ raised → reply_or_error repr t a m o ≡ none → o ≡ replied none
  unfolding reply_or_error
  handled_nothing (replied r) n e = ap replied e
  handled_nothing raised n e = absurd (n refl)

  not_failed : m.kind ≡ request → (run_handler repr t a m).1 ≡ none → ¬ Fails a m
  not_failed k e f = let (c, s, q) = Fails-error k f in ground (arith, e, q)

  declined : m.kind ≡ request → (run_handler repr t a m).1 ≡ none → Declines a m
  declined k e = elim (Option-cases a.request_handler) [
    | inl x ↦ absurd (not_failed k e (inl x))
    | inr (h, x) ↦ (
      h,
      x,
      handled_nothing (h m) (λ r. not_failed k e (inr (h, x, r)))
          (sym (run_handler-handled h k x) ∙ e),
    )
  ]

  -- A message is left without a reply exactly when it is no request or the callback returns nothing
  -- for it.
  pub run_handler_iff : ((run_handler repr t a m).1 ≡ none) ↔ ((m.kind ≢ request) ⊎ Declines a m)
  unfolding reply_or_error
  run_handler_iff = (
    λ e. elim (kind_of m.kind) [
      | asking k ↦ inr (declined k e)
      | telling k ↦ inl (λ r. ground (arith, k, r))
      | answering k ↦ inl (λ r. ground (arith, k, r))
      | failing k ↦ inl (λ r. ground (arith, k, r))
    ],
    λ x. elim x [
      | inl n ↦ silent n
      | inr (h, e, d) ↦ elim (kind_of m.kind) [
        | asking k ↦ run_handler-handled h k e ∙ rw (d) refl
        | telling k ↦ silent (λ r. ground (arith, k, r))
        | answering k ↦ silent (λ r. ground (arith, k, r))
        | failing k ↦ silent (λ r. ground (arith, k, r))
      ]
    ],
  )

  -- A valid request whose callback is missing or raises is answered all the same: with a valid error
  -- that goes to the request's sender and bears the request's id.
  pub run_handler-Fails :
      (good : IsStamp t)
      → validate (message m) ≡ ok tt
      → a.agent_id ≢ ""
      → m.kind ≡ request
      → Fails a m
      → (reply : Message) × ((run_handler repr t a m).1 ≡ some reply)
        × (reply.kind ≡ error)
        × (validate (message reply) ≡ ok tt)
        × (reply.metadata.recipient ≡ m.metadata.sender)
        × (reply.correlation_id ≡ some m.message_id)
  run_handler-Fails good valid named k f =
      let (code, text, e) = Fails-error k f in
      let v = reply_valid_iff t good m valid (some a.agent_id) code text end in
      let r = reply_routing t good m valid (some a.agent_id) code text end in
      (error_to t m code text (some a.agent_id), e, unfold error_to in refl, v.0.1 named, r.0, r.1)
