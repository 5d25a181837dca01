-- ===== src/Protocol/Replies.antt =====
-- The replies that messages.py builds: `Response.to` and `Error.to`.
use robotsix_agent_comm.Prelude.{
  String, Option, none, some, ◌≡◌, ◌≢◌, ◌↔◌, ◌⊎◌, refl, arith, inl, inr, ap, ◌∙◌,
}
use robotsix_agent_comm.Prelude.Int.{pos}
use robotsix_agent_comm.Protocol.Value.{Value, null, str, Fields, fields_of, at, IsNonemptyText}
use robotsix_agent_comm.Protocol.Errors.{ok}
use robotsix_agent_comm.Protocol.Messages.{Message, Stamp, reply_sender, response_to, error_to}
use robotsix_agent_comm.Protocol.Validation.{
  envelope_of, validate, message, major, check_envelope, optional_text, major_of_protocol_version,
}
use robotsix_agent_comm.Protocol.Validation.Accepts.{
  IsCorrelated, check_envelope_complete, check_envelope_sound,
}

pub record IsStamp (t : Stamp) : Type 0 where
  pub now : t.now ≢ ""
  pub fresh_id : t.fresh_id ≢ ""

-- A reply has a sender: one is given, or the message's recipient is a text or absent.
abbrev pub HasReplySender : Message → Option String → Type 0
HasReplySender m (some s) = s ≢ ""
HasReplySender m none = (m.metadata.recipient ≡ null) ⊎ IsNonemptyText m.metadata.recipient

reply_sender-none :
    (m : Message) (v : Value)
    → m.metadata.recipient ≡ v
    → IsNonemptyText m.metadata.sender
    → IsNonemptyText (reply_sender m none) ↔ ((v ≡ null) ⊎ IsNonemptyText v)
unfolding reply_sender
reply_sender-none m null e h = rw (e, reply_sender) (λ x. inl refl, λ x. h)
reply_sender-none m (str s) e h =
    rw (e, reply_sender) (λ x. inr x, λ x. elim x [ inl p ↦ absurd (ground arith) | inr q ↦ q ])
reply_sender-none m _ e h =
    rw (e, reply_sender) (λ x. inr x, λ x. elim x [ inl p ↦ absurd (ground arith) | inr q ↦ q ])

reply_sender_iff :
    (m : Message) (sender : Option String)
    → IsNonemptyText m.metadata.sender
    → IsNonemptyText (reply_sender m sender) ↔ HasReplySender m sender
unfolding reply_sender
reply_sender_iff m (some s) h = (λ (x, e, ne). λ z. ne (cc), λ ne. (s, refl, ne))
reply_sender_iff m none h = reply_sender-none m m.metadata.recipient refl h

sent_by : (r : Message) → check_envelope (envelope_of r) ≡ ok tt → IsNonemptyText r.metadata.sender
unfolding envelope_of at
sent_by r h =
    let e = check_envelope_sound (envelope_of r) h in
    let (x, x_eq, (s, s_eq, ne), _) = e.metadata in
    (s, ap (λ v. at "sender" (fields_of v)) x_eq ∙ s_eq, ne)

-- Of a reply that has all else, the sender decides.
pub reply_envelope_iff :
    (r : Message)
    → r.message_id ≢ ""
    → r.metadata.timestamp ≢ ""
    → major r.version ≡ some (pos 1)
    → IsCorrelated r.kind (optional_text r.correlation_id)
    → (check_envelope (envelope_of r) ≡ ok tt) ↔ IsNonemptyText r.metadata.sender
unfolding envelope_of at
reply_envelope_iff r id now version correlated = (
  sent_by r,
  λ sender. check_envelope_complete (envelope_of r) (record {
    message_id = (r.message_id, refl, id);
    kind = r.kind;
    typed = refl;
    version = (r.version, refl, version);
    metadata = (_, refl, sender, (r.metadata.timestamp, refl, now));
    body = (r.body, refl);
    correlation = correlated;
  }),
)

module _ (t : Stamp) (good : IsStamp t) (m : Message) (valid : validate (message m) ≡ ok tt) where
  error_valid_iff :
      (sender : Option String) (code text : String)
      → (validate (message (error_to t m code text sender)) ≡ ok tt) ↔ HasReplySender m sender
  unfolding validate error_to
  error_valid_iff sender code text =
      let r = error_to t m code text sender in
      let by =
        reply_envelope_iff r good.fresh_id good.now major_of_protocol_version
          (inr (m.message_id, refl)) in
      let has = reply_sender_iff m sender (sent_by m valid) in
      (λ h. has.0 (by.0 h), λ h. by.1 (has.1 h))

  response_valid_iff :
      (sender : Option String) (body : Fields)
      → (validate (message (response_to t m body sender)) ≡ ok tt) ↔ HasReplySender m sender
  unfolding validate response_to
  response_valid_iff sender body =
      let r = response_to t m body sender in
      let by =
        reply_envelope_iff r good.fresh_id good.now major_of_protocol_version
          (m.message_id, refl) in
      let has = reply_sender_iff m sender (sent_by m valid) in
      (λ h. has.0 (by.0 h), λ h. by.1 (has.1 h))

  -- A reply to a valid message, an error or a response with any body, is valid exactly when it has
  -- a sender.
  pub reply_valid_iff :
      (sender : Option String) (code text : String) (body : Fields)
      → ((validate (message (error_to t m code text sender)) ≡ ok tt) ↔ HasReplySender m sender)
        × ((validate (message (response_to t m body sender)) ≡ ok tt) ↔ HasReplySender m sender)
  reply_valid_iff sender code text body =
      (error_valid_iff sender code text, response_valid_iff sender body)

  -- A reply goes to the sender of the message and is correlated to it by the message's id.
  pub reply_routing :
      (sender : Option String) (code text : String) (body : Fields)
      → ((error_to t m code text sender).metadata.recipient ≡ m.metadata.sender)
        × ((error_to t m code text sender).correlation_id ≡ some m.message_id)
        × ((response_to t m body sender).metadata.recipient ≡ m.metadata.sender)
        × ((response_to t m body sender).correlation_id ≡ some m.message_id)
  unfolding error_to response_to
  reply_routing sender code text body = (refl, refl, refl, refl)
