-- ===== src/Sdk/Responder/Outcomes.antt =====
-- sdk/responder.py: which requests come to which of the codes and to a response.
use robotsix_agent_comm.Prelude.{
  String, none, some, ◌≡◌, ◌↔◌, refl, sym, ap, str_eq, eq_iff, false, ◌∙◌, arith,
}
use robotsix_agent_comm.Protocol.Value.{str, Fields, at, IsNonemptyText}
use robotsix_agent_comm.Protocol.Messages.{
  Message, response, Stamp, response_to, error_to, error_body,
}
use robotsix_agent_comm.Sdk.Responder.{
  returned, raised, Responder, lookup_handler, reply_with, dispatch,
}
use robotsix_agent_comm.Sdk.Responder.Replies.{
  HasCode, Asks, Handles, unreadable, unknown, failing, answered, verdict_of, dispatch-unreadable,
  dispatch-unknown, dispatch-handled,
}

-- an answer that says which handler's failure it is, and one with a handler's result
abbrev pub HasFailure : String → Message → Type 0
HasFailure text reply = HasCode "handler_error" reply × (at "message" reply.body ≡ str text)

abbrev pub HasResult : Fields → Message → Type 0
HasResult body reply = (reply.kind ≡ response) × (reply.body ≡ body)

module _ (repr : String → String) (t : Stamp) (r : Responder) (m : Message) where
  error-HasCode :
      (code text : String) (reply : Message)
      → reply ≡ error_to t m code text (some r.agent_id)
      → HasCode code reply × (at "message" reply.body ≡ str text)
  unfolding error_to error_body at
  error-HasCode code text reply e = rw (e) ((refl, refl), refl)

  other_code :
      (code text other : String) (reply : Message)
      → str_eq other code ≡ false
      → reply ≡ error_to t m code text (some r.agent_id)
      → ¬ HasCode other reply
  other_code code text other reply ne e h =
      ground (arith, ne, eq_iff other code, sym h.1 ∙ (error-HasCode code text reply e).0.1)

  is_no_error :
      (body : Fields) (code : String) (reply : Message)
      → reply ≡ response_to t m body (some r.agent_id)
      → ¬ HasCode code reply
  unfolding response_to
  is_no_error body code reply e h = ground (arith, ap (λ x. x.kind) e, h.0)

  unreadable_only :
      HasCode "invalid_request" (dispatch repr t r m) → ¬ IsNonemptyText (at "kind" m.body)
  unfolding reply_with
  unreadable_only h = elim (verdict_of r m) [
    | unreadable n ↦ n
    | unknown kind a l ↦ absurd (other_code _ _ _ _ refl (dispatch-unknown repr t r m kind a l) h)
    | failing kind text a x ↦
        absurd (other_code _ _ _ _ refl (dispatch-handled repr t r m kind (raised text) a x) h)
    | answered kind body a x ↦
        absurd (is_no_error _ _ _ (dispatch-handled repr t r m kind (returned body) a x) h)
  ]

  unknown_only :
      HasCode "unknown_kind" (dispatch repr t r m)
      → (kind : String) × Asks m kind × (lookup_handler r kind ≡ none)
  unfolding reply_with
  unknown_only h = elim (verdict_of r m) [
    | unreadable n ↦ absurd (other_code _ _ _ _ refl (dispatch-unreadable repr t r m n) h)
    | unknown kind a l ↦ (kind, a, l)
    | failing kind text a x ↦
        absurd (other_code _ _ _ _ refl (dispatch-handled repr t r m kind (raised text) a x) h)
    | answered kind body a x ↦
        absurd (is_no_error _ _ _ (dispatch-handled repr t r m kind (returned body) a x) h)
  ]

  failing_only :
      (text : String)
      → HasFailure text (dispatch repr t r m)
      → (kind : String) × Asks m kind × Handles r m kind (raised text)
  unfolding reply_with
  failing_only text (h, s) = elim (verdict_of r m) [
    | unreadable n ↦ absurd (other_code _ _ _ _ refl (dispatch-unreadable repr t r m n) h)
    | unknown kind a l ↦ absurd (other_code _ _ _ _ refl (dispatch-unknown repr t r m kind a l) h)
    | failing kind said a x ↦
        let e =
          sym s
          ∙ (error-HasCode "handler_error" said _
              (dispatch-handled repr t r m kind (raised said) a x)).1 in
        (kind, a, (x.0, x.1, x.2 ∙ ground (arith, e)))
    | answered kind body a x ↦
        absurd (is_no_error _ _ _ (dispatch-handled repr t r m kind (returned body) a x) h)
  ]

  answered_only :
      (body : Fields)
      → HasResult body (dispatch repr t r m)
      → (kind : String) × Asks m kind × Handles r m kind (returned body)
  unfolding reply_with response_to
  answered_only body (k, b) = elim (verdict_of r m) [
    | unreadable n ↦
        absurd (ground (arith, k, error-HasCode _ _ _ (dispatch-unreadable repr t r m n)))
    | unknown kind a l ↦
        absurd (ground (arith, k, error-HasCode _ _ _ (dispatch-unknown repr t r m kind a l)))
    | failing kind said a x ↦ absurd (
        ground (arith, k, error-HasCode _ _ _ (dispatch-handled repr t r m kind (raised said) a x)))
    | answered kind other a x ↦
        let e = dispatch-handled repr t r m kind (returned other) a x in
        (kind, a, (x.0, x.1, x.2 ∙ ap returned (sym (ap (λ y. y.body) e) ∙ b)))
  ]

  -- The reply tells exactly what became of the request: that it names no kind, that nothing serves
  -- its kind, that the handler raised an exception with some text, or what the handler returned.
  pub dispatch_iff :
      (HasCode "invalid_request" (dispatch repr t r m) ↔ ¬ IsNonemptyText (at "kind" m.body))
      × (HasCode "unknown_kind" (dispatch repr t r m)
          ↔ ((kind : String) × Asks m kind × (lookup_handler r kind ≡ none)))
      × ((text : String)
          → HasFailure text (dispatch repr t r m)
            ↔ ((kind : String) × Asks m kind × Handles r m kind (raised text)))
      × ((body : Fields)
          → HasResult body (dispatch repr t r m)
            ↔ ((kind : String) × Asks m kind × Handles r m kind (returned body)))
  unfolding reply_with response_to
  dispatch_iff = (
    (unreadable_only, λ n. (error-HasCode _ _ _ (dispatch-unreadable repr t r m n)).0),
    (unknown_only, λ (kind, a, l). (error-HasCode _ _ _ (dispatch-unknown repr t r m kind a l)).0),
    λ text. (
      failing_only text,
      λ (kind, a, x). error-HasCode _ _ _ (dispatch-handled repr t r m kind (raised text) a x),
    ),
    λ body. (
      answered_only body,
      λ (kind, a, x). rw (dispatch-handled repr t r m kind (returned body) a x) (refl, refl),
    ),
  )
