-- ===== src/Sdk/Responder/Replies.antt =====
-- sdk/responder.py: what a requester learns from the reply of `_dispatch`.
use robotsix_agent_comm.Prelude.{
  String, none, some, if◌then◌else◌, str_eq, eq_iff, ◌≡◌, ◌≢◌, ◌⊎◌, inl, inr, refl, arith,
  Bool-cases, Option-cases,
}
use robotsix_agent_comm.Prelude.Text.{concat}
use robotsix_agent_comm.Protocol.Value.{
  Value, str, Fields, end, at, text_of, is_nonempty_text, IsNonemptyText,
}
use robotsix_agent_comm.Protocol.Errors.{ok}
use robotsix_agent_comm.Protocol.Messages.{Message, error, Stamp, response_to, error_to}
use robotsix_agent_comm.Protocol.Validation.{validate, message}
use robotsix_agent_comm.Protocol.Replies.{IsStamp, reply_valid_iff, reply_routing}
use robotsix_agent_comm.Sdk.Responder.{
  Handled, returned, raised, Handler, Responder, lookup_handler, params_of, reply_with, serve,
  serve_kind, kind_of, dispatch,
}

-- the code of an error, as its receiver reads it
abbrev pub HasCode : String → Message → Type 0
HasCode code reply = (reply.kind ≡ error) × (at "code" reply.body ≡ str code)

-- a request for a kind
abbrev pub Asks : Message → String → Type 0
Asks m kind = (at "kind" m.body ≡ str kind) × (kind ≢ "")

-- what the handler of a kind makes of a request
abbrev pub Handles : Responder → Message → String → Handled → Type 0
Handles r m kind result =
    (h : Handler) × (lookup_handler r kind ≡ some h) × (h m (params_of m.body) ≡ result)

-- the four things that a request can come to
pub data Verdict (r : Responder) (m : Message) : Type 0 where
  unreadable : ¬ IsNonemptyText (at "kind" m.body) → Verdict r m
  unknown : (kind : String) → Asks m kind → lookup_handler r kind ≡ none → Verdict r m
  failing : (kind text : String) → Asks m kind → Handles r m kind (raised text) → Verdict r m
  answered :
      (kind : String) (body : Fields) → Asks m kind → Handles r m kind (returned body) → Verdict r m

kind_of-asked :
    (d : Fields) (kind : String) → at "kind" d ≡ str kind → kind ≢ "" → kind_of d ≡ some kind
unfolding is_nonempty_text
kind_of-asked d kind e ne = rw (e) (ground (arith, ne, eq_iff kind ""))

kind_of-text :
    (v : Value)
    → (((if is_nonempty_text v then text_of v else none) ≡ none) × ¬ IsNonemptyText v)
      ⊎ IsNonemptyText v
unfolding is_nonempty_text
kind_of-text (str s) = elim (Bool-cases (str_eq s "")) [
  | inl e ↦ rw (e) (inl (refl, λ (z, q, ne). ground (arith, q, ne, e, eq_iff s "")))
  | inr e ↦ inr (s, refl, λ z. ground (arith, e, z, eq_iff s ""))
]
kind_of-text _ = inl (refl, λ (z, q, ne). ground (arith, q))

verdict_of-handled :
    (r : Responder) (m : Message) (kind : String)
    → Asks m kind
    → (h : Handler) → lookup_handler r kind ≡ some h
    → (o : Handled) → h m (params_of m.body) ≡ o
    → Verdict r m
verdict_of-handled r m kind a h l (returned body) e = answered kind body a (h, l, e)
verdict_of-handled r m kind a h l (raised text) e = failing kind text a (h, l, e)

pub verdict_of : (r : Responder) (m : Message) → Verdict r m
verdict_of r m = elim (kind_of-text (at "kind" m.body)) [
  | inl (_, n) ↦ unreadable n
  | inr (kind, e, ne) ↦ elim (Option-cases (lookup_handler r kind)) [
    | inl l ↦ unknown kind (e, ne) l
    | inr (h, l) ↦ verdict_of-handled r m kind (e, ne) h l (h m (params_of m.body)) refl
  ]
]

module _ (repr : String → String) (t : Stamp) (r : Responder) (m : Message) where
  pub dispatch-unreadable :
      ¬ IsNonemptyText (at "kind" m.body)
      → dispatch repr t r m
        ≡ error_to t m "invalid_request" "missing or invalid 'kind' in request body"
            (some r.agent_id)
  unfolding dispatch serve_kind
  dispatch-unreadable n = elim (kind_of-text (at "kind" m.body)) [
    | inl (e, _) ↦ rw (e) refl
    | inr x ↦ absurd (n x)
  ]

  pub dispatch-unknown :
      (kind : String)
      → Asks m kind
      → lookup_handler r kind ≡ none
      → dispatch repr t r m
        ≡ error_to t m "unknown_kind"
            (concat "unknown request kind: " (repr kind))
            (some r.agent_id)
  unfolding dispatch serve_kind serve
  dispatch-unknown kind a l = rw (kind_of-asked m.body kind a.0 a.1, l) refl

  pub dispatch-handled :
      (kind : String) (o : Handled)
      → Asks m kind
      → Handles r m kind o
      → dispatch repr t r m ≡ reply_with repr t r m o
  unfolding dispatch serve_kind serve
  dispatch-handled kind o a (h, l, e) = rw (kind_of-asked m.body kind a.0 a.1, l, e) refl

  -- A reply of `_dispatch` is an error or a response to the request.
  pub dispatch_form :
      ((code : String) × (text : String) × (dispatch repr t r m
          ≡ error_to t m code text (some r.agent_id)))
      ⊎ ((body : Fields) × (dispatch repr t r m ≡ response_to t m body (some r.agent_id)))
  unfolding reply_with
  dispatch_form = elim (verdict_of r m) [
    | unreadable n ↦ inl (_, _, dispatch-unreadable n)
    | unknown kind a l ↦ inl (_, _, dispatch-unknown kind a l)
    | failing kind text a h ↦ inl (_, _, dispatch-handled kind (raised text) a h)
    | answered kind body a h ↦ inr (_, dispatch-handled kind (returned body) a h)
  ]

  -- Whatever the body of a valid request is and whether its handler returns a JSON object or raises,
  -- the reply is a valid message, goes to the request's sender and bears the request's id.
  pub dispatch_reply :
      (good : IsStamp t)
      → validate (message m) ≡ ok tt
      → r.agent_id ≢ ""
      → (validate (message (dispatch repr t r m)) ≡ ok tt)
        × ((dispatch repr t r m).metadata.recipient ≡ m.metadata.sender)
        × ((dispatch repr t r m).correlation_id ≡ some m.message_id)
  dispatch_reply good valid named = elim dispatch_form [
    | inl (code, text, e) ↦
        let v = reply_valid_iff t good m valid (some r.agent_id) code text end in
        let f = reply_routing t good m valid (some r.agent_id) code text end in
        rw (e) (v.0.1 named, f.0, f.1)
    | inr (body, e) ↦
        let v = reply_valid_iff t good m valid (some r.agent_id) "" "" body in
        let f = reply_routing t good m valid (some r.agent_id) "" "" body in
        rw (e) (v.1.1 named, f.2, f.3)
  ]
