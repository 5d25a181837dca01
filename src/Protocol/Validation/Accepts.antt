-- ===== src/Protocol/Validation/Accepts.antt =====
-- What `validate` accepts, told without its checks.
use robotsix_agent_comm.Prelude.{
  String, Bool, true, false, some, [], ◌≡◌, ◌≢◌, ◌↔◌, ◌⊎◌, inl, inr, refl, arith, eq_iff,
  Option-cases,
}
use robotsix_agent_comm.Prelude.Int.{ℤ, pos}
use robotsix_agent_comm.Protocol.Value.{
  Value, null, str, obj, Fields, end, field, has, at, is_nonempty_text, is_mapping, IsNonemptyText,
  IsMapping,
}
use robotsix_agent_comm.Protocol.Errors.{ProtocolError, ok, require}
use robotsix_agent_comm.Protocol.Messages.{
  MessageType, request, response, error, notification, message_type_of, type_name,
}
use robotsix_agent_comm.Protocol.Validation.{
  major, eq_ℤ, check_version, check_correlation, check_type, check_metadata, check_envelope,
  missing_of, required_envelope_fields, validate_dict,
}

-- A response has a correlation id, an error may have one, the other kinds have none.
abbrev pub IsCorrelated : MessageType → Value → Type 0
IsCorrelated response v = (c : String) × (v ≡ str c)
IsCorrelated error v = (v ≡ null) ⊎ ((c : String) × (v ≡ str c))
IsCorrelated request v = v ≡ null
IsCorrelated notification v = v ≡ null

abbrev pub IsVersion : Value → Type 0
IsVersion v = (s : String) × (v ≡ str s) × (major s ≡ some (pos 1))

abbrev pub IsMetadata : Value → Type 0
IsMetadata v =
    (m : Fields) × (v ≡ obj m) × IsNonemptyText (at "sender" m) × IsNonemptyText (at "timestamp" m)

-- An envelope of protocol version 1.x.
pub record IsEnvelope (d : Fields) : Type 0 where
  pub message_id : IsNonemptyText (at "message_id" d)
  pub kind : MessageType
  pub typed : at "type" d ≡ str (type_name kind)
  pub version : IsVersion (at "protocol_version" d)
  pub metadata : IsMetadata (at "metadata" d)
  pub body : IsMapping (at "body" d)
  pub correlation : IsCorrelated kind (at "correlation_id" d)

IsNonemptyText-iff : (v : Value) → (is_nonempty_text v ≡ true) ↔ IsNonemptyText v
unfolding is_nonempty_text
IsNonemptyText-iff (str s) =
    (λ h. (s, refl, λ e. ground (arith, eq_iff s "")), λ t. ground (arith, eq_iff s "", t.2))
IsNonemptyText-iff _ = (λ h. cc, λ t. cc (t.1))

IsMapping-iff : (v : Value) → (is_mapping v ≡ true) ↔ IsMapping v
IsMapping-iff (obj d) = (λ h. (d, refl), λ t. refl)
IsMapping-iff _ = (λ h. cc, λ t. cc (t.1))

require_iff : (b : Bool) (e : ProtocolError) → (require b e ≡ ok tt) ↔ (b ≡ true)
require_iff true _ = (λ h. refl, λ h. refl)
require_iff false _ = (λ h. cc, λ h. cc)

pub message_type_of-type_name : (t : MessageType) → message_type_of (str (type_name t)) ≡ some t
unfolding message_type_of type_name
message_type_of-type_name request = refl
message_type_of-type_name response = refl
message_type_of-type_name error = refl
message_type_of-type_name notification = refl

check_type_sound : (v : Value) (t : MessageType) → check_type v ≡ ok t → v ≡ str (type_name t)
unfolding check_type message_type_of type_name
check_type_sound (str s) t h =
    ground
      (arith, eq_iff s "request", eq_iff s "response", eq_iff s "error", eq_iff s "notification")
check_type_sound _ t h = cc

pub check_type-type_name : (t : MessageType) → check_type (str (type_name t)) ≡ ok t
unfolding check_type
check_type-type_name t = rw (message_type_of-type_name t, check_type)

eq_ℤ_iff : (a b : ℤ) → (eq_ℤ a b ≡ true) ↔ (a ≡ b)
unfolding eq_ℤ
eq_ℤ_iff a b = (λ h. ground arith, λ h. ground arith)

IsVersion-iff : (v : Value) → (check_version v ≡ ok tt) ↔ IsVersion v
unfolding check_version
IsVersion-iff (str s) = elim (Option-cases (major s)) [
  | inl e ↦ (λ h. ground arith, λ t. ground (arith, t.1, t.2))
  | inr (n, e) ↦ (
    λ h. (s, refl, ground (arith, eq_ℤ_iff n (pos 1))),
    λ t. ground (arith, t.1, t.2, eq_ℤ_iff n (pos 1)),
  )
]
IsVersion-iff _ = (λ h. cc, λ t. cc (t.1))

IsMetadata-iff : (v : Value) → (check_metadata v ≡ ok tt) ↔ IsMetadata v
unfolding check_metadata
IsMetadata-iff (obj m) = (
  λ h. (
    m,
    refl,
    (IsNonemptyText-iff (at "sender" m)).0 (ground arith),
    (IsNonemptyText-iff (at "timestamp" m)).0 (ground arith),
  ),
  λ t.
      let (d, e, sender, timestamp) = t in
      ground (
        arith,
        e,
        (IsNonemptyText-iff (at "sender" d)).1 sender,
        (IsNonemptyText-iff (at "timestamp" d)).1 timestamp,
      ),
)
IsMetadata-iff _ = (λ h. cc, λ t. cc (t.1))

correlation_iff : (t : MessageType) (v : Value) → (check_correlation t v ≡ ok tt) ↔ IsCorrelated t v
unfolding check_correlation
correlation_iff response (str c) = (λ h. (c, refl), λ t. refl)
correlation_iff response _ = (λ h. cc, λ t. cc (t.1))
correlation_iff error null = (λ h. inl refl, λ t. refl)
correlation_iff error (str c) = (λ h. inr (c, refl), λ t. refl)
correlation_iff error _ = (λ h. cc, λ t. ground arith)
correlation_iff request null = (λ h. refl, λ t. refl)
correlation_iff request _ = (λ h. cc, λ t. cc)
correlation_iff notification null = (λ h. refl, λ t. refl)
correlation_iff notification _ = (λ h. cc, λ t. cc)

has-at : (k : String) (d : Fields) → at k d ≢ null → has k d ≡ true
unfolding has at
has-at k end h = absurd (h refl)
has-at k (field j v d) h = ground (arith, has-at k d)

check_type_of_envelope :
    (d : Fields) → check_envelope d ≡ ok tt → (t : MessageType) × (check_type (at "type" d) ≡ ok t)
unfolding check_envelope
check_type_of_envelope d h = ground arith

pub check_envelope_sound : (d : Fields) → check_envelope d ≡ ok tt → IsEnvelope d
unfolding check_envelope
check_envelope_sound d h =
    let (t, typed) = check_type_of_envelope d h in
    record {
      message_id = (IsNonemptyText-iff (at "message_id" d)).0 (ground arith);
      kind = t;
      typed = check_type_sound (at "type" d) t typed;
      version = (IsVersion-iff (at "protocol_version" d)).0 (ground arith);
      metadata = (IsMetadata-iff (at "metadata" d)).0 (ground arith);
      body = (IsMapping-iff (at "body" d)).0 (ground arith);
      correlation = (correlation_iff t (at "correlation_id" d)).0 (ground arith);
    }

pub check_envelope_complete : (d : Fields) → IsEnvelope d → check_envelope d ≡ ok tt
unfolding check_envelope
check_envelope_complete d e = ground (
  arith,
  (IsNonemptyText-iff (at "message_id" d)).1 e.message_id,
  check_type-type_name e.kind,
  (IsVersion-iff (at "protocol_version" d)).1 e.version,
  (IsMetadata-iff (at "metadata" d)).1 e.metadata,
  (IsMapping-iff (at "body" d)).1 e.body,
  (correlation_iff e.kind (at "correlation_id" d)).1 e.correlation,
)

has_required : (d : Fields) → IsEnvelope d → missing_of d required_envelope_fields ≡ []
unfolding missing_of
has_required d e = ground (
  arith,
  has-at "message_id" d,
  has-at "type" d,
  has-at "protocol_version" d,
  has-at "metadata" d,
  has-at "body" d,
)

-- A dictionary passes `validate` exactly when it is an envelope of protocol version 1.x: non-empty
-- texts for its id, sender and timestamp, a known type, a body that is an object, and a
-- correlation id as its type wants it.
pub validate_dict_iff : (d : Fields) → (validate_dict d ≡ ok tt) ↔ IsEnvelope d
unfolding validate_dict
validate_dict_iff d = (
  λ h. check_envelope_sound d (ground arith),
  λ e. ground (arith, has_required d e, check_envelope_complete d e),
)
