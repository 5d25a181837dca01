-- ===== src/Protocol/Serialization/Faults.antt =====
-- What a received dictionary leads to: the message of a valid envelope, or an exception that is no
-- `ProtocolError`.
use robotsix_agent_comm.Prelude.{◌≡◌, ◌≢◌, ◌↔◌, refl, arith, inl, inr}
use robotsix_agent_comm.Protocol.Value.{Value, str, obj, Fields, end, at, at_or, fields_of}
use robotsix_agent_comm.Protocol.Errors.{Fault, Result-cases, ok, fault}
use robotsix_agent_comm.Protocol.Messages.{
  MessageType, request, response, error, notification, Message,
}
use robotsix_agent_comm.Protocol.Validation.{
  envelope_of, validate, message, validate_dict, check_envelope, optional_text,
}
use robotsix_agent_comm.Protocol.Validation.Accepts.{
  IsEnvelope, IsCorrelated, check_type-type_name, check_envelope_complete, validate_dict_iff,
}
use robotsix_agent_comm.Protocol.Serialization.{from_dict, dict_of, correlation_of}

-- the `extra` that an envelope carries, as `from_dict` reads it
abbrev extra_of : Fields → Value
extra_of d = at_or "extra" (obj end) (fields_of (at "metadata" d))

from_dict_of_envelope :
    (d : Fields) (e : IsEnvelope d) (f : Fault)
    → (from_dict d ≡ fault f) ↔ (dict_of (extra_of d) ≡ fault f)
unfolding from_dict
from_dict_of_envelope d e f =
    let valid = (validate_dict_iff d).1 e in
    let typed = check_type-type_name e.kind in
    (λ h. ground (arith, e.typed, valid, typed), λ h. ground (arith, e.typed, valid, typed))

validate_dict-ne-fault : (d : Fields) (f : Fault) → validate_dict d ≢ fault f
unfolding validate_dict check_envelope
validate_dict-ne-fault d f h = ground arith

validated : (d : Fields) (f : Fault) → from_dict d ≡ fault f → validate_dict d ≡ ok tt
unfolding from_dict
validated d f h = elim (Result-cases (validate_dict d)) [
  | inl (u, e) ↦ e
  | inr (inl (x, e)) ↦ ground (arith, e)
  | inr (inr (x, e)) ↦ absurd (validate_dict-ne-fault d x e)
]

-- Reading a dictionary comes to a fault exactly when it is a valid envelope and `dict` of its
-- `metadata.extra` comes to this fault.
from_dict_fault_iff :
    (d : Fields) (f : Fault)
    → (from_dict d ≡ fault f) ↔ (IsEnvelope d × (dict_of (extra_of d) ≡ fault f))
unfolding from_dict
from_dict_fault_iff d f = (
  λ h. let e = (validate_dict_iff d).0 (validated d f h) in (e, (from_dict_of_envelope d e f).0 h),
  λ (e, h). (from_dict_of_envelope d e f).1 h,
)

received : (d : Fields) (m : Message) → from_dict d ≡ ok m → IsEnvelope d
unfolding from_dict
received d m h = (validate_dict_iff d).0 (ground arith)

correlation_read :
    (t : MessageType) (v : Value)
    → IsCorrelated t v
    → IsCorrelated t (optional_text (correlation_of t v))
unfolding correlation_of
correlation_read request v c = refl
correlation_read notification v c = refl
correlation_read response v c = rw c.1 (c.0, refl)
correlation_read error v c = elim c [ inl e ↦ rw e (inl refl) | inr (s, e) ↦ rw e (inr (s, refl)) ]

module _ (d : Fields) (m : Message) (h : from_dict d ≡ ok m) (e : IsEnvelope d) where
  read_kind : m.kind ≡ e.kind
  unfolding from_dict
  read_kind = ground (arith, e.typed, check_type-type_name e.kind)

  read_correlation : m.correlation_id ≡ correlation_of e.kind (at "correlation_id" d)
  unfolding from_dict
  read_correlation = ground (arith, e.typed, check_type-type_name e.kind)

  read_id : m.message_id ≡ e.message_id.0
  unfolding from_dict
  read_id = ground (arith, e.message_id.1)

  read_version : m.version ≡ e.version.0
  unfolding from_dict
  read_version = ground (arith, e.version.1)

  read_sender : m.metadata.sender ≡ str e.metadata.2.0
  unfolding from_dict
  read_sender = ground (arith, e.metadata.1, e.metadata.2.1)

  read_timestamp : m.metadata.timestamp ≡ e.metadata.3.0
  unfolding from_dict
  read_timestamp = ground (arith, e.metadata.1, e.metadata.3.1)

  reread : IsEnvelope (envelope_of m)
  unfolding envelope_of at
  reread = record {
    message_id = (m.message_id, refl, rw read_id e.message_id.2);
    kind = e.kind;
    typed = rw read_kind;
    version = (m.version, refl, rw read_version e.version.2);
    metadata = (
      _,
      refl,
      (e.metadata.2.0, read_sender, e.metadata.2.2),
      (m.metadata.timestamp, refl, rw read_timestamp e.metadata.3.2),
    );
    body = (m.body, refl);
    correlation = rw read_correlation (correlation_read e.kind _ e.correlation);
  }

-- A message that is read from a dictionary came from a valid envelope, and `validate` accepts it.
pub from_dict-IsEnvelope :
    (d : Fields) (m : Message) → from_dict d ≡ ok m → IsEnvelope d × (validate (message m) ≡ ok tt)
unfolding validate
from_dict-IsEnvelope d m h =
    (received d m h, check_envelope_complete (envelope_of m) (reread d m h (received d m h)))
