-- ===== src/Protocol/Serialization/RoundTrip.antt =====
-- What comes back of a message that is sent, and what a received message satisfies.
use robotsix_agent_comm.Prelude.{Option, some, String, [], ◌≡◌, refl, arith, inl, inr, ap, ◌∙◌}
use robotsix_agent_comm.Protocol.Value.{Fields, has, at, at_or}
use robotsix_agent_comm.Protocol.Errors.{ProtocolError, Fault, Result-cases, ok, err, fault, ◌>>◌}
use robotsix_agent_comm.Protocol.Messages.{MessageType, Message}
use robotsix_agent_comm.Protocol.Validation.{
  envelope_of, validate, message, validate_dict, missing_of, check_envelope, check_correlation,
  required_envelope_fields, optional_text,
}
use robotsix_agent_comm.Protocol.Validation.Accepts.{
  check_type-type_name, message_type_of-type_name,
}
use robotsix_agent_comm.Protocol.Serialization.{
  to_dict, from_dict, serialize, deserialize, correlation_of,
}

missing_of-envelope_of : (m : Message) → missing_of (envelope_of m) required_envelope_fields ≡ []
unfolding missing_of envelope_of has
missing_of-envelope_of m = refl

validate_dict-envelope_of :
    (m : Message) → validate_dict (envelope_of m) ≡ check_envelope (envelope_of m)
unfolding validate_dict
validate_dict-envelope_of m = rw (missing_of-envelope_of m, validate_dict)

correlation_kept :
    (t : MessageType) (c : Option String)
    → check_correlation t (optional_text c) ≡ ok tt
    → correlation_of t (optional_text c) ≡ c
unfolding check_correlation correlation_of
correlation_kept t c h = ground arith

correlation_checked :
    (m : Message)
    → check_envelope (envelope_of m) ≡ ok tt
    → check_correlation m.kind (optional_text m.correlation_id) ≡ ok tt
unfolding check_envelope envelope_of at
correlation_checked m h = ground (arith, check_type-type_name m.kind)

to_dict-envelope_of : (m : Message) → to_dict m ≡ envelope_of m
unfolding to_dict envelope_of
to_dict-envelope_of m = refl

validate_dict-to_dict : (m : Message) → validate_dict (to_dict m) ≡ check_envelope (envelope_of m)
validate_dict-to_dict m = ap validate_dict (to_dict-envelope_of m) ∙ validate_dict-envelope_of m

from_dict-to_dict :
    (m : Message) → check_envelope (envelope_of m) ≡ ok tt → from_dict (to_dict m) ≡ ok m
unfolding from_dict to_dict at at_or
from_dict-to_dict m h = ground (
  arith,
  validate_dict-to_dict m,
  message_type_of-type_name m.kind,
  correlation_kept m.kind m.correlation_id (correlation_checked m h),
)

from_dict_err : (d : Fields) (x : ProtocolError) → validate_dict d ≡ err x → from_dict d ≡ err x
unfolding from_dict
from_dict_err d x e = rw e refl

from_dict_fault : (d : Fields) (f : Fault) → validate_dict d ≡ fault f → from_dict d ≡ fault f
unfolding from_dict
from_dict_fault d f e = rw e refl

-- Sending a message and reading it back gives the same message, if `validate` accepts it, and
-- otherwise the error that `validate` raises for it.
pub deserialize-serialize :
    (m : Message) → deserialize (some (serialize m)) ≡ (validate (message m) >> ok m)
unfolding deserialize serialize validate to_dict
deserialize-serialize m = elim (Result-cases (check_envelope (envelope_of m))) [
  | inl (u, e) ↦ rw e (from_dict-to_dict m e)
  | inr (inl (x, e)) ↦ rw e (from_dict_err (to_dict m) x (validate_dict-to_dict m ∙ e))
  | inr (inr (f, e)) ↦ rw e (from_dict_fault (to_dict m) f (validate_dict-to_dict m ∙ e))
]
