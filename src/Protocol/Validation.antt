-- ===== src/Protocol/Validation.antt =====
-- protocol/validation.py: the checks on an envelope, in the order of the code.
pub mod Accepts
use robotsix_agent_comm.Prelude.{
  String, Bool, true, false, Option, none, some, List, [], ◌∷◌, not, ◌&&◌, if◌then◌else◌, keep_if,
  ◌≡◌, refl, str_eq,
}
use robotsix_agent_comm.Prelude.Int.{ℤ, pos, negsuc, leb_ℤ}
use robotsix_agent_comm.Prelude.Text.{codes, before_dot, int_of}
use robotsix_agent_comm.Protocol.Value.{
  Value, null, str, obj, Fields, end, field, has, at, text_of, is_nonempty_text, is_mapping,
  fields_of,
}
use robotsix_agent_comm.Protocol.Errors.{
  ProtocolError, Result, ok, err, ◌>>=◌, ◌>>◌, require, missing_fields, cannot_validate,
  bad_message_id, unknown_type, version_not_text, invalid_version, unsupported_version,
  metadata_not_mapping, bad_sender, bad_timestamp, body_not_mapping, bad_correlation_id,
  response_uncorrelated, request_correlated, notification_correlated,
}
use robotsix_agent_comm.Protocol.Messages.{
  MessageType, request, response, error, notification, Message, message_type_of, type_name,
  protocol_version,
}

abbrev pub required_envelope_fields : List String
required_envelope_fields = "message_id" ∷ "type" ∷ "protocol_version" ∷ "metadata" ∷ "body" ∷ []

-- `_major`
unfoldable pub major : String → Option ℤ
unfolding codes before_dot int_of
major version = int_of (before_dot (codes version))

eq_ℤ : ℤ → ℤ → Bool
eq_ℤ a b = leb_ℤ a b && leb_ℤ b a

-- what is wrong with a `protocol_version`, if anything
unfoldable pub check_version : Value → Result (Unit {0})
unfolding major eq_ℤ
check_version (str v) = elim (major v) [
  | none ↦ err (invalid_version v)
  | some n ↦ require (eq_ℤ n (pos 1)) (unsupported_version v)
]
check_version _ = err version_not_text

-- the rule of each kind on `correlation_id`
unfoldable pub check_correlation : MessageType → Value → Result (Unit {0})
check_correlation response null = err response_uncorrelated
check_correlation _ null = ok tt
check_correlation request (str c) = err request_correlated
check_correlation notification (str c) = err notification_correlated
check_correlation _ (str c) = ok tt
check_correlation _ _ = err bad_correlation_id

unfoldable pub check_type : Value → Result MessageType
check_type v = elim (message_type_of v) [ none ↦ err (unknown_type v) | some t ↦ ok t ]

unfoldable pub check_metadata : Value → Result (Unit {0})
check_metadata (obj metadata) = do
  require (is_nonempty_text (at "sender" metadata)) bad_sender
  require (is_nonempty_text (at "timestamp" metadata)) bad_timestamp
check_metadata _ = err metadata_not_mapping

-- `validate` from `message_id = data["message_id"]` on
unfoldable pub check_envelope : Fields → Result (Unit {0})
unfolding check_type check_version check_metadata check_correlation
check_envelope d = do
  require (is_nonempty_text (at "message_id" d)) bad_message_id
  message_type ← check_type (at "type" d)
  check_version (at "protocol_version" d)
  check_metadata (at "metadata" d)
  require (is_mapping (at "body" d)) body_not_mapping
  check_correlation message_type (at "correlation_id" d)

-- the keys of a list that an envelope lacks
unfoldable pub missing_of : Fields → List String → List String
missing_of d names = keep_if (λ k. not (has k d)) names

-- `None` or a text as a value
abbrev pub optional_text : Option String → Value
optional_text none = null
optional_text (some s) = str s

-- the `dict` that `validate` builds of a `Message`, which `to_dict` builds too
unfoldable pub envelope_of : Message → Fields
unfolding type_name
envelope_of m = field "message_id" (str m.message_id) (
    field "type" (str (type_name m.kind)) (
      field "protocol_version" (str m.version) (
        field "metadata"
          (obj (
            field "sender" m.metadata.sender (
              field "recipient" m.metadata.recipient (
                field "timestamp" (str m.metadata.timestamp)
                  (field "extra" (obj m.metadata.extra) end)))))
          (field "body" (obj m.body)
            (field "correlation_id" (optional_text m.correlation_id) end)))))

-- `validate(data)` of a `dict`
unfoldable pub validate_dict : Fields → Result (Unit {0})
unfolding check_envelope missing_of
validate_dict d = elim (missing_of d required_envelope_fields) [
  | [] ↦ check_envelope d
  | k ∷ ks ↦ err (missing_fields (k ∷ ks))
]

-- the three kinds of argument of `validate`
pub data Subject : Type 0 where
  message : Message → Subject
  dict : Fields → Subject
  other : Subject

unfoldable pub validate : Subject → Result (Unit {0})
unfolding validate_dict envelope_of
validate (message m) = check_envelope (envelope_of m)
validate (dict d) = validate_dict d
validate other = err cannot_validate

pub major_of_protocol_version : major protocol_version ≡ some (pos 1)
unfolding major
major_of_protocol_version = refl
