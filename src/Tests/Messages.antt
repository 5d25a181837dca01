-- ===== src/Tests/Messages.antt =====
-- The theorems on protocol messages, at concrete messages.
use robotsix_agent_comm.Prelude.{◌≡◌, ◌↔◌, refl, none, some}
use robotsix_agent_comm.Protocol.Value.{obj, end, at, is_nonempty_text}
use robotsix_agent_comm.Protocol.Errors.{ok, ◌>>◌}
use robotsix_agent_comm.Protocol.Messages.{error_to, response_to, message_type_of}
use robotsix_agent_comm.Protocol.Validation.{validate, validate_dict, message}
use robotsix_agent_comm.Protocol.Validation.Accepts.{IsEnvelope, validate_dict_iff}
use robotsix_agent_comm.Protocol.Serialization.{serialize, deserialize}
use robotsix_agent_comm.Protocol.Serialization.RoundTrip.{deserialize-serialize}
use robotsix_agent_comm.Protocol.Replies.{IsStamp, HasReplySender, reply_valid_iff}
use robotsix_agent_comm.Tests.Data.{note, envelope_with, world}

deserialize-serialize_example :
    deserialize (some (serialize note)) ≡ (validate (message note) >> ok note)
deserialize-serialize_example = deserialize-serialize note

validate_dict_iff_example :
    (validate_dict (envelope_with (obj end)) ≡ ok tt) ↔ IsEnvelope (envelope_with (obj end))
validate_dict_iff_example = validate_dict_iff (envelope_with (obj end))

stamp-IsStamp : IsStamp world.stamp
stamp-IsStamp = record { now = λ e. cc; fresh_id = λ e. cc }

note_valid : validate (message note) ≡ ok tt
unfolding validate is_nonempty_text at message_type_of
note_valid = refl

reply_valid_iff_example :
    ((validate (message (error_to world.stamp note "code" "text" none)) ≡ ok tt)
      ↔ HasReplySender note none)
    × ((validate (message (response_to world.stamp note end none)) ≡ ok tt)
        ↔ HasReplySender note none)
reply_valid_iff_example =
    reply_valid_iff world.stamp stamp-IsStamp note note_valid none "code" "text" end
