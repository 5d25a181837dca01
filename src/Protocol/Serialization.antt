-- ===== src/Protocol/Serialization.antt =====
-- protocol/serialization.py over JSON values: `serialize` is `json.dumps` of `to_dict`, and
-- `deserialize` is `from_dict` of what `json.loads` returns.
pub mod RoundTrip
pub mod Faults
use robotsix_agent_comm.Prelude.{String, Option, none, some, ◌≡◌, refl, if◌then◌else◌, str_eq}
use robotsix_agent_comm.Protocol.Value.{
  Value, null, str, obj, arr, Items, nil, cons, Fields, end, field, at, at_or, put, fields_of,
  text_of,
}
use robotsix_agent_comm.Protocol.Errors.{
  Result, ok, err, fault, Fault, type_error, value_error, not_followed, ◌>>=◌, ◌>>◌, invalid_json,
  not_an_object, require,
}
use robotsix_agent_comm.Protocol.Messages.{
  MessageType, request, response, error, notification, Message, Metadata, message_type_of,
  type_name,
}
use robotsix_agent_comm.Protocol.Validation.{validate_dict, check_type, optional_text}

unfoldable pub to_dict : Message → Fields
unfolding type_name
to_dict m =
    let metadata : Fields = field "sender" m.metadata.sender (
      field "recipient" m.metadata.recipient (
        field "timestamp" (str m.metadata.timestamp) (field "extra" (obj m.metadata.extra) end))) in
    field "message_id" (str m.message_id) (
      field "type" (str (type_name m.kind)) (
        field "protocol_version" (str m.version) (
          field "metadata" (obj metadata) (
            field "body" (obj m.body)
              (field "correlation_id" (optional_text m.correlation_id) end)))))

-- An entry that `dict` takes from an element of a list, in front of the others. A key that is a list or
-- an object cannot be hashed. A dictionary with a key that is no text and can be hashed is none of the
-- model, and is not followed.
unfoldable pub entry_of : Value → Value → (Fields → Result Fields) → Fields → Result Fields
entry_of (str k) v next d = next (put k v d)
entry_of (arr ys) v next d = fault type_error
entry_of (obj ys) v next d = fault type_error
entry_of k v next d = fault not_followed

-- `dict(pairs)` of a list: an element that is a list of two gives a key and its value, a text of two
-- characters and an object of two keys give these.
unfoldable pub dict_of_pairs : Items → Fields → Result Fields
unfolding entry_of
dict_of_pairs nil d = ok d
dict_of_pairs (cons (arr (cons k (cons v nil))) xs) d = entry_of k v (dict_of_pairs xs) d
dict_of_pairs (cons (arr ys) xs) d = fault value_error
dict_of_pairs (cons (obj (field k x (field j y end))) xs) d = dict_of_pairs xs (put k (str j) d)
dict_of_pairs (cons (obj ys) xs) d = fault value_error
dict_of_pairs (cons (str (String.◌∷◌ a (String.◌∷◌ b String.[]))) xs) d =
    dict_of_pairs xs (put (String.◌∷◌ a String.[]) (str (String.◌∷◌ b String.[])) d)
dict_of_pairs (cons (str s) xs) d = fault value_error
dict_of_pairs (cons v xs) d = fault type_error

-- `dict(v)`
unfoldable pub dict_of : Value → Result Fields
unfolding dict_of_pairs
dict_of (obj d) = ok d
dict_of (arr xs) = dict_of_pairs xs end
dict_of (str s) = if str_eq s "" then ok end else fault value_error
dict_of _ = fault type_error

-- A text that `validate` has checked.
abbrev checked_text : Value → String
checked_text (str s) = s
checked_text _ = ""

-- `correlation_id` is passed on for the kinds whose constructor takes one
unfoldable pub correlation_of : MessageType → Value → Option String
correlation_of request v = none
correlation_of notification v = none
correlation_of _ v = text_of v

unfoldable pub from_dict : Fields → Result Message
unfolding dict_of check_type correlation_of
from_dict d = do
  validate_dict d
  message_type ← check_type (at "type" d)
  let raw_metadata = fields_of (at "metadata" d)
  extra ← dict_of (at_or "extra" (obj end) raw_metadata)
  ok (record {
    kind = message_type;
    metadata = record {
      sender = at "sender" raw_metadata;
      recipient = at "recipient" raw_metadata;
      timestamp = checked_text (at "timestamp" raw_metadata);
      extra = extra;
    };
    message_id = checked_text (at "message_id" d);
    version = checked_text (at "protocol_version" d);
    body = fields_of (at "body" d);
    correlation_id = correlation_of message_type (at "correlation_id" d);
  })

-- The text on the wire stands for the value that `json.loads` reads from it, `none` where it is no
-- JSON text; `json.dumps` of a value is a text that stands for that value.
abbrev pub Payload : Type 0
Payload = Option Value

unfoldable pub serialize : Message → Value
unfolding to_dict
serialize m = obj (to_dict m)

unfoldable pub deserialize : Payload → Result Message
unfolding from_dict
deserialize none = err invalid_json
deserialize (some (obj d)) = from_dict d
deserialize (some v) = err not_an_object
