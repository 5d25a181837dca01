-- ===== src/Broker/Traffic.antt =====
-- broker/server.py: `_handle_traffic`.
pub mod Selected
use Prim.Native.Nat.{min}
use robotsix_agent_comm.Prelude.{
  String, ℕ, leb, ◌==◌, Bool, true, false, not, ◌&&◌, ◌||◌, Option, none, some, List, [], ◌∷◌,
  str_eq, if◌then◌else◌, keep_if, last_n, length,
}
use robotsix_agent_comm.Prelude.Int.{ℤ, pos, negsuc, leb_ℤ}
use robotsix_agent_comm.Prelude.Dict
use robotsix_agent_comm.Prelude.Text.{int_of, codes}
use robotsix_agent_comm.Protocol.Value.{
  Value, null, int, str, arr, obj, Items, nil, cons, end, field,
}
use robotsix_agent_comm.Protocol.Messages.{type_name}
use robotsix_agent_comm.Protocol.Validation.{optional_text}
use robotsix_agent_comm.Broker.State.{
  Server, TrafficRecord, Disposition, queued, rejected, routed, unknown_recipient,
}
use robotsix_agent_comm.Broker.Http.{Request, World, Answer, response, json, query_or}
use robotsix_agent_comm.Broker.Send.{is_text}

-- The filters of a request; a missing or empty name filters nothing, and neither does a bound that
-- is no number.
pub record Filters : Type 0 where
  pub agent : String
  pub topic : String
  pub since : Option ℤ
  pub until : Option ℤ
  pub limit : Option ℕ

-- `limit`: a positive number, at most the size of the buffer (or 1000 if that is 0)
unfoldable pub limit_of : ℕ → Option ℤ → Option ℕ
limit_of maxlen none = none
limit_of maxlen (some (negsuc n)) = none
limit_of maxlen (some (pos n)) =
    if n == 0 then none else some (min n (if maxlen == 0 then 1000 else maxlen))

unfoldable pub parse_filters : World → Request → Server → Filters
unfolding limit_of
parse_filters w r s = record {
  agent = query_or "agent" "" r;
  topic = query_or "topic" "" r;
  since = w.float_of (query_or "since" "" r);
  until = w.float_of (query_or "until" "" r);
  limit = limit_of s.traffic_maxlen (int_of (codes (query_or "limit" "" r)));
}

abbrev pub by_agent : String → TrafficRecord → Bool
by_agent a r = is_text r.source a || is_text r.destination a

abbrev pub by_topic : String → TrafficRecord → Bool
by_topic t r = is_text r.topic t

abbrev pub from_time : ℤ → TrafficRecord → Bool
from_time t r = leb_ℤ t (pos r.timestamp)

abbrev pub to_time : ℤ → TrafficRecord → Bool
to_time t r = leb_ℤ (pos r.timestamp) t

abbrev pub filter_text :
    String → (String → TrafficRecord → Bool) → List TrafficRecord → List TrafficRecord
filter_text t p rs = if str_eq t "" then rs else keep_if (p t) rs

abbrev pub filter_time :
    Option ℤ → (ℤ → TrafficRecord → Bool) → List TrafficRecord → List TrafficRecord
filter_time none p rs = rs
filter_time (some t) p rs = keep_if (p t) rs

abbrev pub cut : Option ℕ → List TrafficRecord → List TrafficRecord
cut none rs = rs
cut (some n) rs = last_n n rs

-- the records that `GET /traffic` returns
unfoldable pub select_traffic : Filters → List TrafficRecord → List TrafficRecord
select_traffic f records = cut f.limit (
    filter_time f.until to_time (
      filter_time f.since from_time
        (filter_text f.topic by_topic (filter_text f.agent by_agent records))))

-- the texts of `TrafficDisposition`
unfoldable pub disposition_name : Disposition → String
disposition_name queued = "queued"
disposition_name rejected = "rejected"
disposition_name routed = "routed"
disposition_name unknown_recipient = "unknown_recipient"

-- a record as a JSON object; a count of ticks stands for the `float` of seconds
unfoldable pub record_value : TrafficRecord → Value
unfolding disposition_name
record_value r = obj (
    field "timestamp" (int (pos r.timestamp)) (
      field "source" r.source (
        field "destination" r.destination (
          field "type" (str (type_name r.kind)) (
            field "topic" r.topic (
              field "message_id" (str r.message_id) (
                field "correlation_id" (optional_text r.correlation_id) (
                  field "body_size_bytes" (int (pos r.body_size_bytes)) (
                    field "disposition" (str (disposition_name r.disposition))
                      (field "status" (int (pos r.status)) end))))))))))

unfoldable pub record_items : List TrafficRecord → Items
unfolding record_value
record_items [] = nil
record_items (r ∷ rs) = cons (record_value r) (record_items rs)

-- `_handle_traffic`
unfoldable pub handle_traffic : World → Request → Server → Answer
unfolding parse_filters select_traffic record_items
handle_traffic w r s = response 200 (
    json (
      obj (
        field "traffic" (arr (record_items (select_traffic (parse_filters w r s) s.traffic_buffer)))
          end)))
