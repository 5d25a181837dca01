-- ===== src/Broker/Auth.antt =====
-- broker/server.py: `_authenticate`, `_check_rate_limit` and `_authenticated_and_rate_limited`.
pub mod Principals
use robotsix_agent_comm.Prelude.{
  String, ℕ, ◌==◌, Bool, true, false, not, ◌&&◌, Option, none, some, str_eq, if◌then◌else◌,
}
use robotsix_agent_comm.Prelude.Dict
use robotsix_agent_comm.Prelude.Text.{starts_with_text, text_drop}
use robotsix_agent_comm.Protocol.Value.{float, str, obj, end, field}
use robotsix_agent_comm.Broker.RateLimit.{TokenBucket, new_bucket, consume}
use robotsix_agent_comm.Broker.State.{Server}
use robotsix_agent_comm.Broker.Http.{
  Request, World, Answer, response, json, error_response, query_or,
}

-- A stage either goes on with the agent's id or has written the answer.
pub data Stage : Type 0 where
  proceed : String → Stage
  answered : Answer → Stage

abbrev missing_header : Stage
missing_header = answered (error_response 401 "missing or invalid Authorization header")

abbrev pub known_agent : Option String → Stage → Stage
known_agent none otherwise = otherwise
known_agent (some agent_id) otherwise = proceed agent_id

-- the branch on a header that is there
unfoldable pub authenticate_header : Server → String → Stage
authenticate_header s header =
    if starts_with_text "Bearer " header
    then known_agent (Dict.lookup (text_drop 7 header) s.token_to_agent)
        (answered (error_response 401 "invalid token"))
    else missing_header

-- the fallback to `?token=`
unfoldable pub authenticate_query : Server → Bool → Request → Stage
authenticate_query s allow_query_token r =
    let token = query_or "token" "" r in
    if allow_query_token && not (str_eq token "")
    then known_agent (Dict.lookup token s.token_to_agent) missing_header
    else missing_header

-- `_authenticate`: the empty id where authentication is off
unfoldable pub authenticate : Server → Bool → Request → Stage
unfolding authenticate_header authenticate_query
authenticate s allow_query_token r = elim s.agent_tokens [
  | none ↦ proceed ""
  | some tokens ↦
      if str_eq r.authorization ""
      then authenticate_query s allow_query_token r
      else authenticate_header s r.authorization
]

abbrev pub rate_limited : Answer
rate_limited =
    response 429 (
      json
        (obj (field "error" (str "rate limit exceeded") (field "retry_after" (float "1.0") end))))

-- the bucket of a key, a new one if there is none
unfoldable pub bucket_of : ℕ → String → Server → TokenBucket
bucket_of now key s = elim (Dict.lookup key s.rate_buckets) [
  | none ↦ new_bucket s.rate_limit_per_second now
  | some b ↦ b
]

-- `_check_rate_limit`: whether the request may go on, and the server with the bucket after it
unfoldable pub check_rate_limit : ℕ → String → Server → Bool × Server
unfolding bucket_of
check_rate_limit now key s =
    if s.rate_limit_per_second == 0
    then (true, s)
    else (let (allowed, b) = consume now (bucket_of now key s) in
        (allowed, record s { rate_buckets = Dict.insert key b s.rate_buckets }))

abbrev pub rate_key : String → String
rate_key agent_id = if str_eq agent_id "" then "__anonymous__" else agent_id

unfoldable pub limit_stage : String → Bool × Server → Stage × Server
limit_stage agent_id (true, s) = (proceed agent_id, s)
limit_stage agent_id (false, s) = (answered rate_limited, s)

unfoldable pub admit_stage : World → Stage → Server → Stage × Server
unfolding limit_stage
admit_stage w (proceed agent_id) s =
    limit_stage agent_id (check_rate_limit w.now (rate_key agent_id) s)
admit_stage w (answered a) s = (answered a, s)

-- `_authenticated_and_rate_limited`
unfoldable pub admit : World → Bool → Request → Server → Stage × Server
unfolding admit_stage
admit w allow_query_token r s = admit_stage w (authenticate s allow_query_token r) s
