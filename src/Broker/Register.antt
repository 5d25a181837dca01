-- ===== src/Broker/Register.antt =====
-- broker/server.py: `_read_body`, `_validate_register_payload` and `_handle_register`.
pub mod Validated
pub mod Histories
use robotsix_agent_comm.Prelude.{
  String, ℕ, ltb, Bool, true, false, not, ◌&&◌, ◌||◌, Option, none, some, List, [], str_eq,
  if◌then◌else◌, is_some,
}
use robotsix_agent_comm.Prelude.Int.{ℤ, pos, negsuc, leb_ℤ}
use robotsix_agent_comm.Prelude.Dict
use robotsix_agent_comm.Prelude.Text.{text_length, starts_with_text}
use robotsix_agent_comm.Protocol.Value.{
  Value, bool, int, str, obj, Fields, end, field, has, at, at_or, text_of, int_value,
  is_nonempty_text, is_mapping, fields_of, truthy,
}
use robotsix_agent_comm.Protocol.Serialization.{Payload}
use robotsix_agent_comm.Transport.Endpoints.{Endpoint, default_message_path}
use robotsix_agent_comm.Transport.Registry
use robotsix_agent_comm.Broker.State.{Server, log}
use robotsix_agent_comm.Broker.Http.{Request, World, Answer, response, json, error_response}

-- What `_reject` is called with.
pub record Rejection : Type 0 where
  pub status : ℕ
  pub detail : String
  pub agent_id : String

pub data Verdict (A : Type 0) : Type 0 where
  accept : A → Verdict A
  reject : Rejection → Verdict A

infixl 5 ◌>>=◌ ◌>>◌
abbrev pub ◌>>=◌ : {A B : Type 0} → Verdict A → (A → Verdict B) → Verdict B
accept a >>= f = f a
reject r >>= f = reject r

abbrev pub ◌>>◌ : {B : Type 0} → Verdict (Unit {0}) → Verdict B → Verdict B
m >> k = m >>= λ _. k

-- `if not b: self._reject(status, detail, agent_id); return None`
abbrev pub demand : Bool → ℕ → String → String → Verdict (Unit {0})
demand true status detail agent_id = accept tt
demand false status detail agent_id =
    reject (record { status = status; detail = detail; agent_id = agent_id })

-- The validated payload; `ttl` is `None` where the payload has no `ttl_seconds`.
pub record Registration : Type 0 where
  pub agent_id : String
  pub host : String
  pub port : ℤ
  pub scheme : String
  pub path : String
  pub caps : Fields
  pub ttl : Option ℤ
  pub mailbox_flag : Bool

unfoldable pub port_in_range : ℤ → Bool
port_in_range p = leb_ℤ (pos 1) p && leb_ℤ p (pos 65535)

-- `isinstance(port, int) and 1 <= port <= 65535`
unfoldable pub is_port : Value → Bool
unfolding port_in_range
is_port v = elim (int_value v) [ none ↦ false | some p ↦ port_in_range p ]

abbrev pub text_or_empty : Value → String
text_or_empty (str s) = s
text_or_empty _ = ""

abbrev pub int_or_zero : Value → ℤ
int_or_zero v = elim (int_value v) [ none ↦ pos 0 | some n ↦ n ]

-- the host and the port after the defaults for a mailbox agent
unfoldable pub host_of : Bool → Value → Value
host_of mailbox_flag host =
    if mailbox_flag && not (is_nonempty_text host) then str "mailbox" else host

unfoldable pub port_of : Bool → Value → Value
unfolding is_port
port_of mailbox_flag port = if mailbox_flag && not (is_port port) then int (pos 0) else port

-- the checks of an agent that the broker dials
unfoldable pub check_address : String → Value → Value → Verdict (Unit {0})
unfolding port_in_range
check_address agent_id host port = do
  demand (is_nonempty_text host) 400 "host is required and must be a non-empty string" agent_id
  demand (not (ltb 253 (text_length (text_or_empty host)))) 400
      "host must not exceed 253 characters" agent_id
  demand (is_some (int_value port)) 400 "port is required and must be an integer" agent_id
  demand (port_in_range (int_or_zero port)) 400 "port must be between 1 and 65535" agent_id

abbrev pub scheme_known : Value → Bool
scheme_known (str s) = str_eq s "http" || str_eq s "https"
scheme_known _ = false

abbrev pub path_rooted : Value → Bool
path_rooted (str s) = starts_with_text "/" s
path_rooted _ = false

abbrev pub ttl_valid : Value → Bool
ttl_valid v = elim (int_value v) [ none ↦ false | some n ↦ leb_ℤ (pos 0) n ]

-- `_validate_register_payload`; `is_new`, which it reads last, is read by the caller here
unfoldable pub validate_payload : Fields → String → Verdict Registration
unfolding host_of port_of check_address
validate_payload d authenticated = do
  let mailbox_flag = truthy (at_or "mailbox" (bool false) d)
  let host = host_of mailbox_flag (at "host" d)
  let port = port_of mailbox_flag (at "port" d)
  let agent_id = text_or_empty (at "agent_id" d)
  demand (is_nonempty_text (at "agent_id" d)) 400
      "agent_id is required and must be a non-empty string" "unknown"
  demand (not (ltb 255 (text_length agent_id))) 400 "agent_id must not exceed 255 characters"
      agent_id
  demand (str_eq authenticated "" || str_eq agent_id authenticated) 403
      "agent_id does not match token" authenticated
  if mailbox_flag then accept tt else check_address agent_id host port
  demand (not (has "scheme" d) || scheme_known (at "scheme" d)) 400
      "scheme must be 'http' or 'https'" agent_id
  demand (not (has "path" d) || path_rooted (at "path" d)) 400
      "path must be a string starting with '/'" agent_id
  demand (not (has "capabilities" d) || is_mapping (at "capabilities" d)) 400
      "capabilities must be a JSON object" agent_id
  demand (not (has "ttl_seconds" d) || ttl_valid (at "ttl_seconds" d)) 400
      "ttl_seconds must be a non-negative integer" agent_id
  accept (record {
    agent_id = agent_id;
    host = text_or_empty host;
    port = int_or_zero port;
    scheme = if has "scheme" d then text_or_empty (at "scheme" d) else "http";
    path = if has "path" d then text_or_empty (at "path" d) else default_message_path;
    caps = fields_of (at "capabilities" d);
    ttl = if has "ttl_seconds" d then int_value (at "ttl_seconds" d) else none;
    mailbox_flag = mailbox_flag;
  })

unfoldable pub endpoint_of : Registration → Endpoint
endpoint_of g = record {
  agent_id = g.agent_id;
  host = g.host;
  port = g.port;
  scheme = g.scheme;
  path = g.path;
  mailbox = g.mailbox_flag;
}

-- the TTL table after a registration: an update without a TTL keeps the old one
unfoldable pub ttl_after : Registration → Bool → Server → Dict.Dict ℤ
ttl_after g is_new s = elim g.ttl [
  | some t ↦ Dict.insert g.agent_id t s.ttl_seconds
  | none ↦
      if is_new then Dict.insert g.agent_id s.default_ttl_seconds s.ttl_seconds else s.ttl_seconds
]

-- the tables after a registration at the time `now`
unfoldable pub enroll : ℕ → Registration → Bool → Server → Server
unfolding endpoint_of ttl_after
enroll now g is_new s = record s {
  registry = Registry.register (endpoint_of g) s.registry;
  mailboxes = if g.mailbox_flag then Dict.set_default g.agent_id [] s.mailboxes else s.mailboxes;
  capabilities = Dict.insert g.agent_id g.caps s.capabilities;
  last_heartbeat = Dict.insert g.agent_id now s.last_heartbeat;
  ttl_seconds = ttl_after g is_new s;
}

abbrev pub too_large : ℕ → ℕ → Answer
too_large limit length = response 413 (
    json (
      obj (
        field "error" (str "request body too large")
          (field "max_bytes" (int (pos limit)) (field "received_bytes" (int (pos length)) end)))))

-- `_reject`
unfoldable pub reject_request : World → Rejection → Server → Answer × Server
reject_request w r s = (
  error_response r.status r.detail,
  log w.wall "register" r.agent_id "/agents" r.status r.detail s,
)

abbrev pub is_registered : String → Server → Bool
is_registered agent_id s = is_some (Registry.lookup agent_id s.registry)

-- the part of `_handle_register` after the validation
unfoldable pub accept_registration : World → Registration → Server → Answer × Server
accept_registration w g s =
    let is_new = not (is_registered g.agent_id s) in
    let status : ℕ = if is_new then 201 else 200 in
    (
      response status (json (obj (field "agent_id" (str g.agent_id) end))),
      log w.wall "register" g.agent_id "/agents" status (if is_new then "created" else "updated")
          (enroll w.now g is_new s),
    )

unfoldable pub judge : World → Verdict Registration → Server → Answer × Server
unfolding reject_request accept_registration
judge w (reject r) s = reject_request w r s
judge w (accept g) s = accept_registration w g s

abbrev pub unidentified : String → Rejection
unidentified detail = record { status = 400; detail = detail; agent_id = "unknown" }

unfoldable pub register_body : World → String → Payload → Server → Answer × Server
unfolding judge
register_body w authenticated none s = reject_request w (unidentified "invalid JSON body") s
register_body w authenticated (some (obj d)) s = judge w (validate_payload d authenticated) s
register_body w authenticated (some v) s =
    reject_request w (unidentified "body must be a JSON object") s

-- `_handle_register`
unfoldable pub handle_register : World → Request → String → Server → Answer × Server
unfolding register_body
handle_register w r authenticated s =
    if ltb s.max_body_size r.content_length
    then (too_large s.max_body_size r.content_length, s)
    else register_body w authenticated r.body s
