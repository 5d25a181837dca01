-- ===== src/Brokered/Directory.antt =====
-- transport/brokered.py: `BrokeredRegistry`, the registry as a client of the broker sees it.
pub mod Listings
pub mod Enrolment
use robotsix_agent_comm.Prelude.{
  String, ℕ, Bool, true, false, Option, none, some, List, [], ◌∷◌, ◌==◌, if◌then◌else◌, str_eq,
}
use robotsix_agent_comm.Prelude.Int.{ℤ}
use robotsix_agent_comm.Protocol.Value.{
  Value, str, arr, obj, bool, int, Fields, end, field, Items, nil, cons, at, at_or, fields_of,
}
use robotsix_agent_comm.Protocol.Errors.{Fault, type_error}
use robotsix_agent_comm.Transport.Endpoints.{
  Endpoint, TransportError, agent_not_found, http_status, default_message_path,
}
use robotsix_agent_comm.Broker.Http.{Answer, response, crash, empty, json, dashboard_html}

-- The body of an answer as `_request` returns it: `None`, a JSON value, or a text that is no JSON.
pub data Parsed : Type 0 where
  nothing : Parsed
  parsed : Value → Parsed
  raw : Parsed

-- `AgentInfo` of transport/endpoints.py
pub record AgentInfo : Type 0 where
  pub agent_id : String
  pub capabilities : Fields

abbrev list_of : Value → Items
list_of (arr xs) = xs
list_of _ = nil

-- `AgentInfo.supported_kinds`
unfoldable pub supported_kinds : AgentInfo → Items
supported_kinds a = list_of (at_or "supported_kinds" (arr nil) a.capabilities)

-- What a method returns, or what it raises.
pub data Listed {ℓ} (A : Type ℓ) : Type ℓ where
  listed : A → Listed A
  failed : TransportError → Listed A
  crashed : Fault → Listed A

-- the elements that `for entry in agents` runs over; those of a text and the keys of an object are
-- no `dict`, so that the loops skip them
unfoldable pub elements : Value → Option Items
elements (arr xs) = some xs
elements (str s) = some nil
elements (obj d) = some nil
elements _ = none

-- the JSON list in the answer
unfoldable pub agents_of : Parsed → Option Items
unfolding elements
agents_of (parsed (obj d)) = elements (at_or "agents" (arr nil) d)
agents_of _ = some nil

-- `Endpoint(agent_id=agent_id, host="broker", port=self._broker_port)`
abbrev pub placeholder : ℤ → String → Endpoint
placeholder port agent_id = record {
  agent_id = agent_id;
  host = "broker";
  port = port;
  scheme = "http";
  path = default_message_path;
  mailbox = false;
}

-- `isinstance(entry, dict) and entry.get("agent_id") == agent_id`
unfoldable pub is_entry_of : String → Value → Bool
is_entry_of agent_id (obj d) = elim (at "agent_id" d) [ str s ↦ str_eq s agent_id | _ ↦ false ]
is_entry_of agent_id _ = false

unfoldable pub find_entry : String → Items → Bool
unfolding is_entry_of
find_entry agent_id nil = false
find_entry agent_id (cons v vs) =
    let rest = find_entry agent_id vs in if is_entry_of agent_id v then true else rest

abbrev iterated {ℓ} : {A : Type ℓ} → (Items → Listed A) → Option Items → Listed A
iterated f none = crashed type_error
iterated f (some xs) = f xs

module _ (port : ℤ) where
  -- `lookup`, from the status and the body of the answer
  unfoldable pub lookup : String → ℕ → Parsed → Listed Endpoint
  unfolding agents_of find_entry
  lookup agent_id status body =
      if status == 200
      then iterated
          (λ xs.
            if find_entry agent_id xs
            then listed (placeholder port agent_id)
            else failed agent_not_found)
          (agents_of body)
      else failed (http_status status)

-- `show` is `str(value)` of a value that is no text.
module _ (show : Value → String) where
  unfoldable pub text_of : Value → String
  text_of (str s) = s
  text_of v = show v

  -- the ids of the entries, `str(entry.get("agent_id", ""))`, with their capabilities
  unfoldable pub infos : Items → List AgentInfo
  unfolding text_of
  infos nil = []
  infos (cons (obj d) vs) =
      record {
        agent_id = text_of (at_or "agent_id" (str "") d);
        capabilities = fields_of (at_or "capabilities" (obj end) d);
      }
      ∷ infos vs
  infos (cons v vs) = infos vs

  -- `discover_agents`
  unfoldable pub discover_agents : ℕ → Parsed → Listed (List AgentInfo)
  unfolding agents_of infos
  discover_agents status body =
      if status == 200
      then iterated (λ xs. listed (infos xs)) (agents_of body)
      else failed (http_status status)

  unfoldable pub placeholders : ℤ → Items → List Endpoint
  unfolding text_of
  placeholders port nil = []
  placeholders port (cons (obj d) vs) =
      placeholder port (text_of (at_or "agent_id" (str "") d)) ∷ placeholders port vs
  placeholders port (cons v vs) = placeholders port vs

  -- `list_agents`
  unfoldable pub list_agents : ℤ → ℕ → Parsed → Listed (List Endpoint)
  unfolding agents_of placeholders
  list_agents port status body =
      if status == 200
      then iterated (λ xs. listed (placeholders port xs)) (agents_of body)
      else failed (http_status status)

-- the body of `register`
unfoldable pub registration_body : Endpoint → Fields → Fields
registration_body e capabilities = field "agent_id" (str e.agent_id) (
    field "host" (str e.host) (
      field "port" (int e.port) (
        field "scheme" (str e.scheme) (
          field "path" (str e.path)
            (field "capabilities" (obj capabilities) (field "mailbox" (bool e.mailbox) end))))))

-- what the body of an answer of the broker becomes
abbrev pub parsed_of : Answer → Parsed
parsed_of (response status (json v)) = parsed v
parsed_of (response status dashboard_html) = raw
parsed_of _ = nothing
