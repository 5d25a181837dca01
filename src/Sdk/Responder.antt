-- ===== src/Sdk/Responder.antt =====
-- sdk/responder.py: requests by kind, and the handler that serves each kind.
pub mod Replies
pub mod Outcomes
pub mod Kinds
use robotsix_agent_comm.Prelude.{
  String, Bool, true, false, not, Option, none, some, List, [], ◌∷◌, ◌++◌, map, if◌then◌else◌,
  str_eq, is_some, keep_if,
}
use robotsix_agent_comm.Prelude.Dict.{Dict, lookup, insert}
use robotsix_agent_comm.Prelude.Text.{concat}
use robotsix_agent_comm.Protocol.Value.{
  Value, str, obj, arr, Fields, Items, nil, cons, end, field, at, at_or, fields_of, text_of,
  is_nonempty_text,
}
use robotsix_agent_comm.Protocol.Messages.{Message, Stamp, response_to, error_to}

-- What a handler does with a request and its params: it returns the body of the response, which is a
-- JSON object, or raises an `Exception` with this text. A result that `dict` refuses, or that
-- `json.dumps` does, is not of the model: the first raises out of `_dispatch`, the second is never
-- posted.
pub data Handled : Type 0 where
  returned : Fields → Handled
  raised : String → Handled

abbrev pub Handler : Type 0
Handler = Message → Fields → Handled

-- `builtin` is `_BUILTIN_HANDLERS`, which a subclass may extend, and `method` is
-- `getattr(self, name, None)`.
pub record Responder : Type 0 where
  pub agent_id : String
  pub builtin : Dict String
  pub method : String → Option Handler
  pub extra : Dict Handler

abbrev pub builtin_handlers : Dict String
builtin_handlers =
    ("monitor", "handle_monitor")
    ∷ ("config-get", "handle_config_get")
    ∷ ("config-set", "handle_config_set")
    ∷ []

-- the methods that the base class has, each raising `NotImplementedError`
unfoldable pub base_method : String → Option Handler
base_method name =
    if str_eq name "handle_monitor"
    then some (λ m params. raised "handle_monitor not implemented")
    else if str_eq name "handle_config_get"
    then some (λ m params. raised "handle_config_get not implemented")
    else if str_eq name "handle_config_set"
    then some (λ m params. raised "handle_config_set not implemented")
    else none

-- `BrokeredResponder(agent_id, ...)` itself, with no subclass
abbrev pub base_responder : String → Responder
base_responder agent_id = record {
  agent_id = agent_id;
  builtin = builtin_handlers;
  method = base_method;
  extra = [];
}

-- `register_handler(kind, handler)`, by a call or as a decorator
unfoldable pub register_handler : String → Handler → Responder → Responder
register_handler kind handler r = record r { extra = insert kind handler r.extra }

abbrev then_method : (String → Option Handler) → Option String → Option Handler
then_method method none = none
then_method method (some name) = method name

abbrev or_builtin : Option Handler → Option Handler → Option Handler
or_builtin none h = h
or_builtin (some h) _ = some h

-- `_lookup_handler`
unfoldable pub lookup_handler : Responder → String → Option Handler
lookup_handler r kind =
    or_builtin (lookup kind r.extra) (then_method r.method (lookup kind r.builtin))

-- `body.get("params", {})`, or `{}` where that is no `dict`
unfoldable pub params_of : Fields → Fields
params_of body = fields_of (at_or "params" (obj end) body)

-- the kind of a request, a text that is not empty
abbrev pub kind_of : Fields → Option String
kind_of body = if is_nonempty_text (at "kind" body) then text_of (at "kind" body) else none

module _ (repr : String → String) (t : Stamp) where
  -- the response to what a handler did, where its result is a JSON object
  unfoldable pub reply_with : Responder → Message → Handled → Message
  reply_with r m (returned result) = response_to t m result (some r.agent_id)
  reply_with r m (raised text) = error_to t m "handler_error" text (some r.agent_id)

  unfoldable pub serve : Responder → Message → String → Option Handler → Message
  unfolding params_of reply_with
  serve r m kind none =
      error_to t m "unknown_kind" (concat "unknown request kind: " (repr kind)) (some r.agent_id)
  serve r m kind (some handler) = reply_with r m (handler m (params_of m.body))

  unfoldable pub serve_kind : Responder → Message → Option String → Message
  unfolding lookup_handler serve
  serve_kind r m none =
      error_to t m "invalid_request" "missing or invalid 'kind' in request body" (some r.agent_id)
  serve_kind r m (some kind) = serve r m kind (lookup_handler r kind)

  -- `_dispatch`; a body is a `dict` by construction, so that its first test passes
  unfoldable pub dispatch : Responder → Message → Message
  unfolding serve_kind
  dispatch r m = serve_kind r m (kind_of m.body)
