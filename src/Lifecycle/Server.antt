-- ===== src/Lifecycle/Server.antt =====
-- lifecycle/server.py: the kinds that the lifecycle server serves.
use robotsix_agent_comm.Prelude.{String, Bool, Option, none, some, [], ◌∷◌, if◌then◌else◌, str_eq}
use robotsix_agent_comm.Protocol.Value.{str, bool, Fields, field, end, at_or}
use robotsix_agent_comm.Sdk.Responder.{
  Handled, returned, raised, Handler, Responder, base_method, register_handler,
}

-- A `LifecycleTracing`. `span` is what Langfuse's client makes of a trace of the given name with one
-- event of the given name and metadata: `none` if its calls return, or the text of the exception that
-- leaves the `with` block.
pub record Tracing : Type 0 where
  pub enabled : Bool
  pub span : String → String → Fields → Option String

unfoldable pub after_span : Option String → Fields → Handled
after_span none result = returned result
after_span (some text) result = raised text

-- `if self.tracing.enabled: with self.tracing.trace(name) as span: span.event(event, ...); return result`,
-- and `return result`
unfoldable pub traced_result : Tracing → String → String → Fields → Fields → Handled
unfolding after_span
traced_result tracing name event metadata result =
    if tracing.enabled
    then after_span (tracing.span name event metadata) result
    else returned result

-- the dictionary of `_build_status_result`
abbrev pub status_result : String → Bool → Fields
status_result agent_id tracing_enabled =
    field "status" (str "ok")
      (field "agent_id" (str agent_id) (field "tracing_enabled" (bool tracing_enabled) end))

-- `_build_status_result`
unfoldable pub build_status_result : String → Tracing → String → String → Handled
unfolding traced_result
build_status_result agent_id tracing check_name span_name =
    traced_result tracing check_name span_name end (status_result agent_id tracing.enabled)

-- `handle_monitor`
unfoldable pub handle_monitor : String → Tracing → Handler
unfolding build_status_result
handle_monitor agent_id tracing m params =
    build_status_result agent_id tracing "monitor" "monitor-check"

-- `handle_status`
unfoldable pub handle_status : String → Tracing → Handler
unfolding build_status_result
handle_status agent_id tracing m params =
    build_status_result agent_id tracing "status" "status-check"

unfoldable pub handle_lifecycle : Tracing → Handler
unfolding traced_result
handle_lifecycle tracing m params =
    let command = at_or "command" (str "unknown") params in
    let service = at_or "service" (str "unknown") params in
    let told : Fields = field "command" command (field "service" service end) in
    traced_result tracing "lifecycle" "lifecycle-command" told
      (field "result" (str "acknowledged") told)

-- the methods of the class, which overrides `handle_monitor`
unfoldable pub lifecycle_method : String → Tracing → String → Option Handler
unfolding handle_monitor
lifecycle_method agent_id tracing name =
    if str_eq name "handle_monitor"
    then some (handle_monitor agent_id tracing)
    else base_method name

-- `LifecycleServer(config, tracing)`
unfoldable pub lifecycle_server : String → Tracing → Responder
unfolding register_handler handle_status handle_lifecycle lifecycle_method
lifecycle_server agent_id tracing = register_handler "lifecycle" (handle_lifecycle tracing) (
    register_handler "status" (handle_status agent_id tracing) (record {
      agent_id = agent_id;
      builtin = ("monitor", "handle_monitor") ∷ [];
      method = lifecycle_method agent_id tracing;
      extra = [];
    }))
