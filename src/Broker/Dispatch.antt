-- ===== src/Broker/Dispatch.antt =====
-- broker/server.py: `do_GET`, `do_POST` and `do_DELETE`.
pub mod Refused
pub mod Isolation
use robotsix_agent_comm.Prelude.{String, Bool, true, false, ◌&&◌, ◌||◌, List, str_eq, if◌then◌else◌}
use robotsix_agent_comm.Prelude.Text.{starts_with_text}
use robotsix_agent_comm.Protocol.Value.{Value, str, arr, obj, Items, end, field}
use robotsix_agent_comm.Transport.Endpoints.{default_message_path, health_path}
use robotsix_agent_comm.Broker.State.{Server, TrafficRecord}
use robotsix_agent_comm.Broker.Http.{
  Method, get, post, delete, Request, World, Answer, response, json, dashboard_html, error_response,
}
use robotsix_agent_comm.Broker.Auth
use robotsix_agent_comm.Broker.Auth.{Stage, admit}
use robotsix_agent_comm.Broker.Register.{handle_register}
use robotsix_agent_comm.Broker.Deregister.{handle_deregister}
use robotsix_agent_comm.Broker.Send.{handle_send}
use robotsix_agent_comm.Broker.Poll.{Wake, Polled, answered, polled, handle_poll}
use robotsix_agent_comm.Broker.Agents.{handle_agents}
use robotsix_agent_comm.Broker.Traffic.{handle_traffic}

abbrev pub not_found : Answer
not_found = error_response 404 "not found"

abbrev pub reads_dashboard : String → Bool
reads_dashboard path =
    str_eq path "/dashboard" || str_eq path "/" || str_eq path "/agents" || str_eq path "/traffic"

-- `do_GET` after the authentication
unfoldable pub route_get : World → Request → String → List Wake → Server → Polled
route_get w r agent_id wakes s =
    if str_eq r.url_path "/agents"
    then polled (handle_agents w s)
    else if str_eq r.url_path "/traffic"
    then answered (handle_traffic w r s) s
    else if str_eq r.url_path default_message_path
    then handle_poll w r agent_id wakes s
    else if s.dashboard_enabled && (str_eq r.url_path "/dashboard" || str_eq r.url_path "/")
    then answered (response 200 dashboard_html) s
    else answered not_found s

-- `do_POST` after the authentication
unfoldable pub route_post : World → Request → String → Server → Polled
route_post w r agent_id s =
    if str_eq r.path "/agents"
    then polled (handle_register w r agent_id s)
    else if str_eq r.path default_message_path
    then polled (handle_send w r agent_id s)
    else answered not_found s

-- `do_DELETE` after the authentication
unfoldable pub route_delete : World → Request → String → Server → Polled
route_delete w r agent_id s =
    if starts_with_text "/agents/" r.path
    then polled (handle_deregister w r agent_id s)
    else answered not_found s

-- the dispatcher of a method
unfoldable pub route_method : Method → World → Request → String → List Wake → Server → Polled
unfolding route_get route_post route_delete
route_method get w r agent_id wakes s = route_get w r agent_id wakes s
route_method post w r agent_id wakes s = route_post w r agent_id s
route_method delete w r agent_id wakes s = route_delete w r agent_id s

abbrev pub go_on : World → Request → List Wake → Stage × Server → Polled
go_on w r wakes (Stage.answered a, s) = answered a s
go_on w r wakes (Stage.proceed agent_id, s) = route_method r.method w r agent_id wakes s

abbrev pub is_get : Method → Bool
is_get get = true
is_get _ = false

-- whether the request may carry its token in the query
abbrev pub allows_query_token : Request → Bool
allows_query_token r = is_get r.method && reads_dashboard r.url_path

-- The three dispatchers: a health probe needs no token, any other request passes `admit` first.
unfoldable pub handle_request : World → Request → List Wake → Server → Polled
handle_request w r wakes s =
    if is_get r.method && str_eq r.path health_path
    then answered (response 200 (json (obj (field "status" (str "ok") end)))) s
    else go_on w r wakes (admit w (allows_query_token r) r s)
