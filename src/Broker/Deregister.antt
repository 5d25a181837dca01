-- ===== src/Broker/Deregister.antt =====
-- broker/server.py: `_handle_deregister`.
use robotsix_agent_comm.Prelude.{String, ℕ, not, ◌&&◌, str_eq, if◌then◌else◌}
use robotsix_agent_comm.Prelude.Dict
use robotsix_agent_comm.Prelude.Text.{concat, starts_with_text, text_drop}
use robotsix_agent_comm.Transport.Registry
use robotsix_agent_comm.Broker.State.{Server, log}
use robotsix_agent_comm.Broker.Http.{Request, World, Answer, response, empty, error_response}

-- `_parse_agent_id_from_path`
unfoldable pub agent_id_of_path : String → String
agent_id_of_path path = if starts_with_text "/agents/" path then text_drop 8 path else ""

-- The removal of an agent from every table, in `_handle_deregister` and in `_sweep_once`.
unfoldable pub forget : String → Server → Server
forget agent_id s = record s {
  registry = Registry.unregister_quietly agent_id s.registry;
  capabilities = Dict.remove agent_id s.capabilities;
  last_heartbeat = Dict.remove agent_id s.last_heartbeat;
  ttl_seconds = Dict.remove agent_id s.ttl_seconds;
  mailboxes = Dict.remove agent_id s.mailboxes;
}

unfoldable pub refuse_deregister : World → String → String → ℕ → String → Server → Answer × Server
refuse_deregister w agent_id path status detail s =
    (error_response status detail, log w.wall "deregister" agent_id path status detail s)

-- `_handle_deregister`
unfoldable pub handle_deregister : World → Request → String → Server → Answer × Server
unfolding refuse_deregister
handle_deregister w r authenticated s =
    let agent_id = agent_id_of_path r.url_path in
    if str_eq agent_id ""
    then refuse_deregister w "unknown" r.path 400 "missing agent_id in path" s
    else if not (str_eq authenticated "") && not (str_eq agent_id authenticated)
    then refuse_deregister w authenticated r.path 403 "agent_id does not match token" s
    else (
      response 204 empty,
      log w.wall "deregister" agent_id (concat "/agents/" agent_id) 204 "deregistered"
          (forget agent_id s),
    )
