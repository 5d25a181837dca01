-- ===== src/Broker/Threads/Enrolment.antt =====
-- broker/server.py: `_handle_register` and `_handle_deregister` as threads.
use robotsix_agent_comm.Prelude.{
  String, ℕ, ltb, Bool, not, ◌&&◌, none, some, List, [], ◌∷◌, ◌++◌, str_eq, if◌then◌else◌,
}
use robotsix_agent_comm.Prelude.Text.{concat}
use robotsix_agent_comm.Protocol.Value.{str, obj, end, field}
use robotsix_agent_comm.Protocol.Serialization.{Payload}
use robotsix_agent_comm.Broker.Http.{Request, World, response, empty, json, error_response}
use robotsix_agent_comm.Broker.Register.{
  Verdict, accept, reject, Rejection, Registration, validate_payload, endpoint_of, too_large,
  is_registered, unidentified,
}
use robotsix_agent_comm.Broker.Deregister.{agent_id_of_path}
use robotsix_agent_comm.Broker.Threads.{
  Act, observe, register_endpoint, unregister_endpoint, open_mailbox, close_mailbox,
  set_capabilities, drop_capabilities, start_heartbeat, drop_heartbeat, write_log, Thread,
  under_lock, then_do, return,
}

-- the removal of an agent, in `_handle_deregister` and in `_sweep_once`
abbrev pub forget_acts : String → List Act
forget_acts a =
    unregister_endpoint a ∷ drop_capabilities a ∷ drop_heartbeat a ∷ close_mailbox a ∷ []

-- `_handle_deregister`
unfoldable pub deregister_thread : World → Request → String → Thread
unfolding then_do
deregister_thread w r authenticated =
    let agent_id = agent_id_of_path r.url_path in
    if str_eq agent_id ""
    then then_do
        (write_log w.wall "deregister" "unknown" r.path 400 "missing agent_id in path" ∷ [])
        (return (error_response 400 "missing agent_id in path"))
    else if not (str_eq authenticated "") && not (str_eq agent_id authenticated)
    then then_do
        (write_log w.wall "deregister" authenticated r.path 403 "agent_id does not match token"
          ∷ [])
        (return (error_response 403 "agent_id does not match token"))
    else then_do
        (forget_acts agent_id
          ++ write_log w.wall "deregister" agent_id (concat "/agents/" agent_id) 204 "deregistered"
            ∷ [])
        (return (response 204 empty))

-- `_reject`
abbrev pub reject_thread : World → Rejection → Thread
reject_thread w x =
    then_do (write_log w.wall "register" x.agent_id "/agents" x.status x.detail ∷ [])
      (return (error_response x.status x.detail))

abbrev pub mailbox_acts : Registration → List Act
mailbox_acts g = if g.mailbox_flag then open_mailbox g.agent_id ∷ [] else []

-- the tables after a registration, in `_handle_register`
abbrev pub enroll_acts : ℕ → Registration → Bool → List Act
enroll_acts now g is_new =
    register_endpoint (endpoint_of g) ∷ mailbox_acts g
    ++ set_capabilities g.agent_id g.caps ∷ start_heartbeat now g is_new ∷ []

-- `is_new` is read before the first table changes.
unfoldable pub accept_thread : World → Registration → Thread
unfolding then_do
accept_thread w g = under_lock observe (λ s.
    let is_new = not (is_registered g.agent_id s) in
    let status : ℕ = if is_new then 201 else 200 in
    then_do
      (enroll_acts w.now g is_new
        ++ write_log w.wall "register" g.agent_id "/agents" status
            (if is_new then "created" else "updated")
          ∷ [])
      (return (response status (json (obj (field "agent_id" (str g.agent_id) end))))))

abbrev pub judge_thread : World → Verdict Registration → Thread
judge_thread w (reject x) = reject_thread w x
judge_thread w (accept g) = accept_thread w g

abbrev pub register_body_thread : World → String → Payload → Thread
register_body_thread w authenticated none = reject_thread w (unidentified "invalid JSON body")
register_body_thread w authenticated (some (obj d)) =
    judge_thread w (validate_payload d authenticated)
register_body_thread w authenticated (some v) =
    reject_thread w (unidentified "body must be a JSON object")

-- `_handle_register`
unfoldable pub register_thread : World → Request → String → Thread
unfolding then_do accept_thread
register_thread w r authenticated = under_lock observe (λ s.
    if ltb s.max_body_size r.content_length
    then return (too_large s.max_body_size r.content_length)
    else register_body_thread w authenticated r.body)
