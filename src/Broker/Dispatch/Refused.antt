-- ===== src/Broker/Dispatch/Refused.antt =====
-- broker/server.py: requests that show no token of an agent.
use robotsix_agent_comm.Prelude.{
  String, Bool, some, false, true, List, [], ◌≡◌, ◌≢◌, inl, inr, refl, str_eq, ◌&&◌, Option-cases,
  not, if◌then◌else◌,
}
use robotsix_agent_comm.Prelude.Dict
use robotsix_agent_comm.Prelude.Dict.{Dict}
use robotsix_agent_comm.Prelude.Text.{starts_with_text, text_drop}
use robotsix_agent_comm.Transport.Endpoints.{health_path}
use robotsix_agent_comm.Broker.State.{Server, invert_tokens}
use robotsix_agent_comm.Broker.Http.{Request, World, error_response, query_or}
use robotsix_agent_comm.Broker.Auth.{
  Stage, proceed, authenticate, authenticate_header, authenticate_query, known_agent, admit,
  admit_stage,
}
use robotsix_agent_comm.Broker.Auth
use robotsix_agent_comm.Broker.Auth.Principals.{Shows, authenticate_owner}
use robotsix_agent_comm.Broker.Poll
use robotsix_agent_comm.Broker.Poll.{Wake, Polled}
use robotsix_agent_comm.Broker.Dispatch.{handle_request, allows_query_token, is_get}

-- an agent passes, or the request is answered with 401
data Decided (x : Stage) : Type 0 where
  passes : (p : String) → x ≡ proceed p → Decided x
  refused : (detail : String) → x ≡ Auth.answered (error_response 401 detail) → Decided x

known_agent-Decided :
    (s : Server) (token detail : String)
    → Decided (
        known_agent
          (Dict.lookup token s.token_to_agent)
          (Auth.answered (error_response 401 detail)))
known_agent-Decided s token detail = elim (Option-cases (Dict.lookup token s.token_to_agent)) [
  | inl e ↦ rw (e) (refused detail refl)
  | inr (p, e) ↦ rw (e) (passes p refl)
]

Decided-if : (b : Bool) (x y : Stage) → Decided x → Decided y → Decided (if b then x else y)
Decided-if true x y h k = h
Decided-if false x y h k = k

authenticate-Decided :
    (s : Server) (b : Bool) (r : Request) (tokens : Dict String)
    → s.agent_tokens ≡ some tokens
    → Decided (authenticate s b r)
unfolding authenticate authenticate_header authenticate_query
authenticate-Decided s b r tokens on = rw (on) (
    Decided-if (str_eq r.authorization "") _ _
      (Decided-if (b && not (str_eq (query_or "token" "" r) "")) _ _
        (known_agent-Decided s (query_or "token" "" r) "missing or invalid Authorization header")
        (refused _ refl))
      (Decided-if (starts_with_text "Bearer " r.authorization) _ _
        (known_agent-Decided s (text_drop 7 r.authorization) "invalid token") (refused _ refl)))

-- On a server with authentication that keeps the token table of its constructor, with each agent
-- configured once, a request that shows no token which is configured for an agent, and is no health
-- probe, is answered with 401, whatever it asks for, and changes nothing on the server.
pub handle_request_unauthenticated :
    (w : World) (r : Request) (wakes : List Wake) (s : Server) (tokens : Dict String)
    → s.agent_tokens ≡ some tokens
    → s.token_to_agent ≡ invert_tokens tokens []
    → Dict.IsDict tokens
    → (is_get r.method && str_eq r.path health_path) ≡ false
    → ((a token : String)
        → Shows r (allows_query_token r) token
        → Dict.lookup a tokens ≢ some token)
    → (detail : String) × (handle_request w r wakes s ≡ Poll.answered (error_response 401 detail) s)
unfolding handle_request admit admit_stage
handle_request_unauthenticated w r wakes s tokens on table distinct probe strange =
    elim (authenticate-Decided s (allows_query_token r) r tokens on) [
      | passes p e ↦
          let (token, shown, own) =
            authenticate_owner s r (allows_query_token r) tokens p on table distinct e in
          absurd (strange p token shown own)
      | refused detail e ↦ (detail, rw (probe, e) refl)
    ]
