-- ===== src/Lifecycle/Backend.antt =====
-- lifecycle/backend.py: the commands that `SubprocessBackend` runs, and `MockBackend`.
use robotsix_agent_comm.Prelude.{
  String, ℕ, zero, suc, Bool, false, Option, none, some, List, [], ◌∷◌, ◌++◌, ◌≡◌, refl, ap,
  if◌then◌else◌, str_eq,
}
use robotsix_agent_comm.Prelude.Dict.{Dict, insert}
use robotsix_agent_comm.Protocol.Redaction.{occurs}

-- `_compose_cmd`, with the directory of the project
unfoldable pub compose_cmd : Option String → List String
compose_cmd none = "docker" ∷ "compose" ∷ []
compose_cmd (some project_dir) = "docker" ∷ "compose" ∷ "--project-directory" ∷ project_dir ∷ []

-- `SubprocessBackend.start`: the environment and the command of `subprocess.run`
unfoldable pub start_run :
    Option String → Dict String → String → Option String → Dict String × List String
unfolding compose_cmd
start_run dir environ service_name none =
    (environ, compose_cmd dir ++ "up" ∷ "-d" ∷ service_name ∷ [])
start_run dir environ service_name (some version) = (
  if str_eq version "" then environ else insert "SERVICE_VERSION" version environ,
  compose_cmd dir ++ "up" ∷ "-d" ∷ service_name ∷ [],
)

-- `SubprocessBackend.stop`
unfoldable pub stop_run : Option String → String → List String
unfolding compose_cmd
stop_run dir service_name = compose_cmd dir ++ "stop" ∷ service_name ∷ []

-- `SubprocessBackend.health`: its command, and what it makes of the output
unfoldable pub health_run : Option String → String → List String
unfolding compose_cmd
health_run dir service_name = compose_cmd dir ++ "ps" ∷ "--status" ∷ "running" ∷ service_name ∷ []

unfoldable pub is_healthy : String → String → Bool
unfolding occurs
is_healthy service_name stdout = occurs service_name stdout

-- `MockBackend`
pub record MockBackend : Type 0 where
  pub health_results : List Bool
  pub health_calls : ℕ
  pub start_calls : List (String × Option String)
  pub stop_calls : List String

unfoldable pub new_mock : List Bool → MockBackend
new_mock health_results = record {
  health_results = health_results;
  health_calls = 0;
  start_calls = [];
  stop_calls = [];
}

unfoldable pub start : String → Option String → MockBackend → MockBackend
start service_name version b = record b {
  start_calls = b.start_calls ++ (service_name, version) ∷ [];
}

unfoldable pub stop : String → MockBackend → MockBackend
stop service_name b = record b { stop_calls = b.stop_calls ++ service_name ∷ [] }

-- the result at a position, or the last one, of a list that starts with `b`
unfoldable pub result_at : Bool → List Bool → ℕ → Bool
result_at b [] n = b
result_at b (c ∷ cs) zero = b
result_at b (c ∷ cs) (suc n) = result_at c cs n

-- `MockBackend.health`
unfoldable pub health : MockBackend → Bool × MockBackend
unfolding result_at
health b = elim b.health_results [
  | [] ↦ (false, b)
  | r ∷ rs ↦ (result_at r rs b.health_calls, record b { health_calls = suc b.health_calls })
]

-- the results of a number of checks
unfoldable pub checks : ℕ → MockBackend → List Bool
unfolding health
checks zero b = []
checks (suc n) b = let (result, after) = health b in result ∷ checks n after

-- a list that repeats one result
abbrev repeated : Bool → ℕ → List Bool
repeated b zero = []
repeated b (suc n) = b ∷ repeated b n

-- The last result of the list is repeated for as long as it is asked for.
last_repeated :
    (n : ℕ) (r : Bool) (b : MockBackend) → b.health_results ≡ r ∷ [] → checks n b ≡ repeated r n
unfolding checks health result_at
last_repeated zero r b e = refl
last_repeated (suc n) r b e =
    let after = record b { health_results = r ∷ []; health_calls = suc b.health_calls } in
    rw (e) (ap (λ rs. r ∷ rs) (last_repeated n r after refl))
