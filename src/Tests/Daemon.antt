-- ===== src/Tests/Daemon.antt =====
-- The theorems on the broker, at the broker of Tests/Data.antt.
use robotsix_agent_comm.Prelude.{
  String, ℕ, ◌*◌, ◌-◌, ◌+◌, ◌≡◌, ◌≢◌, ◌≤◌, ◌<◌, ◌++◌, refl, none, some, Option, Bool-cases, inl,
  inr, sym, ap, str_eq, List, [], ◌∷◌, All, Bool, true, false, arith, eq_iff, if◌then◌else◌, ◌∙◌,
}
use robotsix_agent_comm.Prelude.Int.{pos}
use robotsix_agent_comm.Prelude.Dict
use robotsix_agent_comm.Prelude.Dict.{Dict}
use robotsix_agent_comm.Protocol.Value.{
  str, int, end, field, Fields, at, at_or, has, truthy, is_nonempty_text,
}
use robotsix_agent_comm.Prelude.Text.{starts_with_text, text_drop, text_length}
use robotsix_agent_comm.Protocol.Messages.{Message}
use robotsix_agent_comm.Protocol.Serialization.{serialize}
use robotsix_agent_comm.Transport.Registry
use robotsix_agent_comm.Transport.Endpoints.{Endpoint}
use robotsix_agent_comm.Broker.RateLimit.{token, second, new_bucket}
use robotsix_agent_comm.Broker.RateLimit.Bounds.{allowed, allowed_bound}
use robotsix_agent_comm.Broker.State.{Server, invert_tokens}
use robotsix_agent_comm.Broker.Http.{Request, Answer, post, error_response, query_or}
use robotsix_agent_comm.Broker.Auth.{authenticate, proceed}
use robotsix_agent_comm.Broker.Auth.Principals.{Shows, in_header, in_query, authenticate_owner}
use robotsix_agent_comm.Broker.Register.{Registration, endpoint_of, accept, validate_payload}
use robotsix_agent_comm.Broker.Register.Validated.{IsSound, validate_payload-IsSound}
use robotsix_agent_comm.Broker.Poll
use robotsix_agent_comm.Broker.Poll.{
  Wake, Polled, waiting, server_of, handle_poll, caller, max_poll_wait,
}
use robotsix_agent_comm.Broker.Poll.Waiting.{
  HandsOut, queue_all, payloads, handle_poll-queue_all, handle_poll-waiting,
}
use robotsix_agent_comm.Broker.Sweep.{sweep_once}
use robotsix_agent_comm.Broker.Sweep.Rounds.{LeftAfter}
use robotsix_agent_comm.Broker.Sweep.Evicted.{IsOverdue, sweep_once_exact}
use robotsix_agent_comm.Broker.Dispatch.{handle_request, allows_query_token}
use robotsix_agent_comm.Broker.Dispatch.Refused.{handle_request_unauthenticated}
use robotsix_agent_comm.Broker.Dispatch.Isolation.{Spares}
use robotsix_agent_comm.Broker.Dispatch.Isolation.Requests.{handle_request_isolated}
use robotsix_agent_comm.Broker.Invariant.{IsConsistent}
use robotsix_agent_comm.Broker.Invariant.Polls.{handle_request-IsConsistent}
use robotsix_agent_comm.Broker.Register.Histories.{
  Change, registration, removal, run, latest, directory, directory-run,
}
use robotsix_agent_comm.Tests.Data.{note, world, tokens, tokens-IsDict, broker, asks}

broker-IsConsistent : IsConsistent broker
unfolding Dict.lookup Registry.lookup
broker-IsConsistent = record {
  sound = record { distinct = (refl, tt); names = (refl, tt) };
  named = λ a e h. ground (arith, h, eq_iff "bob" a);
  listed = λ a. ground arith;
  beating = λ a. ground arith;
  timed = λ a. ground arith;
  queued = λ a e h m. ground (arith, h);
  owned = λ a h. ground (arith, h);
}

abbrev poll_of_bob : Request
poll_of_bob = asks "/messages" "Bearer secret-b"

abbrev send_of_ann : Request
send_of_ann = record (asks "/messages" "Bearer secret-a") {
  method = post;
  content_length = 100;
  body = some (serialize note);
}

handle_request-IsConsistent_example :
    IsConsistent (server_of (handle_request world poll_of_bob [] broker))
handle_request-IsConsistent_example =
    handle_request-IsConsistent world poll_of_bob [] tt broker broker-IsConsistent

ann_passes : authenticate broker (allows_query_token send_of_ann) send_of_ann ≡ proceed "ann"
unfolding authenticate starts_with_text Dict.lookup text_drop
ann_passes = refl

bob_passes : authenticate broker (allows_query_token poll_of_bob) poll_of_bob ≡ proceed "bob"
unfolding authenticate starts_with_text Dict.lookup text_drop
bob_passes = refl

handle_request_isolated_example :
    Spares "bob" "ann" broker (server_of (handle_request world poll_of_bob [] broker))
    × ((before : List Wake) (k : Wake) (t : Server)
        → handle_request world poll_of_bob before broker ≡ waiting t
        → Spares "bob" "ann" k.server
            (server_of (handle_request world poll_of_bob (before ++ k ∷ []) broker)))
    × ((before after : List Wake) (a : Answer) (t : Server)
        → handle_request world poll_of_bob before broker ≡ Poll.answered a t
        → handle_request world poll_of_bob (before ++ after) broker ≡ Poll.answered a t)
handle_request_isolated_example =
    handle_request_isolated world poll_of_bob broker "bob" "ann" bob_passes
      (λ e. ground (arith, e, eq_iff "bob" "")) (λ e. ground (arith, e, eq_iff "ann" "bob"))

sweep_once_exact_example :
    (IsOverdue 60_000_000 "bob" broker → LeftAfter true "bob" broker (sweep_once 60_000_000 broker))
    × (¬ IsOverdue 60_000_000 "bob" broker
        → LeftAfter false "bob" broker (sweep_once 60_000_000 broker))
sweep_once_exact_example = sweep_once_exact 60_000_000 "bob" broker broker-IsConsistent

abbrev posted : List (String × Message)
posted = ("ann", note) ∷ []

bob_waits : Dict.lookup "bob" broker.mailboxes ≡ some []
unfolding Dict.lookup
bob_waits = refl

handle_poll-queue_all_example :
    HandsOut world "bob"
      ([] ++ payloads posted)
      (handle_poll world poll_of_bob "bob" [] (queue_all world "bob" posted broker))
handle_poll-queue_all_example =
    handle_poll-queue_all world poll_of_bob "bob" "bob" [] broker [] posted refl
      (λ e. ground (arith, e, eq_iff "bob" "")) bob_waits (λ e. cc)

abbrev still_empty : Server
still_empty = record broker { last_heartbeat = ("bob", 100_000_000) ∷ [] }

-- a wake of the wait, before its end, that finds nothing
abbrev wakes : List Wake
wakes = record { now = 100_000_005; server = still_empty } ∷ []

still_waits : handle_poll world poll_of_bob "bob" wakes broker ≡ waiting still_empty
unfolding handle_poll query_or Dict.lookup Dict.insert
still_waits = refl

handle_poll-waiting_example :
    All (λ (k : Wake). k.now < world.now + max_poll_wait) wakes
    × (Dict.lookup (caller poll_of_bob "bob") still_empty.mailboxes ≡ some [])
handle_poll-waiting_example =
    handle_poll-waiting world poll_of_bob "bob" wakes broker still_empty still_waits

table_of_tokens : broker.token_to_agent ≡ invert_tokens tokens []
unfolding invert_tokens Dict.insert
table_of_tokens = refl

authenticate_owner_example :
    (token : String) × Shows send_of_ann (allows_query_token send_of_ann) token
    × (Dict.lookup "ann" tokens ≡ some token)
authenticate_owner_example =
    authenticate_owner broker send_of_ann (allows_query_token send_of_ann) tokens "ann" refl
      table_of_tokens tokens-IsDict ann_passes

abbrev payload : Fields
payload =
    field "agent_id" (str "ann")
      (field "host" (str "example.org") (field "port" (int (pos 8080)) end))

abbrev ann_registration : Registration
ann_registration = record {
  agent_id = "ann";
  host = "example.org";
  port = pos 8080;
  scheme = "http";
  path = "/messages";
  caps = end;
  ttl = none;
  mailbox_flag = false;
}

payload_accepted : validate_payload payload "ann" ≡ accept ann_registration
unfolding validate_payload is_nonempty_text at text_length truthy at_or has
payload_accepted = refl

validate_payload-IsSound_example : IsSound "ann" ann_registration
validate_payload-IsSound_example =
    validate_payload-IsSound payload "ann" ann_registration payload_accepted

-- three calls at the start and one after a second, at a rate of two requests a second
abbrev calls : List ℕ
calls = 0 ∷ 0 ∷ 0 ∷ 1_000_000 ∷ []

allowed_bound_example :
    allowed calls (new_bucket 2000 0) * token ≤ 2000 * second + (1_000_000 - 0) * 2000
allowed_bound_example =
    allowed_bound calls 2000 0 1_000_000
      (omega arith, (omega arith, (omega arith, (omega arith, omega arith))))

abbrev stranger : Request
stranger = asks "/messages" "Bearer wrong"

abbrev secret_if : Bool → Bool → Option String
secret_if c d = if c then some "secret-a" else if d then some "secret-b" else none

no_secret : (c d : Bool) → secret_if c d ≢ some "wrong"
no_secret true d = cc
no_secret false true = cc
no_secret false false = cc

stranger_strange :
    (a shown : String)
    → Shows stranger (allows_query_token stranger) shown
    → Dict.lookup a tokens ≢ some shown
unfolding Dict.lookup text_drop
stranger_strange a shown (in_header present bearer e) =
    λ found. no_secret (str_eq "ann" a) (str_eq "bob" a) (found ∙ ap some e)
stranger_strange a shown (in_query absent query named e) = cc

handle_request_unauthenticated_example :
    (detail : String) × (handle_request world stranger [] broker
      ≡ Poll.answered (error_response 401 detail) broker)
handle_request_unauthenticated_example =
    handle_request_unauthenticated world stranger [] broker tokens refl table_of_tokens
      tokens-IsDict refl stranger_strange

-- two histories that differ in their order and in a change that a later one undoes
abbrev one_way : List Change
one_way = registration 4 ann_registration true ∷ removal "bob" ∷ []

abbrev other_way : List Change
other_way = removal "bob" ∷ removal "ann" ∷ registration 9 ann_registration false ∷ []

same_latest : (a : String) (e : Option Endpoint) → latest a one_way e ≡ latest a other_way e
unfolding endpoint_of
same_latest a e = elim (Bool-cases (str_eq "ann" a)) [
  | inl p ↦
      let other : str_eq "bob" a ≡ false = ap (str_eq "bob") (sym ((eq_iff "ann" a).0 p)) in
      rw (p, other) refl
  | inr p ↦ rw (p) refl
]

directory-run_example :
    ((a : String)
      → Registry.lookup a (run one_way broker).registry
        ≡ latest a one_way (Registry.lookup a broker.registry))
    × (directory (run one_way broker) ≡ directory (run other_way broker))
directory-run_example = directory-run one_way other_way broker same_latest
