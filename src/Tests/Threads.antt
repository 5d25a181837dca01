-- ===== src/Tests/Threads.antt =====
-- The threads of the broker: runs of the theorems at concrete inputs.
use robotsix_agent_comm.Prelude.{none, some, [], ◌∷◌, ◌++◌, false, true, ◌≡◌, refl, arith, eq_iff}
use robotsix_agent_comm.Prelude.Int.{pos, ◌+ℤ◌}
use robotsix_agent_comm.Prelude.Dict
use robotsix_agent_comm.Prelude.Text.{concat, starts_with_text, text_drop}
use robotsix_agent_comm.Protocol.Value.{end}
use robotsix_agent_comm.Protocol.Serialization.{serialize}
use robotsix_agent_comm.Transport.Registry
use robotsix_agent_comm.Broker.State.{Server, Options, Disposition, log}
use robotsix_agent_comm.Broker.Http.{response, json, empty}
use robotsix_agent_comm.Broker.Register.{Registration, endpoint_of, ttl_after}
use robotsix_agent_comm.Broker.Send.{unknown_recipient_error}
use robotsix_agent_comm.Broker.Sweep.{sweep_once}
use robotsix_agent_comm.Broker.Threads.{perform, done, then_do, return, alone}
use robotsix_agent_comm.Broker.Threads.Enrolment.{forget_acts, accept_thread}
use robotsix_agent_comm.Broker.Threads.Sending.{dispatch_thread, recorded}
use robotsix_agent_comm.Broker.Threads.Polling.{poll_thread}
use robotsix_agent_comm.Broker.Threads.Jobs.{Job, polling, sweeping, thread_of}
use robotsix_agent_comm.Broker.Threads.Machine.{
  Machine, waiting_in, update, starting, fresh, Reach, start, later, run, run-Reach, duel,
}
use robotsix_agent_comm.Broker.Threads.Queues.{sent, taken, sent-taken}
use robotsix_agent_comm.Broker.Threads.Tables.{IsSafe, Reach-IsSafe}
use robotsix_agent_comm.Broker.Threads.Races.{IsOrphan, overtaken, eviction_race, never_healed}
use robotsix_agent_comm.Broker.Threads.Unswept.{
  IsUnwatched, crossed, Onward, here, swept, asked, unswept_race,
}
use robotsix_agent_comm.Broker.Auth.{authenticate, proceed}
use robotsix_agent_comm.Broker.Poll.{server_of}
use robotsix_agent_comm.Broker.Dispatch.{handle_request, allows_query_token}
use robotsix_agent_comm.Tests.Data.{note, world, bob, broker, asks}

abbrev open_options : Options
open_options = record {
  ttl_seconds = pos 30;
  agent_tokens = none;
  max_body_size = 1000;
  rate_limit_per_second = 0;
  traffic_buffer_size = 10;
  mailbox_grace_seconds = pos 0;
  dashboard_enabled = true;
  router_retry_policy = none;
}

-- a poll of "bob", which is authenticated, that looks again at tick 9
abbrev poll_of_bob : Job
poll_of_bob = polling world (asks "/messages" "Bearer secret-b") "bob" (9 ∷ [])

-- a new daemon with the poll in the first place and a sweep in the second
abbrev two_started : Machine
two_started = record (fresh open_options) {
  threads = update (update (λ i. done none) 0 (thread_of poll_of_bob)) 1 (thread_of (sweeping 5));
}

two_started-Reach : Reach open_options two_started
two_started-Reach =
    later (later start (starting 0 none poll_of_bob refl)) (starting 1 none (sweeping 5) refl)

-- the poll registers "bob" while the sweep is at work
abbrev two_run : Machine
two_run = run (0 ∷ 0 ∷ 1 ∷ 0 ∷ 0 ∷ 1 ∷ 0 ∷ 0 ∷ 0 ∷ 1 ∷ 0 ∷ []) two_started

two_run-Reach : Reach open_options two_run
two_run-Reach =
    run-Reach open_options (0 ∷ 0 ∷ 1 ∷ 0 ∷ 0 ∷ 1 ∷ 0 ∷ 0 ∷ 0 ∷ 1 ∷ 0 ∷ []) two_started
      two_started-Reach

sent-taken_example :
    sent "bob" two_run.history ≡ taken "bob" two_run.history ++ waiting_in two_run.server "bob"
sent-taken_example = sent-taken open_options two_run two_run-Reach "bob"

Reach-IsSafe_example : IsSafe two_run.server
Reach-IsSafe_example = Reach-IsSafe open_options two_run two_run-Reach

abbrev idle : Machine
idle = record { server = broker; threads = λ i. done none; history = [] }

abbrev message_and_sweep : Machine
message_and_sweep =
    run overtaken
      (duel (dispatch_thread world note "ann") (then_do (forget_acts "bob") (done none)) idle)

bob_found : Registry.lookup "bob" broker.registry ≡ some bob
unfolding Registry.lookup Dict.lookup
bob_found = refl

eviction_race_example :
    IsOrphan "bob" message_and_sweep.server
    × (message_and_sweep.threads 0
        ≡ then_do
            (recorded world note "ann" Disposition.queued 202 (concat "queued for mailbox " "bob"))
            (return (response 202 empty)))
    × (Dict.lookup "bob" message_and_sweep.server.mailboxes ≡ some (serialize note ∷ []))
eviction_race_example =
    eviction_race world note "ann" "bob" bob (done none) idle refl bob_found refl

bob-IsOrphan : IsOrphan "bob" message_and_sweep.server
bob-IsOrphan = (eviction_race world note "ann" "bob" bob (done none) idle refl bob_found refl).0

never_healed_example :
    IsOrphan "bob"
      (alone
        (poll_thread world (asks "/messages" "Bearer secret-b") "bob" (9 ∷ []))
        message_and_sweep.server).1
    × ((alone (dispatch_thread world note "ann") message_and_sweep.server).0
        ≡ some (response 404 (json (unknown_recipient_error world note))))
never_healed_example =
    never_healed world (asks "/messages" "Bearer secret-b") "bob" (9 ∷ []) note "ann"
      message_and_sweep.server refl bob-IsOrphan

-- an agent that the broker dials
abbrev cat : Registration
cat = record {
  agent_id = "cat";
  host = "10.0.0.7";
  port = pos 8080;
  scheme = "http";
  path = "/messages";
  caps = end;
  ttl = none;
  mailbox_flag = false;
}

-- the server after the race, and after a sweep and a request of "bob" from then on
abbrev cat_raced : Server
cat_raced =
    (run crossed
      (duel (then_do (forget_acts "cat") (done none)) (accept_thread world cat) idle)).server

abbrev later_on : Server
later_on =
    server_of
      (handle_request world (asks "/messages" "Bearer secret-b") [] (sweep_once 900 cat_raced))

bob_passes :
    authenticate
      (sweep_once 900 cat_raced)
      (allows_query_token (asks "/messages" "Bearer secret-b"))
      (asks "/messages" "Bearer secret-b")
    ≡ proceed "bob"
unfolding authenticate sweep_once accept_thread run Registry.list_agents Dict.values perform log
    Registry.register Dict.insert Registry.unregister_quietly Dict.lookup endpoint_of Dict.remove
    ttl_after Registry.lookup ◌+ℤ◌ starts_with_text text_drop
bob_passes = refl

later_on-Onward : Onward "cat" cat_raced later_on
later_on-Onward =
    asked world (asks "/messages" "Bearer secret-b") "bob" (swept here 900) bob_passes
      (λ e. ground (arith, e, eq_iff "bob" "")) (λ e. ground (arith, e, eq_iff "cat" "bob"))

unswept_race_example : IsUnwatched "cat" (endpoint_of cat) later_on
unswept_race_example = unswept_race world cat (done none) idle later_on later_on-Onward
