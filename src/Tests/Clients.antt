-- ===== src/Tests/Clients.antt =====
-- The theorems on a client of the broker, at the broker of Tests/Data.antt.
use robotsix_agent_comm.Prelude.{◌≡◌, refl, none, some, true, arith, eq_iff}
use robotsix_agent_comm.Protocol.Value.{at, is_nonempty_text}
use robotsix_agent_comm.Protocol.Errors.{ok, missing_fields}
use robotsix_agent_comm.Protocol.Messages.{message_type_of}
use robotsix_agent_comm.Protocol.Validation.{validate, message, required_envelope_fields}
use robotsix_agent_comm.Protocol.Replies.{IsStamp}
use robotsix_agent_comm.Transport.Endpoints.{Endpoint, agent_not_found}
use robotsix_agent_comm.Transport.Registry
use robotsix_agent_comm.Broker.Http.{error_response}
use robotsix_agent_comm.Broker.Auth.{rate_limited}
use robotsix_agent_comm.Broker.Register.{too_large}
use robotsix_agent_comm.Broker.Send.{dispatch_message}
use robotsix_agent_comm.Brokered.{broker_send, exchange_of, returned, raised, not_understood}
use robotsix_agent_comm.Brokered.Outcomes.{dispatch_message-broker_send, broker_send-error_response}
use robotsix_agent_comm.Tests.Data.{note, world, broker}

world-IsStamp : IsStamp world.stamp
world-IsStamp = record { now = λ e. cc; fresh_id = λ e. cc }

valid_note : validate (message note) ≡ ok tt
unfolding validate is_nonempty_text at message_type_of
valid_note = refl

dispatch_message-broker_send_example :
    (Registry.lookup "bob" broker.registry ≡ none
      → broker_send (exchange_of (dispatch_message world note "ann" broker).0)
        ≡ raised agent_not_found)
    × ((e : Endpoint)
        → Registry.lookup "bob" broker.registry ≡ some e
        → e.mailbox ≡ true
        → broker_send (exchange_of (dispatch_message world note "ann" broker).0) ≡ returned none)
dispatch_message-broker_send_example =
    dispatch_message-broker_send world note "ann" broker "bob" world-IsStamp valid_note refl
      (λ e. ground (arith, e, eq_iff "bob" ""))

broker_send-error_response_example :
    (broker_send (exchange_of (error_response 401 "invalid token"))
      ≡ not_understood (missing_fields required_envelope_fields))
    × (broker_send (exchange_of rate_limited)
        ≡ not_understood (missing_fields required_envelope_fields))
    × (broker_send (exchange_of (too_large 1048576 2000000))
        ≡ not_understood (missing_fields required_envelope_fields))
broker_send-error_response_example =
    broker_send-error_response 401 "invalid token" 1048576 2000000 (omega arith)
