-- ===== src/Tests/Peers.antt =====
-- Agents that dial each other: a run of the theorem at a concrete input.
use robotsix_agent_comm.Prelude.{String, true, Option, none, some, ◌≡◌, refl, arith}
use robotsix_agent_comm.Prelude.Int.{ℤ, pos}
use robotsix_agent_comm.Protocol.Value.{str, Fields, end, field, at, is_nonempty_text}
use robotsix_agent_comm.Protocol.Messages.{
  Message, request, notification, create_metadata, message_type_of,
}
use robotsix_agent_comm.Protocol.Validation.{validate}
use robotsix_agent_comm.Transport.Registry
use robotsix_agent_comm.Transport.Registry.{Registry}
use robotsix_agent_comm.Transport.Retry.{retry_call}
use robotsix_agent_comm.Transport.Router.{route, Transport}
use robotsix_agent_comm.Transport.Server.Exchanges.{HasValidReply}
use robotsix_agent_comm.Sdk.Agent.{
  Agent, replied, new_agent, on_request, on_notification, handle, handle_kind, handle_request,
  send_request,
}
use robotsix_agent_comm.Sdk.Direct.{
  start, build_message, direct_endpoint, heard_of, transport, send_notification,
}
use robotsix_agent_comm.Sdk.Direct.Exchanged.{direct_conversation, ended, notified, runs}
use robotsix_agent_comm.Tests.Data.{world, policy}
use robotsix_agent_comm.Tests.Kits.{repr, world-IsStamp}

-- `eve` returns a request as its reply, and raises on a notification
abbrev eve : Agent
eve = on_notification (λ m. true) (on_request (λ m. replied (some m)) (new_agent "eve"))

-- `eve` listens at every address
abbrev listening : String → ℤ → Option Agent
listening host port = some eve

abbrev body : Option Fields
body = some (field "x" (str "1") end)

abbrev question : Message
question = build_message world.stamp request "ann" "eve" body end

abbrev hint : Message
hint = build_message world.stamp notification "ann" "eve" body end

abbrev known : Registry
known = (start "10.0.0.7" (pos 4000) (record { agent = eve; server = none }, Registry.empty)).1

abbrev wires : Transport
wires = transport repr world.stamp world.describe listening

question_answered : HasValidReply (heard_of (handle repr world.stamp eve question))
unfolding heard_of handle handle_kind handle_request on_request on_notification build_message
    create_metadata validate is_nonempty_text at message_type_of
question_answered = refl

direct_conversation_example :
    (send_request (route known wires policy question)
      ≡ ended policy (handle repr world.stamp eve question))
    × ((retry_call (wires question (direct_endpoint "eve" "10.0.0.7" (pos 4000))) policy).calls
        ≡ runs policy (handle repr world.stamp eve question))
    × (send_notification (route known wires policy hint)
        ≡ notified policy (handle repr world.stamp eve hint))
    × ((retry_call (wires hint (direct_endpoint "eve" "10.0.0.7" (pos 4000))) policy).calls
        ≡ runs policy (handle repr world.stamp eve hint))
unfolding on_request on_notification
direct_conversation_example =
    direct_conversation repr world.describe world.stamp world.stamp listening eve "10.0.0.7"
      (pos 4000) "ann" body end policy Registry.empty refl world-IsStamp (λ e. cc) (λ e. cc)
      (omega arith) question_answered
