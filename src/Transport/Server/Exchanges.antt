-- ===== src/Transport/Server/Exchanges.antt =====
-- transport/server.py and client.py: one exchange between two agents.
use robotsix_agent_comm.Prelude.{String, Option, none, some, eq_refl, ◌≡◌, refl, ◌∙◌}
use robotsix_agent_comm.Protocol.Errors.{ProtocolError, ok}
use robotsix_agent_comm.Protocol.Messages.{Message}
use robotsix_agent_comm.Protocol.Validation.{validate, message}
use robotsix_agent_comm.Protocol.Serialization.{serialize, deserialize}
use robotsix_agent_comm.Protocol.Serialization.RoundTrip.{deserialize-serialize}
use robotsix_agent_comm.Transport.Endpoints.{unreachable}
use robotsix_agent_comm.Transport.Retry.{Outcome, returned, raised}
use robotsix_agent_comm.Transport.Client.{client_send, read_body, read_reply}
use robotsix_agent_comm.Transport.Server.{
  Heard, replies, raises, Listener, respond, do_post, exchange_of,
}

-- what the sender should see of what the handler did
abbrev pub told : Heard → Outcome (Option Message)
told (replies reply) = returned reply
told raises = raised unreachable

-- a reply, if there is one, is valid
abbrev pub HasValidReply : Heard → Type 0
HasValidReply (replies (some reply)) = validate (message reply) ≡ ok tt
HasValidReply _ = Unit

read_back : (m : Message) → validate (message m) ≡ ok tt → deserialize (some (serialize m)) ≡ ok m
read_back m v = deserialize-serialize m ∙ rw (v) refl

read_reply-serialize :
    (r : Message)
    → validate (message r) ≡ ok tt
    → read_reply (some (serialize r)) ≡ returned (some r)
unfolding read_reply
read_reply-serialize r v = rw (read_reply, read_back r v) refl

client_send-respond : (h : Heard) → HasValidReply h → client_send (exchange_of (respond h)) ≡ told h
unfolding client_send exchange_of respond read_body
client_send-respond (replies none) v = refl
client_send-respond (replies (some reply)) v = read_reply-serialize reply v
client_send-respond raises v = refl

-- A valid message that is sent to the listener of another agent reaches its handler, and the sender
-- gets the handler's reply, nothing where it has none, and a transport error where it raises.
pub client_send-do_post :
    (describe : ProtocolError → String) (l : Listener) (m : Message)
    → validate (message m) ≡ ok tt
    → HasValidReply (l.message_handler m)
    → client_send (exchange_of (do_post describe l l.message_path (some (serialize m))))
      ≡ told (l.message_handler m)
unfolding do_post
client_send-do_post describe l m v h =
    rw (eq_refl l.message_path, read_back m v) (client_send-respond (l.message_handler m) h)
