-- ===== src/Brokered/Directory/Enrolment.antt =====
-- transport/brokered.py: what the broker makes of the registration of an endpoint.
use robotsix_agent_comm.Prelude.{
  String, true, false, none, str_eq, eq_iff, ltb, ◌||◌, if◌then◌else◌, ◌≡◌, ◌≢◌, ◌⊎◌, inl, inr,
  refl, arith, Bool-cases,
}
use robotsix_agent_comm.Prelude.Int.{pos}
use robotsix_agent_comm.Prelude.Text.{text_length, starts_with_text}
use robotsix_agent_comm.Protocol.Value.{
  Fields, str, int, bool, at, at_or, has, truthy, is_nonempty_text,
}
use robotsix_agent_comm.Transport.Endpoints.{Endpoint}
use robotsix_agent_comm.Broker.Register.{
  accept, port_in_range, is_port, host_of, port_of, check_address, validate_payload, Registration,
}
use robotsix_agent_comm.Brokered.Directory.{registration_body}

-- an endpoint that an agent with the token of `p` may register: `p` is empty without authentication
pub record IsOpen (p : String) (e : Endpoint) : Type 0 where
  pub named : e.agent_id ≢ ""
  pub short : ltb 255 (text_length e.agent_id) ≡ false
  pub own : (p ≡ "") ⊎ (e.agent_id ≡ p)
  pub host_present : e.host ≢ ""
  pub host_short : e.mailbox ≡ false → ltb 253 (text_length e.host) ≡ false
  pub port_valid : (port_in_range e.port ≡ true) ⊎ ((e.mailbox ≡ true) × (e.port ≡ pos 0))
  pub scheme_listed : (e.scheme ≡ "http") ⊎ (e.scheme ≡ "https")
  pub path_absolute : starts_with_text "/" e.path ≡ true

-- the registration that stores an endpoint as it is, with the broker's TTL
abbrev pub registration_of : Endpoint → Fields → Registration
registration_of e caps = record {
  agent_id = e.agent_id;
  host = e.host;
  port = e.port;
  scheme = e.scheme;
  path = e.path;
  caps = caps;
  ttl = none;
  mailbox_flag = e.mailbox;
}

module _ (p : String) (e : Endpoint) (o : IsOpen p e) where
  agent_id_present : str_eq e.agent_id "" ≡ false
  agent_id_present = ground (arith, o.named, eq_iff e.agent_id "")

  host_text : is_nonempty_text (str e.host) ≡ true
  unfolding is_nonempty_text
  host_text = ground (arith, o.host_present, eq_iff e.host "")

  host_kept : host_of e.mailbox (str e.host) ≡ str e.host
  unfolding host_of
  host_kept = rw (host_text) (ground arith)

  port_kept : port_of e.mailbox (int e.port) ≡ int e.port
  unfolding port_of is_port
  port_kept = ground (arith, o.port_valid)

  port_good : e.mailbox ≡ false → port_in_range e.port ≡ true
  port_good h = ground (arith, o.port_valid, h)

  address_checked :
      (if e.mailbox then accept tt else check_address e.agent_id (str e.host) (int e.port))
      ≡ accept tt
  unfolding check_address
  address_checked = elim (Bool-cases e.mailbox) [
    | inl q ↦ rw (q) refl
    | inr q ↦ rw (q, host_text, o.host_short q, port_good q) refl
  ]

  owned : (str_eq p "" || str_eq e.agent_id p) ≡ true
  owned = ground (arith, o.own, eq_iff p "", eq_iff e.agent_id p)

  scheme_good : (str_eq e.scheme "http" || str_eq e.scheme "https") ≡ true
  scheme_good = ground (arith, o.scheme_listed, eq_iff e.scheme "http", eq_iff e.scheme "https")

  mailbox_kept : truthy (bool e.mailbox) ≡ e.mailbox
  unfolding truthy
  mailbox_kept = refl

  -- The broker accepts the registration of an open endpoint and stores it as it is, with its
  -- capabilities.
  pub validate_payload-registration_body :
      (caps : Fields)
      → validate_payload (registration_body e caps) p ≡ accept (registration_of e caps)
  unfolding validate_payload registration_body at at_or has is_nonempty_text
  validate_payload-registration_body caps =
      rw
        (
          mailbox_kept, host_kept, port_kept, agent_id_present, o.short, owned, address_checked,
          scheme_good, o.path_absolute,
        )
        refl
