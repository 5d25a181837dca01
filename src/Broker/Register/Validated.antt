-- ===== src/Broker/Register/Validated.antt =====
-- broker/server.py: what `_validate_register_payload` has checked of a payload that it accepts.
use robotsix_agent_comm.Prelude.{
  String, ltb, true, false, not, ◌||◌, none, some, sym, ◌∙◌, ◌≡◌, ◌≢◌, ◌⊎◌, inl, inr, refl, arith,
  eq_iff, if◌then◌else◌, Bool-cases,
}
use robotsix_agent_comm.Prelude.Int.{ℤ, pos, leb_ℤ}
use robotsix_agent_comm.Prelude.Text.{text_length, starts_with_text}
use robotsix_agent_comm.Protocol.Value.{
  Value, null, float, arr, bool, int, str, obj, Fields, has, at, at_or, int_value, is_nonempty_text,
  truthy,
}
use robotsix_agent_comm.Transport.Endpoints.{default_message_path}
use robotsix_agent_comm.Broker.Register.{
  Verdict, Rejection, accept, reject, Registration, port_in_range, text_or_empty, int_or_zero,
  host_of, port_of, check_address, validate_payload, scheme_known, path_rooted, ttl_valid,
}

-- What the broker relies on in a registration that it stores for the authenticated agent `p`.
pub record IsSound (p : String) (g : Registration) : Type 0 where
  pub named : g.agent_id ≢ ""
  pub short : ltb 255 (text_length g.agent_id) ≡ false
  pub own : (p ≡ "") ⊎ (g.agent_id ≡ p)
  pub host_present : g.mailbox_flag ≡ false → g.host ≢ ""
  pub host_short : g.mailbox_flag ≡ false → ltb 253 (text_length g.host) ≡ false
  pub port_valid : g.mailbox_flag ≡ false → port_in_range g.port ≡ true
  pub scheme_listed : (g.scheme ≡ "http") ⊎ (g.scheme ≡ "https")
  pub path_absolute : starts_with_text "/" g.path ≡ true
  pub ttl_natural : (t : ℤ) → g.ttl ≡ some t → leb_ℤ (pos 0) t ≡ true

nonempty : (v : Value) → is_nonempty_text v ≡ true → text_or_empty v ≢ ""
unfolding is_nonempty_text
nonempty (str s) h = λ q. ground (arith, eq_iff s "", q)
nonempty null h = cc
nonempty (bool b) h = cc
nonempty (int n) h = cc
nonempty (float s) h = cc
nonempty (arr xs) h = cc
nonempty (obj e) h = cc

scheme_cases :
    (v : Value) → scheme_known v ≡ true → (text_or_empty v ≡ "http") ⊎ (text_or_empty v ≡ "https")
scheme_cases (str s) h = ground (arith, eq_iff s "http", eq_iff s "https")
scheme_cases null h = cc
scheme_cases (bool b) h = cc
scheme_cases (int n) h = cc
scheme_cases (float s) h = cc
scheme_cases (arr xs) h = cc
scheme_cases (obj e) h = cc

path_cases : (v : Value) → path_rooted v ≡ true → starts_with_text "/" (text_or_empty v) ≡ true
path_cases (str s) h = h
path_cases null h = cc
path_cases (bool b) h = cc
path_cases (int n) h = cc
path_cases (float s) h = cc
path_cases (arr xs) h = cc
path_cases (obj e) h = cc

ttl_cases : (v : Value) (t : ℤ) → ttl_valid v ≡ true → int_value v ≡ some t → leb_ℤ (pos 0) t ≡ true
ttl_cases v t h e = ground (arith, h, e)

-- the address checks
check_address_lem :
    (a : String) (host port : Value)
    → check_address a host port ≡ accept tt
    → (text_or_empty host ≢ "")
      × (ltb 253 (text_length (text_or_empty host)) ≡ false)
      × (port_in_range (int_or_zero port) ≡ true)
unfolding check_address
check_address_lem a host port h =
    (nonempty host (ground (arith, h)), ground (arith, h), ground (arith, h))

Verdict-cases : (v : Verdict (Unit {0})) → (v ≡ accept tt) ⊎ ((r : Rejection) × (v ≡ reject r))
Verdict-cases (accept tt) = inl refl
Verdict-cases (reject r) = inr (r, refl)

module _ (d : Fields) (p : String) (g : Registration) (h : validate_payload d p ≡ accept g) where
  id_is : g.agent_id ≡ text_or_empty (at "agent_id" d)
  unfolding validate_payload
  id_is = ground (arith, h)

  flag_is : g.mailbox_flag ≡ truthy (at_or "mailbox" (bool false) d)
  unfolding validate_payload
  flag_is = ground (arith, h)

  host_is : g.host ≡ text_or_empty (host_of (truthy (at_or "mailbox" (bool false) d)) (at "host" d))
  unfolding validate_payload
  host_is = ground (arith, h)

  port_is : g.port ≡ int_or_zero (port_of (truthy (at_or "mailbox" (bool false) d)) (at "port" d))
  unfolding validate_payload
  port_is = ground (arith, h)

  path_is : g.path ≡ (if has "path" d then text_or_empty (at "path" d) else default_message_path)
  unfolding validate_payload
  path_is = ground (arith, h)

  path_tested : (not (has "path" d) || path_rooted (at "path" d)) ≡ true
  unfolding validate_payload
  path_tested = ground (arith, h)

  ttl_is : g.ttl ≡ (if has "ttl_seconds" d then int_value (at "ttl_seconds" d) else none)
  unfolding validate_payload
  ttl_is = ground (arith, h)

  ttl_tested : (not (has "ttl_seconds" d) || ttl_valid (at "ttl_seconds" d)) ≡ true
  unfolding validate_payload
  ttl_tested = ground (arith, h)

  path_absolute_lem : starts_with_text "/" g.path ≡ true
  unfolding starts_with_text
  path_absolute_lem = rw (path_is) (elim (Bool-cases (has "path" d)) [
    | inl e ↦ rw (e) (path_cases (at "path" d) (ground (arith, path_tested, e)))
    | inr e ↦ rw (e) refl
  ])

  ttl_natural_lem : (t : ℤ) → g.ttl ≡ some t → leb_ℤ (pos 0) t ≡ true
  ttl_natural_lem t = rw (ttl_is) (elim (Bool-cases (has "ttl_seconds" d)) [
    | inl e ↦ rw (e) (ttl_cases (at "ttl_seconds" d) t (ground (arith, ttl_tested, e)))
    | inr e ↦ rw (e) (λ q. cc)
  ])

  addressed :
      truthy (at_or "mailbox" (bool false) d) ≡ false
      → check_address
          (text_or_empty (at "agent_id" d))
          (host_of (truthy (at_or "mailbox" (bool false) d)) (at "host" d))
          (port_of (truthy (at_or "mailbox" (bool false) d)) (at "port" d))
        ≡ accept tt
  unfolding validate_payload
  addressed dialled =
      elim (Verdict-cases (
        check_address (text_or_empty (at "agent_id" d))
          (host_of (truthy (at_or "mailbox" (bool false) d)) (at "host" d))
          (port_of (truthy (at_or "mailbox" (bool false) d)) (at "port" d)))) [
            | inl e ↦ e
            | inr (r, e) ↦ ground (arith, h, dialled, e)
          ]

  dialled_address :
      g.mailbox_flag ≡ false
      → (g.host ≢ "") × (ltb 253 (text_length g.host) ≡ false) × (port_in_range g.port ≡ true)
  dialled_address e =
      rw (host_is, port_is)
        (check_address_lem (text_or_empty (at "agent_id" d))
          (host_of (truthy (at_or "mailbox" (bool false) d)) (at "host" d))
          (port_of (truthy (at_or "mailbox" (bool false) d)) (at "port" d))
          (addressed (sym flag_is ∙ e)))

  -- A payload that the validation accepts for the authenticated agent `p` gives a registration that
  -- is sound for it.
  pub validate_payload-IsSound : IsSound p g
  unfolding validate_payload
  validate_payload-IsSound = record {
    named = rw (id_is) (nonempty (at "agent_id" d) (ground (arith, h)));
    short = ground (arith, h);
    own = ground (arith, h, eq_iff p "", eq_iff g.agent_id p);
    host_present = λ e. (dialled_address e).0;
    host_short = λ e. (dialled_address e).1;
    port_valid = λ e. (dialled_address e).2;
    scheme_listed = ground (arith, h, scheme_cases (at "scheme" d));
    path_absolute = path_absolute_lem;
    ttl_natural = ttl_natural_lem;
  }
