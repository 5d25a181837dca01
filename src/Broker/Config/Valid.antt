-- ===== src/Broker/Config/Valid.antt =====
-- broker/config.py: what a configuration that `validate` accepts has.
use robotsix_agent_comm.Prelude.{
  String, Bool, true, false, Option, none, some, [], ◌∷◌, if◌then◌else◌, eq_iff, ◌≡◌, ◌≢◌, ◌↔◌, inl,
  inr, refl, sym, arith, Option-cases,
}
use robotsix_agent_comm.Prelude.Dict.{Dict}
use robotsix_agent_comm.Broker.Config.{
  BrokerConfig, ConfigError, System, Loaded, loaded, refused, validated, ◌>>=◌, is_missing,
  is_readable, check_tls, check_ca, check_tokens, ◌and_then◌, is_production, validate, read_env,
  from_env,
}

-- a file is named and can be read
abbrev pub HasFile : (String → Bool) → Option String → Type 0
HasFile readable path = (s : String) × (path ≡ some s) × (s ≢ "") × (readable s ≡ true)

-- What the broker may rely on: outside development, TLS with files that can be read and at least one
-- token; and a CA bundle where clients must show a certificate.
pub record IsSecure (readable : String → Bool) (c : BrokerConfig) : Type 0 where
  pub cert : c.env ≢ "development" → HasFile readable c.tls_cert
  pub key : c.env ≢ "development" → HasFile readable c.tls_key
  pub tokens :
      c.env ≢ "development"
      → (id : String) × (token : String) × (rest : Dict String) × (c.agent_tokens
          ≡ some ((id, token) ∷ rest))
  pub ca : c.require_client_cert ≡ true → HasFile readable c.tls_ca

and_then_iff : (a b : Option ConfigError) → ((a and_then b) ≡ none) ↔ ((a ≡ none) × (b ≡ none))
and_then_iff none b = (λ e. (refl, e), λ (_, e). e)
and_then_iff (some x) b = (λ e. absurd (ground (arith, e)), λ (e, _). absurd (ground (arith, e)))

module _ (readable : String → Bool) where
  HasFile-iff :
      (o : Option String)
      → HasFile readable o ↔ ((is_missing o ≡ false) × (is_readable readable o ≡ true))
  HasFile-iff none =
      (λ (s, e, _, _). absurd (ground (arith, e)), λ (e, _). absurd (ground (arith, e)))
  HasFile-iff (some s) = (
    λ (z, e, ne, r). (ground (arith, e, ne, eq_iff s ""), ground (arith, e, r)),
    λ (m, r). (s, refl, (λ q. ground (arith, q, m, eq_iff s "")), r),
  )

  check_tls_iff :
      (c : BrokerConfig)
      → (check_tls readable c ≡ none) ↔ (HasFile readable c.tls_cert × HasFile readable c.tls_key)
  unfolding check_tls
  check_tls_iff c =
      let cert = HasFile-iff c.tls_cert in
      let key = HasFile-iff c.tls_key in
      (
        λ e. (
          cert.1 (ground (arith, e), ground (arith, e)),
          key.1 (ground (arith, e), ground (arith, e)),
        ),
        λ (x, y). let (xm, xr) = cert.0 x in let (ym, yr) = key.0 y in rw (xm, xr, ym, yr) refl,
      )

  check_ca_iff : (c : BrokerConfig) → (check_ca readable c ≡ none) ↔ HasFile readable c.tls_ca
  unfolding check_ca
  check_ca_iff c =
      let ca = HasFile-iff c.tls_ca in
      (
        λ e. ca.1 (ground (arith, e), ground (arith, e)),
        λ x. let (xm, xr) = ca.0 x in rw (xm, xr) refl,
      )

  check_tokens_iff :
      (o : Option (Dict String))
      → (check_tokens o ≡ none) ↔ (
          (id : String) × (token : String) × (rest : Dict String) × (o ≡ some ((id, token) ∷ rest)))
  unfolding check_tokens
  check_tokens_iff none =
      (λ e. absurd (ground (arith, e)), λ (_, _, _, e). absurd (ground (arith, e)))
  check_tokens_iff (some []) =
      (λ e. absurd (ground (arith, e)), λ (_, _, _, e). absurd (ground (arith, e)))
  check_tokens_iff (some ((id, token) ∷ rest)) = (λ e. (id, token, rest, refl), λ _. refl)

  when_iff :
      (b : Bool) (e : Option ConfigError) → ((if b then e else none) ≡ none) ↔ (b ≡ true → e ≡ none)
  when_iff true e = (λ h _. h, λ h. h refl)
  when_iff false e = (λ _ q. absurd (ground (arith, q)), λ _. refl)

  production_iff : (c : BrokerConfig) → (is_production c ≡ true) ↔ (c.env ≢ "development")
  production_iff c = (
    λ h e. ground (arith, h, e, eq_iff c.env "development"),
    λ n. ground (arith, n, eq_iff c.env "development"),
  )

  -- `validate` accepts exactly the configurations that are secure.
  pub validate_iff : (c : BrokerConfig) → (validate readable c ≡ none) ↔ IsSecure readable c
  unfolding validate
  validate_iff c =
      let tls = when_iff (is_production c) (check_tls readable c) in
      let ca = when_iff c.require_client_cert (check_ca readable c) in
      let auth = when_iff (is_production c) (check_tokens c.agent_tokens) in
      let first =
        and_then_iff (if is_production c then check_tls readable c else none)
          (if c.require_client_cert then check_ca readable c else none) in
      let all = and_then_iff _ (if is_production c then check_tokens c.agent_tokens else none) in
      let p = production_iff c in
      (
        λ e.
            let (e1, e2) = all.0 e in
            let (e3, e4) = first.0 e1 in
            record {
              cert = λ n. ((check_tls_iff c).0 (tls.0 e3 (p.1 n))).0;
              key = λ n. ((check_tls_iff c).0 (tls.0 e3 (p.1 n))).1;
              tokens = λ n. (check_tokens_iff c.agent_tokens).0 (auth.0 e2 (p.1 n));
              ca = λ q. (check_ca_iff c).0 (ca.0 e4 q);
            },
        λ s. all.1 (
          first.1 (
            tls.1 (λ q. (check_tls_iff c).1 (s.cert (p.0 q), s.key (p.0 q))),
            ca.1 (λ q. (check_ca_iff c).1 (s.ca q)),
          ),
          auth.1 (λ q. (check_tokens_iff c.agent_tokens).1 (s.tokens (p.0 q))),
        ),
      )

validated_lem :
    (sys : System) (d c : BrokerConfig)
    → validated sys d ≡ loaded c
    → validate sys.file_readable c ≡ none
validated_lem sys d c e = elim (Option-cases (validate sys.file_readable d)) [
  | inl q ↦ let same : d ≡ c = ground (arith, e, q) in rw (sym same) q
  | inr (x, q) ↦ absurd (ground (arith, e, q))
]

bound_lem :
    (sys : System) (x : Loaded BrokerConfig) (c : BrokerConfig)
    → (x >>= validated sys) ≡ loaded c
    → validate sys.file_readable c ≡ none
bound_lem sys (loaded d) c e = validated_lem sys d c e
bound_lem sys (refused x) c e = absurd (ground (arith, e))

-- A broker that starts from the environment is secure: a configuration that `from_env` returns has,
-- outside development, TLS and at least one token, and a CA bundle where clients must show a
-- certificate.
pub from_env-IsSecure :
    (sys : System) (env : Dict String) (c : BrokerConfig)
    → from_env sys env ≡ loaded c
    → IsSecure sys.file_readable c
unfolding from_env
from_env-IsSecure sys env c e =
    (validate_iff sys.file_readable c).0 (bound_lem sys (read_env sys env) c e)
