-- ===== src/Broker/Auth/Principals.antt =====
-- Who passes the authentication.
use robotsix_agent_comm.Prelude.{
  String, Bool, true, some, ◌≡◌, ◌≢◌, refl, arith, ap, sym, ◌∙◌, str_eq, eq_iff, ◌⊎◌, inl, inr,
  Bool-cases, [], ◌∷◌,
}
use robotsix_agent_comm.Prelude.Dict
use robotsix_agent_comm.Prelude.Dict.{Dict}
use robotsix_agent_comm.Prelude.Text.{text_drop, starts_with_text}
use robotsix_agent_comm.Broker.State.{Server, invert_tokens}
use robotsix_agent_comm.Broker.Http.{Request, query_or}
use robotsix_agent_comm.Broker.Auth.{proceed, authenticate, authenticate_header, authenticate_query}

-- The token that a request shows: the text behind `Bearer ` in its header, or, without a header and
-- where that is allowed, the one in its query.
pub data Shows (r : Request) (allow_query_token : Bool) (token : String) : Type 0 where
  in_header :
      r.authorization ≢ ""
      → starts_with_text "Bearer " r.authorization ≡ true
      → token ≡ text_drop 7 r.authorization
      → Shows r allow_query_token token
  in_query :
      r.authorization ≡ ""
      → allow_query_token ≡ true
      → token ≢ ""
      → token ≡ query_or "token" "" r
      → Shows r allow_query_token token

module _ (s : Server) (r : Request) (b : Bool) where
  header_sound :
      (a : String)
      → r.authorization ≢ ""
      → authenticate_header s r.authorization ≡ proceed a
      → (token : String) × Shows r b token × (Dict.lookup token s.token_to_agent ≡ some a)
  unfolding authenticate_header
  header_sound a present h =
      (text_drop 7 r.authorization, in_header present (ground arith) refl, ground arith)

  query_sound :
      (a : String)
      → r.authorization ≡ ""
      → authenticate_query s b r ≡ proceed a
      → (token : String) × Shows r b token × (Dict.lookup token s.token_to_agent ≡ some a)
  unfolding authenticate_query
  query_sound a absent h =
      let token = query_or "token" "" r in
      (
        token,
        in_query absent (ground arith) (λ e. ground (arith, eq_iff token "", e)) refl,
        ground (arith, eq_iff token ""),
      )

  -- Where authentication is on, a request passes as an agent only with a token that the server's
  -- table maps to that agent.
  pub authenticate_sound :
      (tokens : Dict String) (a : String)
      → s.agent_tokens ≡ some tokens
      → authenticate s b r ≡ proceed a
      → (token : String) × Shows r b token × (Dict.lookup token s.token_to_agent ≡ some a)
  unfolding authenticate
  authenticate_sound tokens a on h = elim (Bool-cases (str_eq r.authorization "")) [
    | inl e ↦ query_sound a ((eq_iff r.authorization "").0 e) (ground (arith, on, e))
    | inr e ↦
        header_sound a (λ q. ground (arith, eq_iff r.authorization "", q)) (ground (arith, on, e))
  ]

invert_sound :
    (d inverse : Dict String) (t a : String)
    → Dict.IsDict d
    → Dict.lookup t (invert_tokens d inverse) ≡ some a
    → (Dict.lookup a d ≡ some t) ⊎ (Dict.lookup t inverse ≡ some a)
unfolding invert_tokens Dict.lookup
invert_sound [] inverse t a u h = inr h
invert_sound ((k, tok) ∷ d) inverse t a u h =
    elim (invert_sound d (Dict.insert tok k inverse) t a u.1 h) [
      | inl e ↦ inl (ground (arith, u.0, e, eq_iff k a))
      | inr e ↦ ground (arith, e, Dict.lookup-insert tok t k inverse, eq_iff tok t, eq_iff k a)
    ]

-- On a server that keeps the token table of its constructor, with each agent configured once, a
-- request passes as an agent only if it shows that agent's own token.
pub authenticate_owner :
    (s : Server) (r : Request) (b : Bool) (tokens : Dict String) (a : String)
    → s.agent_tokens ≡ some tokens
    → s.token_to_agent ≡ invert_tokens tokens []
    → Dict.IsDict tokens
    → authenticate s b r ≡ proceed a
    → (token : String) × Shows r b token × (Dict.lookup a tokens ≡ some token)
authenticate_owner s r b tokens a on table u h =
    let (token, shown, known) = authenticate_sound s r b tokens a on h in
    (
      token,
      shown,
      elim (invert_sound tokens [] token a u (ap (Dict.lookup token) (sym table) ∙ known)) [
        | inl e ↦ e
        | inr e ↦ absurd (unfold Dict.lookup in cc e)
      ],
    )
