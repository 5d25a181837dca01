-- ===== src/Brokered/Wire/Shown.antt =====
-- transport/brokered.py and broker/server.py: who a client's token makes it.
use robotsix_agent_comm.Prelude.{
  String, Bool, false, none, some, [], ◌∷◌, str_eq, eq_iff, ◌≡◌, ◌≢◌, refl, ap, ◌∙◌, arith,
  Bool-cases, inl, inr,
}
use robotsix_agent_comm.Prelude.Dict
use robotsix_agent_comm.Prelude.Dict.{Dict}
use robotsix_agent_comm.Prelude.Text.{starts_with_text, starts_with_codes, codes, text_drop}
use robotsix_agent_comm.Broker.State.{Server, invert_tokens}
use robotsix_agent_comm.Broker.Http.{Method}
use robotsix_agent_comm.Broker.Config.Tokens.Written.{join-nonempty}
use robotsix_agent_comm.Broker.Auth.{authenticate, authenticate_header, proceed}
use robotsix_agent_comm.Protocol.Serialization.{Payload}
use robotsix_agent_comm.Brokered.Wire.{Wire, auth_header, request_of}

-- no two agents have the same token
abbrev pub Unshared : Dict String → Type 0
Unshared tokens =
    (a b t : String) → Dict.lookup a tokens ≡ some t → Dict.lookup b tokens ≡ some t → a ≡ b

deeper :
    (k tok : String) (d : Dict String) (b t : String)
    → Dict.lookup k d ≡ none
    → Dict.lookup b d ≡ some t
    → Dict.lookup b ((k, tok) ∷ d) ≡ some t
unfolding Dict.lookup
deeper k tok d b t absent h = elim (Bool-cases (str_eq k b)) [
  | inl e ↦
      let same : k ≡ b = (eq_iff k b).0 e in
      absurd (ground (arith, absent, h, ap (λ x. Dict.lookup x d) same))
  | inr e ↦ rw (e) h
]

inserted_other :
    (k tok : String) (d inverse : Dict String) (t : String)
    → Dict.lookup k ((k, tok) ∷ d) ≢ some t
    → Dict.lookup t (Dict.insert tok k inverse) ≡ Dict.lookup t inverse
unfolding Dict.lookup
inserted_other k tok d inverse t n =
    ground (arith, n, Dict.lookup-insert tok t k inverse, eq_iff tok t, eq_iff k k)

invert_other :
    (d inverse : Dict String) (t : String)
    → Dict.IsDict d
    → ((b : String) → Dict.lookup b d ≢ some t)
    → Dict.lookup t (invert_tokens d inverse) ≡ Dict.lookup t inverse
unfolding invert_tokens
invert_other [] inverse t u n = refl
invert_other ((k, tok) ∷ d) inverse t u n =
    invert_other d (Dict.insert tok k inverse) t u.1 (λ b h. n b (deeper k tok d b t u.0 h))
    ∙ inserted_other k tok d inverse t (n k)

invert_owner :
    (d inverse : Dict String) (a t : String)
    → Dict.IsDict d
    → Unshared d
    → Dict.lookup a d ≡ some t
    → Dict.lookup t (invert_tokens d inverse) ≡ some a
unfolding invert_tokens Dict.lookup
invert_owner [] inverse a t u v h = absurd (ground (arith, h))
invert_owner ((k, tok) ∷ d) inverse a t u v h = elim (Bool-cases (str_eq k a)) [
  | inl e ↦
      let same : k ≡ a = (eq_iff k a).0 e in
      let own : tok ≡ t = ground (arith, e, h) in
      let none_else : (b : String) → Dict.lookup b d ≢ some t = λ b p.
        let again : a ≡ b = v a b t h (deeper k tok d b t u.0 p) in
        absurd (ground (arith, u.0, p, ap (λ x. Dict.lookup x d) (same ∙ again))) in
      invert_other d (Dict.insert tok k inverse) t u.1 none_else
      ∙ ground (arith, same, own, eq_iff tok t, Dict.lookup-insert tok t k inverse)
  | inr e ↦
      invert_owner d (Dict.insert tok k inverse) a t u.1
        (λ b c x p q. v b c x (deeper k tok d b x u.0 p) (deeper k tok d c x u.0 q))
        (ground (arith, e, h))
]

header_present : (t : String) → str_eq (auth_header (some t)) "" ≡ false
unfolding auth_header
header_present t = join-nonempty "Bearer " t (λ e. cc)

bearer_known :
    (s : Server) (t a : String)
    → Dict.lookup t s.token_to_agent ≡ some a
    → authenticate_header s (auth_header (some t)) ≡ proceed a
unfolding authenticate_header auth_header starts_with_text starts_with_codes codes text_drop
bearer_known s t a h = rw (h) refl

-- The server has authentication on with the token table of its constructor, `t` is configured for the
-- agent `a`, and no other agent has it.
pub record Trusts (s : Server) (a t : String) : Type 0 where
  pub tokens : Dict String
  pub on : s.agent_tokens ≡ some tokens
  pub table : s.token_to_agent ≡ invert_tokens tokens []
  pub distinct : Dict.IsDict tokens
  pub unshared : Unshared tokens
  pub own : Dict.lookup a tokens ≡ some t

-- A client that has an agent's token is that agent to the broker, in whatever request it makes.
pub authenticate-request_of :
    (w : Wire) (method : Method) (path : String) (body : Payload) (b : Bool) (s : Server)
    (a t : String)
    → Trusts s a t
    → authenticate s b (request_of w (some t) method path body) ≡ proceed a
unfolding authenticate request_of
authenticate-request_of w method path body b s a t k =
    let known =
      ap (Dict.lookup t) k.table ∙ invert_owner k.tokens [] a t k.distinct k.unshared k.own in
    rw (k.on, header_present t) (bearer_known s t a known)
