-- ===== src/Protocol/Redaction/Secrets.antt =====
-- protocol/config_contract.py: which values `SecretRedactor` hides.
use text.Mathlib.Text.{starts_with}
use text.Mathlib.TextEquality.{starts_with_iff}
use text.Mathlib.TextLemmas.{nil-append, cons-append, append-eq-nil_iff, tail-eq_of_cons-eq}
use robotsix_agent_comm.Prelude.{
  String, true, List, [], ◌∷◌, ◌++◌, ◌≡◌, ◌↔◌, ◌⊎◌, refl, sym, ap, ◌∙◌, arith, Bool-cases, inl, inr,
}
use robotsix_agent_comm.Prelude.Text.{concat}
use robotsix_agent_comm.Protocol.Value.{Value, str}
use robotsix_agent_comm.Protocol.Redaction.{occurs, is_secret, redact_value}

-- the pattern is a substring of the key
abbrev pub IsIn : String → String → Type 0
IsIn pattern key = (a : String) × (b : String) × (concat a (concat pattern b) ≡ key)

found : (p s : String) → starts_with s p ≡ true → IsIn p s
found p s e = let (u, q) = (starts_with_iff s p).0 e in ("", u, nil-append (concat p u) ∙ q)

occurs_sound : (p key : String) → occurs p key ≡ true → IsIn p key
unfolding occurs
occurs_sound p String.[] e = found p "" e
occurs_sound p (String.◌∷◌ c s) e = elim (Bool-cases (starts_with (String.◌∷◌ c s) p)) [
  | inl q ↦ found p (String.◌∷◌ c s) q
  | inr q ↦
      let (a, b, h) = occurs_sound p s (ground (arith, e, q)) in
      (String.◌∷◌ c a, b, cons-append c a (concat p b) ∙ ap (λ t. String.◌∷◌ c t) h)
]

occurs_complete : (p a b key : String) → concat a (concat p b) ≡ key → occurs p key ≡ true
unfolding occurs
occurs_complete p a b String.[] h = (starts_with_iff "" p).1 (b, (append-eq-nil_iff.0 h).1)
occurs_complete p String.[] b (String.◌∷◌ c s) h =
    let first : starts_with (String.◌∷◌ c s) p ≡ true =
      (starts_with_iff (String.◌∷◌ c s) p).1 (b, sym (nil-append (concat p b)) ∙ h) in
    rw (first) refl
occurs_complete p (String.◌∷◌ d a) b (String.◌∷◌ c s) h =
    let rest =
      occurs_complete p a b s (tail-eq_of_cons-eq (sym (cons-append d a (concat p b)) ∙ h)) in
    ground (arith, rest)

pub occurs_iff : (p key : String) → (occurs p key ≡ true) ↔ IsIn p key
occurs_iff p key = (occurs_sound p key, λ h. occurs_complete p h.0 h.1 key h.2)

is_secret-append :
    (key : String) (ps : List String) (p : String) (qs : List String)
    → IsIn p key
    → is_secret key (ps ++ p ∷ qs) ≡ true
unfolding is_secret
is_secret-append key [] p qs h = rw ((occurs_iff p key).1 h) refl
is_secret-append key (x ∷ ps) p qs h =
    let rest = is_secret-append key ps p qs h in ground (arith, rest)

-- one of the patterns is a substring of the key
abbrev pub HasSecret : String → List String → Type 0
HasSecret key patterns =
    (ps : List String) × (p : String) × (qs : List String) × (patterns ≡ ps ++ p ∷ qs) × IsIn p key

is_secret_sound : (key : String) (ps : List String) → is_secret key ps ≡ true → HasSecret key ps
unfolding is_secret
is_secret_sound key [] e = absurd (ground (arith, e))
is_secret_sound key (p ∷ ps) e = elim (Bool-cases (occurs p key)) [
  | inl q ↦ ([], p, ps, refl, (occurs_iff p key).0 q)
  | inr q ↦
      let (rs, r, ts, same, h) = is_secret_sound key ps (ground (arith, e, q)) in
      (p ∷ rs, r, ts, ap (λ xs. p ∷ xs) same, h)
]

-- The value of a key is replaced by the sentinel where one of the patterns is a substring of the key,
-- and kept as it is where none is.
pub redact_value_lem :
    (key : String) (v : Value) (ps : List String)
    → (HasSecret key ps × (redact_value key v ps ≡ str "***"))
      ⊎ ((¬ HasSecret key ps) × (redact_value key v ps ≡ v))
unfolding redact_value
redact_value_lem key v ps = elim (Bool-cases (is_secret key ps)) [
  | inl e ↦ inl (is_secret_sound key ps e, rw (e) refl)
  | inr e ↦ inr (
    λ (rs, r, ts, same, h).
        ground (arith, e, ap (is_secret key) same, is_secret-append key rs r ts h),
    rw (e) refl,
  )
]
