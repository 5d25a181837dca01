-- ===== src/Protocol/Errors.antt =====
-- The exceptions of protocol/validation.py, and results of code that may raise.
use robotsix_agent_comm.Prelude.{String, Bool, true, false, List, ◌≡◌, refl, ◌⊎◌, inl, inr}
use robotsix_agent_comm.Protocol.Value.{Value}

-- `ProtocolError`: `unsupported_version` is `UnsupportedVersionError`, the others are
-- `ValidationError` with the message that each names.
pub data ProtocolError : Type 0 where
  missing_fields : List String → ProtocolError
  cannot_validate : ProtocolError
  bad_message_id : ProtocolError
  unknown_type : Value → ProtocolError
  version_not_text : ProtocolError
  invalid_version : String → ProtocolError
  unsupported_version : String → ProtocolError
  metadata_not_mapping : ProtocolError
  bad_sender : ProtocolError
  bad_timestamp : ProtocolError
  body_not_mapping : ProtocolError
  bad_correlation_id : ProtocolError
  response_uncorrelated : ProtocolError
  request_correlated : ProtocolError
  notification_correlated : ProtocolError
  invalid_json : ProtocolError
  not_an_object : ProtocolError

-- Exceptions that are no `ProtocolError`, so that no handler of those catches them.
-- `not_followed` marks what the model does not follow: a call `dict(v)` of a list that gives a key
-- which is a number, a Boolean or null, and a loop over the keys of an object.
pub data Fault : Type 0 where
  type_error value_error not_followed : Fault

pub data Result {ℓ} (A : Type ℓ) : Type ℓ where
  ok : A → Result A
  err : ProtocolError → Result A
  fault : Fault → Result A

infixl 5 ◌>>=◌ ◌>>◌
abbrev pub ◌>>=◌ {ℓ κ} : {A : Type ℓ} {B : Type κ} → Result A → (A → Result B) → Result B
ok a >>= f = f a
err e >>= f = err e
fault e >>= f = fault e

abbrev pub ◌>>◌ {ℓ} : {B : Type ℓ} → Result (Unit {0}) → Result B → Result B
m >> k = m >>= λ _. k

-- `if not b: raise e`
abbrev pub require : Bool → ProtocolError → Result (Unit {0})
require true e = ok tt
require false e = err e

pub Result-cases {ℓ} :
    {A : Type ℓ} (r : Result A)
    → ((a : A) × (r ≡ ok a)) ⊎ ((e : ProtocolError) × (r ≡ err e)) ⊎ ((f : Fault) × (r ≡ fault f))
Result-cases (ok a) = inl (a, refl)
Result-cases (err e) = inr (inl (e, refl))
Result-cases (fault f) = inr (inr (f, refl))

pub >>-eq-ok {ℓ} :
    {B : Type ℓ} (m : Result (Unit {0})) (k : Result B) {b : B}
    → (m >> k) ≡ ok b
    → (m ≡ ok tt) × (k ≡ ok b)
>>-eq-ok (ok tt) k h = (refl, h)
>>-eq-ok (err e) k h = cc
>>-eq-ok (fault e) k h = cc
