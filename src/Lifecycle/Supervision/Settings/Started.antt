-- ===== src/Lifecycle/Supervision/Settings/Started.antt =====
-- lifecycle/supervision.py: the configuration that `SupervisionConfig.from_env` returns.
use robotsix_agent_comm.Prelude.{
  String, Option, none, some, List, [], All, or_else, Option-cases, ◌≡◌, refl, sym, ap, ◌∙◌, arith,
  inl, inr,
}
use robotsix_agent_comm.Prelude.Int.{ℤ}
use robotsix_agent_comm.Prelude.Dict.{Dict, lookup}
use robotsix_agent_comm.Broker.Config.{get_or}
use robotsix_agent_comm.Lifecycle.Supervision.{SupervisionConfig, validate}
use robotsix_agent_comm.Lifecycle.Supervision.Service.{IsValid}
use robotsix_agent_comm.Lifecycle.Supervision.Settings.{
  parse_service_list, Loaded, loaded, bad_number, rejected, ◌>>=◌, read_env, validated, from_env,
}
use robotsix_agent_comm.Lifecycle.Supervision.Settings.Listed.{
  IsName, write_services, parse_service_list-write_services, parse_service_list-AreNames,
}

-- A chain that returns has a step that returns.
by_step {ℓ κ μ} :
    {A : Type ℓ} {B : Type κ} (x : Loaded A) (f : A → Loaded B) (b : B) (P : Type μ)
    → ((a : A) → x ≡ loaded a → f a ≡ loaded b → P)
    → (x >>= f) ≡ loaded b
    → P
unfolding ◌>>=◌
by_step (loaded a) f b P h e = h a refl e
by_step (bad_number key) f b P h e = absurd (ground (arith, e))
by_step (rejected why) f b P h e = absurd (ground (arith, e))

abbrev services_var : Dict String → String
services_var env = get_or env "ROBOTSIX_SUPERVISION_SERVICES" ""

abbrev services_of : Loaded SupervisionConfig → List String
services_of (loaded c) = c.services
services_of _ = []

read_env-services :
    (float_of : String → Option ℤ) (env : Dict String) (c : SupervisionConfig)
    → read_env float_of env ≡ loaded c
    → c.services ≡ parse_service_list (services_var env)
unfolding read_env
read_env-services float_of env c =
    let P : Type 0 = c.services ≡ parse_service_list (services_var env) in
    by_step _ _ c P (λ poll _. by_step _ _ c P (λ health _. by_step _ _ c P (λ attempts _.
      by_step _ _ c P (λ base _. by_step _ _ c P (λ most _.
        by_step _ _ c P (λ cooldown _. by_step _ _ c P (λ port _ e. sym (ap services_of e))))))))

validated_lem : (d c : SupervisionConfig) → validated d ≡ loaded c → (d ≡ c) × (validate d ≡ none)
validated_lem d c e = elim (Option-cases (validate d)) [
  | inl q ↦ (ground (arith, e, q), q)
  | inr (x, q) ↦ absurd (ground (arith, e, q))
]

-- A supervision configuration that `from_env` returns, from whatever environment, passes `validate`,
-- and each of its services has a name with no white space and no comma, which is not empty. Where the
-- variable of the services holds such names with commas between them, the configuration has these
-- services, all of them, in order; where it is not set, it has none.
pub from_env_lem :
    (float_of : String → Option ℤ) (env : Dict String) (c : SupervisionConfig)
    → from_env float_of env ≡ loaded c
    → IsValid c
      × All IsName c.services
      × ((ss : List String)
          → lookup "ROBOTSIX_SUPERVISION_SERVICES" env ≡ some (write_services ss)
          → All IsName ss
          → c.services ≡ ss)
      × (lookup "ROBOTSIX_SUPERVISION_SERVICES" env ≡ none → c.services ≡ [])
unfolding from_env write_services
from_env_lem float_of env c e =
    let P : Type 0 = IsValid c × (c.services ≡ parse_service_list (services_var env)) in
    let (valid, read) =
      by_step (read_env float_of env) validated c P
        (λ d read h.
          let (same, valid) = validated_lem d c h in
          (
            rw (sym same) valid,
            ap (λ x. x.services) (sym same) ∙ read_env-services float_of env d read,
          ))
        e in
    (
      valid,
      rw (read) (parse_service_list-AreNames (services_var env)),
      λ ss written names.
          read
          ∙ ap (λ o. parse_service_list (or_else o "")) written
          ∙ parse_service_list-write_services ss names,
      λ unset.
          read
          ∙ ap (λ o. parse_service_list (or_else o "")) unset
          ∙ parse_service_list-write_services [] tt,
    )
