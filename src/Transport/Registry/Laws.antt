-- ===== src/Transport/Registry/Laws.antt =====
-- The registry as a map from ids to endpoints.
use robotsix_agent_comm.Prelude.{
  String, none, some, ◌≡◌, ◌↔◌, refl, arith, str_eq, eq_iff, if◌then◌else◌, [], ◌∷◌, sym,
  Bool-cases, inl, inr, is_some,
}
use robotsix_agent_comm.Prelude.Dict
use robotsix_agent_comm.Prelude.Dict.{lookup-insert, lookup-remove}
use robotsix_agent_comm.Transport.Endpoints.{Endpoint}
use robotsix_agent_comm.Transport.Registry.{
  Registry, register, unregister, unregister_quietly, lookup,
}

pub lookup-register :
    (e : Endpoint) (r : Registry) (a : String)
    → lookup a (register e r) ≡ (if str_eq e.agent_id a then some e else lookup a r)
unfolding lookup register
lookup-register e r a = lookup-insert e.agent_id a e r.endpoints

pub lookup-unregister_quietly :
    (b : String) (r : Registry) (a : String)
    → lookup a (unregister_quietly b r) ≡ (if str_eq b a then none else lookup a r)
unfolding lookup unregister_quietly
lookup-unregister_quietly b r a = ground (arith, lookup-remove b a r.endpoints, eq_iff b a)

-- Removing an agent raises exactly when the agent is not registered.
unregister_iff : (a : String) (r : Registry) → (unregister a r ≡ none) ↔ (lookup a r ≡ none)
unfolding lookup unregister
unregister_iff a r = (λ h. ground arith, λ h. ground arith)

-- No id stands twice, and each endpoint stands under its own id.
abbrev pub Named : Dict.Dict Endpoint → Type 0
Named [] = Unit
Named ((k, e) ∷ d) = (e.agent_id ≡ k) × Named d

pub record IsRegistry (r : Registry) : Type 0 where
  pub distinct : Dict.IsDict r.endpoints
  pub names : Named r.endpoints

insert-Named :
    (e : Endpoint) (d : Dict.Dict Endpoint) → Named d → Named (Dict.insert e.agent_id e d)
unfolding Dict.insert
insert-Named e [] h = (refl, tt)
insert-Named e ((j, x) ∷ d) h = elim (Bool-cases (str_eq j e.agent_id)) [
  | inl q ↦ rw q (sym ((eq_iff j e.agent_id).0 q), h.1)
  | inr q ↦ rw q (h.0, insert-Named e d h.1)
]

remove-Named : (k : String) (d : Dict.Dict Endpoint) → Named d → Named (Dict.remove k d)
unfolding Dict.remove
remove-Named k [] h = tt
remove-Named k ((j, x) ∷ d) h = elim (Bool-cases (str_eq j k)) [
  | inl q ↦ rw q (remove-Named k d h.1)
  | inr q ↦ rw q (h.0, remove-Named k d h.1)
]

pub register-IsRegistry : (e : Endpoint) {r : Registry} → IsRegistry r → IsRegistry (register e r)
unfolding register
register-IsRegistry e h = record {
  distinct = Dict.insert-IsDict e.agent_id e _ h.distinct;
  names = insert-Named e _ h.names;
}

pub unregister_quietly-IsRegistry :
    (a : String) {r : Registry} → IsRegistry r → IsRegistry (unregister_quietly a r)
unfolding unregister_quietly
unregister_quietly-IsRegistry a {r} h = elim (Bool-cases (is_some (Dict.lookup a r.endpoints))) [
  | inl q ↦
      rw (q, unregister_quietly)
        (record { distinct = Dict.remove-IsDict a _ h.distinct; names = remove-Named a _ h.names })
  | inr q ↦ rw (q, unregister_quietly) h
]

pub ruleset registry_laws = (lookup-register, lookup-unregister_quietly)
