-- ===== src/Transport/Registry/Abstract.antt =====
-- The registry up to the order in which agents have registered: a finite map from ids to endpoints.
use mathlib.Core.HLevel.{hedberg, Π_prop}
use mathlib.Core.Quot
use mathlib.Core.Quot.{Quot, Quot-set}
use robotsix_agent_comm.Prelude.{
  String, Option, none, some, Bool-cases, inl, inr, str_eq, eq_iff, if◌then◌else◌, ◌≡◌, ◌≢◌, ◌↔◌,
  ap, arith,
}
use robotsix_agent_comm.Transport.Endpoints.{Endpoint}
use robotsix_agent_comm.Transport.Registry.{Registry, register, unregister_quietly, lookup}
use robotsix_agent_comm.Transport.Registry.Laws.{lookup-register, lookup-unregister_quietly}

-- two registries that no `lookup` tells apart
abbrev pub SameEndpoints : Registry → Registry → Type 0
SameEndpoints r r' = (a : String) → lookup a r ≡ lookup a r'

abbrev pub Directory : Type 0
Directory = Quot SameEndpoints

text_set : IsSet String
text_set = hedberg (λ a b. elim (Bool-cases (str_eq a b)) [
  | inl e ↦ yes ((eq_iff a b).0 e)
  | inr e ↦ no (λ p. absurd (ground (arith, e, (eq_iff a b).1 p)))
])

pub endpoint_set : IsSet (Option Endpoint)
endpoint_set = hlevel (text_set)

-- `lookup`
unfoldable pub find : String → Directory → Option Endpoint
find a = Quot.lift endpoint_set (lookup a) (λ r r' h. h a)

pub register-SameEndpoints :
    (e : Endpoint) (r r' : Registry)
    → SameEndpoints r r'
    → SameEndpoints (register e r) (register e r')
register-SameEndpoints e r r' h a =
    ground (arith, lookup-register e r a, lookup-register e r' a, h a)

pub unregister_quietly-SameEndpoints :
    (b : String) (r r' : Registry)
    → SameEndpoints r r'
    → SameEndpoints (unregister_quietly b r) (unregister_quietly b r')
unregister_quietly-SameEndpoints b r r' h a =
    ground (arith, lookup-unregister_quietly b r a, lookup-unregister_quietly b r' a, h a)

-- `register`
unfoldable pub enter : Endpoint → Directory → Directory
enter e =
    Quot.lift Quot-set (λ r. Quot.mk (register e r))
      (λ r r' h. Quot.sound (register-SameEndpoints e r r' h))

-- `unregister`
unfoldable pub leave : String → Directory → Directory
leave b =
    Quot.lift Quot-set (λ r. Quot.mk (unregister_quietly b r))
      (λ r r' h. Quot.sound (unregister_quietly-SameEndpoints b r r' h))

find_same : (x y : Directory) → ((a : String) → find a x ≡ find a y) → x ≡ y
unfolding find
find_same =
    Quot.ind {β = λ x. (y : Directory) → ((a : String) → find a x ≡ find a y) → x ≡ y}
      (λ x. Π_prop (λ y. Π_prop (λ h. Quot-set x y)))
      (λ r.
        Quot.ind {β = λ y. ((a : String) → lookup a r ≡ find a y) → Quot.mk r ≡ y}
          (λ y. Π_prop (λ h. Quot-set (Quot.mk r) y)) (λ r' h. Quot.sound h))

-- Two directories are equal exactly when they have the same endpoints.
pub find_ext : (x y : Directory) → (x ≡ y) ↔ ((a : String) → find a x ≡ find a y)
find_ext x y = (λ p a. ap (find a) p, find_same x y)

pub find-enter :
    (a : String) (e : Endpoint) (x : Directory)
    → find a (enter e x) ≡ (if str_eq e.agent_id a then some e else find a x)
unfolding find enter
find-enter a e = Quot.ind (λ x. endpoint_set _ _) (λ r. lookup-register e r a)

pub find-leave :
    (a b : String) (x : Directory) → find a (leave b x) ≡ (if str_eq b a then none else find a x)
unfolding find leave
find-leave a b = Quot.ind (λ x. endpoint_set _ _) (λ r. lookup-unregister_quietly b r a)

module _ (x : Directory) where
  pub enter_comm :
      (e f : Endpoint) → e.agent_id ≢ f.agent_id → enter e (enter f x) ≡ enter f (enter e x)
  enter_comm e f n = (find_ext _ _).1 (λ a. ground (
    arith,
    n,
    find-enter a e (enter f x),
    find-enter a f x,
    find-enter a f (enter e x),
    find-enter a e x,
    eq_iff e.agent_id a,
    eq_iff f.agent_id a,
  ))
