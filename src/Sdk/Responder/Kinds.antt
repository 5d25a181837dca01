-- ===== src/Sdk/Responder/Kinds.antt =====
-- sdk/responder.py: the kinds that a responder advertises.
use Prim.Native.String.{compare}
use text.Mathlib.Text.{is_lt}
use robotsix_agent_comm.Prelude.{
  String, Bool, true, false, ◌||◌, Option, none, some, List, [], ◌∷◌, ◌++◌, map, if◌then◌else◌,
  str_eq, eq_iff, is_some, ◌≡◌, refl, arith, Bool-cases, Option-cases, inl, inr,
}
use robotsix_agent_comm.Prelude.Dict.{Dict, lookup, lookup-insert}
use robotsix_agent_comm.Protocol.Value.{str, arr, Fields, field, end, Items, nil, cons}
use robotsix_agent_comm.Sdk.Responder.{
  Handler, Responder, base_responder, base_method, lookup_handler, register_handler,
}

-- `k in xs`
abbrev pub contains : String → List String → Bool
contains k [] = false
contains k (x ∷ xs) = str_eq x k || contains k xs

unfoldable insert_sorted : String → List String → List String
insert_sorted x [] = x ∷ []
insert_sorted x (y ∷ ys) = if is_lt (compare y x) then y ∷ insert_sorted x ys else x ∷ y ∷ ys

-- `sorted`
unfoldable sort : List String → List String
unfolding insert_sorted
sort [] = []
sort (x ∷ xs) = insert_sorted x (sort xs)

-- the keys of `d` that are not in `xs`
unfoldable other_keys {ℓ} : {V : Type ℓ} → List String → Dict V → List String
other_keys xs [] = []
other_keys xs ((k, v) ∷ d) = let rest = other_keys xs d in if contains k xs then rest else k ∷ rest

-- `supported_kinds`
unfoldable pub supported_kinds : Responder → List String
unfolding sort other_keys
supported_kinds r = let names = map (λ e. e.0) r.builtin in sort (names ++ other_keys names r.extra)

abbrev pub texts_of : List String → Items
texts_of [] = nil
texts_of (k ∷ ks) = cons (str k) (texts_of ks)

-- `_registration_capabilities`
unfoldable pub registration_capabilities : Responder → Fields
unfolding supported_kinds
registration_capabilities r = field "supported_kinds" (arr (texts_of (supported_kinds r))) end

contains-insert_sorted :
    (k x : String) (ys : List String)
    → contains k (insert_sorted x ys) ≡ (str_eq x k || contains k ys)
unfolding insert_sorted
contains-insert_sorted k x [] = refl
contains-insert_sorted k x (y ∷ ys) = ground (arith, contains-insert_sorted k x ys)

contains-sort : (k : String) (xs : List String) → contains k (sort xs) ≡ contains k xs
unfolding sort
contains-sort k [] = refl
contains-sort k (x ∷ xs) = ground (arith, contains-insert_sorted k x (sort xs), contains-sort k xs)

contains-append :
    (k : String) (xs ys : List String) → contains k (xs ++ ys) ≡ (contains k xs || contains k ys)
contains-append k [] ys = refl
contains-append k (x ∷ xs) ys = ground (arith, contains-append k xs ys)

contains-keys {ℓ} :
    {V : Type ℓ} (k : String) (d : Dict V) → contains k (map (λ e. e.0) d) ≡ is_some (lookup k d)
unfolding lookup
contains-keys k [] = refl
contains-keys k ((j, v) ∷ d) = ground (arith, contains-keys k d)

contains-other_keys {ℓ} :
    {V : Type ℓ} (k : String) (xs : List String) (d : Dict V)
    → (contains k xs || contains k (other_keys xs d)) ≡ (contains k xs || is_some (lookup k d))
unfolding other_keys lookup
contains-other_keys k xs [] = refl
contains-other_keys k xs ((j, v) ∷ d) = ground (arith, eq_iff j k, contains-other_keys k xs d)

-- every built-in kind names a method that is there
abbrev pub HasMethods : Responder → Type 0
HasMethods r =
    (kind name : String) → lookup kind r.builtin ≡ some name → is_some (r.method name) ≡ true

is_some-if :
    (b : Bool) (h : Handler) (o : Option Handler)
    → is_some (if b then some h else o) ≡ (b || is_some o)
is_some-if true h o = refl
is_some-if false h o = refl

pub base_responder-HasMethods :
    (agent_id : String) (extra : Dict Handler)
    → HasMethods (record (base_responder agent_id) { extra = extra })
unfolding lookup base_method
base_responder-HasMethods agent_id extra kind name e = ground (
  arith,
  e,
  eq_iff name "handle_monitor",
  eq_iff name "handle_config_get",
  eq_iff name "handle_config_set",
  is_some-if (str_eq name "handle_monitor") _ _,
  is_some-if (str_eq name "handle_config_get") _ _,
  is_some-if (str_eq name "handle_config_set") _ none,
)

is_some-lookup_handler :
    (r : Responder)
    → HasMethods r
    → (kind : String)
    → is_some (lookup_handler r kind)
      ≡ (is_some (lookup kind r.builtin) || is_some (lookup kind r.extra))
unfolding lookup_handler
is_some-lookup_handler r has kind = elim (Option-cases (lookup kind r.extra)) [
  | inr (h, e) ↦ rw (e) (ground arith)
  | inl e ↦ elim (Option-cases (lookup kind r.builtin)) [
    | inl b ↦ rw (e, b) refl
    | inr (name, b) ↦ rw (e, b) (ground (arith, has kind name b))
  ]
]

-- A responder advertises exactly the kinds that it has a handler for, if its class has the methods
-- that its table of built-in kinds names.
pub supported_kinds_lem :
    (r : Responder)
    → HasMethods r
    → (kind : String) → contains kind (supported_kinds r) ≡ is_some (lookup_handler r kind)
unfolding supported_kinds
supported_kinds_lem r has kind =
    let names = map (λ e. e.0) r.builtin in
    ground (
      arith,
      contains-sort kind (names ++ other_keys names r.extra),
      contains-append kind names (other_keys names r.extra),
      contains-other_keys kind names r.extra,
      contains-keys kind r.builtin,
      is_some-lookup_handler r has kind,
    )

-- A handler that is registered serves its kind from then on, a built-in one too, and no other kind.
pub lookup_handler-register_handler :
    (r : Responder) (kind other : String) (h : Handler)
    → lookup_handler (register_handler kind h r) other
      ≡ (if str_eq kind other then some h else lookup_handler r other)
unfolding lookup_handler register_handler
lookup_handler-register_handler r kind other h = elim (Bool-cases (str_eq kind other)) [
  | inl e ↦ rw (lookup-insert kind other h r.extra, e) refl
  | inr e ↦ rw (lookup-insert kind other h r.extra, e) refl
]
