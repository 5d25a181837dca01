-- ===== src/Prelude/Dict.antt =====
-- Python's `dict` with text keys, as an association list in insertion order: an assignment to a
-- present key keeps the key's place.
use Prim.Native.String.{String}
use mathlib.Core.Path.{◌≡◌, refl}
use mathlib.Core.Logic.{inl, inr}
use mathlib.Core.Option.{Option, none, some}
use mathlib.Core.List.{List, [], ◌∷◌, map}
use native.Mathlib.Omega.{arith}
use text.Mathlib.Text.{◌==◌}
use text.Mathlib.TextEquality.{eq_iff}
use robotsix_agent_comm.Prelude.Tests.{if◌then◌else◌, is_some, Bool-cases}

abbrev pub Dict {ℓ} : Type ℓ → Type ℓ
Dict V = List (String × V)

module _ {ℓ} {V : Type ℓ} where
  -- `d.get(k)`
  unfoldable pub lookup : String → Dict V → Option V
  lookup k [] = none
  lookup k ((j, v) ∷ d) = if j == k then some v else lookup k d

  -- `d[k] = v`
  unfoldable pub insert : String → V → Dict V → Dict V
  insert k v [] = (k, v) ∷ []
  insert k v ((j, w) ∷ d) = if j == k then (j, v) ∷ d else (j, w) ∷ insert k v d

  -- `d.pop(k, None)`
  unfoldable pub remove : String → Dict V → Dict V
  remove k [] = []
  remove k ((j, v) ∷ d) = let rest = remove k d in if j == k then rest else (j, v) ∷ rest

  -- `d.setdefault(k, v)`
  unfoldable pub set_default : String → V → Dict V → Dict V
  set_default k v d = if is_some (lookup k d) then d else insert k v d

  -- `list(d.values())`
  unfoldable pub values : Dict V → List V
  values d = map (λ e. e.1) d

  pub lookup-insert :
      (k j : String) (v : V) (d : Dict V)
      → lookup j (insert k v d) ≡ (if k == j then some v else lookup j d)
  unfolding lookup insert
  lookup-insert k j v [] = refl
  lookup-insert k j v ((i, w) ∷ d) =
      ground (arith, eq_iff k j, eq_iff i k, eq_iff i j, lookup-insert k j v d)

  pub lookup-remove :
      (k j : String) (d : Dict V) → lookup j (remove k d) ≡ (if k == j then none else lookup j d)
  unfolding lookup remove
  lookup-remove k j [] = ground arith
  lookup-remove k j ((i, w) ∷ d) =
      ground (arith, eq_iff k j, eq_iff i k, eq_iff i j, lookup-remove k j d)

  pub lookup-set_default :
      (k j : String) (v : V) (d : Dict V)
      → lookup j (set_default k v d)
        ≡ (if is_some (lookup j d) then lookup j d else if k == j then some v else none)
  unfolding set_default
  lookup-set_default k j v d = ground (arith, eq_iff k j, lookup-insert k j v d)

  pub insert_same : (k : String) (v : V) (d : Dict V) → lookup k d ≡ some v → insert k v d ≡ d
  unfolding lookup insert
  insert_same k v [] h = absurd (ground (arith, h))
  insert_same k v ((j, w) ∷ d) h = elim (Bool-cases (j == k)) [
    | inl e ↦ ground (arith, e, h)
    | inr e ↦ ground (arith, e, insert_same k v d (ground (arith, e, h)))
  ]

  -- No key stands twice.
  abbrev pub IsDict : Dict V → Type ℓ
  IsDict [] = Unit
  IsDict ((k, v) ∷ d) = (lookup k d ≡ none) × IsDict d

  pub insert-IsDict : (k : String) (v : V) (d : Dict V) → IsDict d → IsDict (insert k v d)
  unfolding insert lookup
  insert-IsDict k v [] h = (refl, tt)
  insert-IsDict k v ((j, w) ∷ d) h = elim (Bool-cases (j == k)) [
    | inl e ↦ rw e h
    | inr e ↦ rw e (
      ground (arith, h.0, e, lookup-insert k j v d, eq_iff k j, eq_iff j k),
      insert-IsDict k v d h.1,
    )
  ]

  pub remove-IsDict : (k : String) (d : Dict V) → IsDict d → IsDict (remove k d)
  unfolding remove lookup
  remove-IsDict k [] h = tt
  remove-IsDict k ((j, w) ∷ d) h = elim (Bool-cases (j == k)) [
    | inl e ↦ rw e (remove-IsDict k d h.1)
    | inr e ↦ rw e (ground (arith, h.0, lookup-remove k j d), remove-IsDict k d h.1)
  ]
