-- ===== src/Lifecycle/Supervision/Settings/Listed.antt =====
-- lifecycle/supervision.py: the services that `_parse_service_list` finds in a text.
use Prim.Native.Char.{code}
use robotsix_agent_comm.Prelude.{
  String, false, Bool-cases, inl, inr, List, [], ◌∷◌, ◌==◌, str_eq, eq_iff, All, ◌≡◌, ◌≢◌, refl, ap,
  arith,
}
use robotsix_agent_comm.Prelude.Text.{is_space, join}
use robotsix_agent_comm.Broker.Config.Tokens.Written.{plain_char, IsMadeOf, join-nonempty}
use robotsix_agent_comm.Lifecycle.Supervision.Settings.{
  commas_to_spaces, with_word, words_from, not_empty, parse_service_list,
}

-- a name with no white space and no comma
abbrev pub IsName : String → Type 0
IsName s = (s ≢ "") × IsMadeOf plain_char s

-- `name1,name2`
unfoldable pub write_services : List String → String
write_services [] = ""
write_services (s ∷ []) = s
write_services (s ∷ t ∷ ss) = join s (join "," (write_services (t ∷ ss)))

commas_to_spaces-plain : (s : String) → IsMadeOf plain_char s → commas_to_spaces s ≡ s
unfolding commas_to_spaces
commas_to_spaces-plain String.[] h = refl
commas_to_spaces-plain (String.◌∷◌ c s) h =
    let other : (code c == b',') ≡ false = ground (arith, h.0) in
    rw (other) (ap (λ t. String.◌∷◌ c t) (commas_to_spaces-plain s h.1))

commas_to_spaces-append :
    (s t : String)
    → IsMadeOf plain_char s
    → commas_to_spaces (join s (join "," t)) ≡ join s (join " " (commas_to_spaces t))
unfolding commas_to_spaces
commas_to_spaces-append String.[] t h = refl
commas_to_spaces-append (String.◌∷◌ c s) t h =
    let other : (code c == b',') ≡ false = ground (arith, h.0) in
    rw (other) (ap (λ u. String.◌∷◌ c u) (commas_to_spaces-append s t h.1))

words_from-plain : (s : String) → IsMadeOf plain_char s → words_from s ≡ (s, [])
unfolding words_from
words_from-plain String.[] h = refl
words_from-plain (String.◌∷◌ c s) h =
    let dark : is_space (code c) ≡ false = ground (arith, h.0) in
    rw (dark, words_from-plain s h.1) refl

words_from-append :
    (s t : String)
    → IsMadeOf plain_char s
    → words_from (join s (join " " t)) ≡ (s, with_word (words_from t))
unfolding words_from is_space
words_from-append String.[] t h = refl
words_from-append (String.◌∷◌ c s) t h =
    let dark : is_space (code c) ≡ false = ground (arith, h.0) in
    rw (dark, words_from-append s t h.1) refl

name-kept : (s : String) (ss : List String) → IsName s → with_word (s, ss) ≡ s ∷ ss
name-kept s ss n =
    let given : str_eq s "" ≡ false = ground (arith, n.0, eq_iff s "") in rw (given) refl

words-write_services :
    (s : String) (ss : List String)
    → All IsName (s ∷ ss)
    → with_word (words_from (commas_to_spaces (write_services (s ∷ ss)))) ≡ s ∷ ss
unfolding write_services
words-write_services s [] n =
    rw (commas_to_spaces-plain s n.0.1, words_from-plain s n.0.1) (name-kept s [] n.0)
words-write_services s (t ∷ ss) n =
    rw
      (
        commas_to_spaces-append s (write_services (t ∷ ss)) n.0.1,
        words_from-append s (commas_to_spaces (write_services (t ∷ ss))) n.0.1,
        words-write_services t ss n.1,
      )
      (name-kept s (t ∷ ss) n.0)

not_empty-AreNames : (ss : List String) → All IsName ss → not_empty ss ≡ ss
not_empty-AreNames [] n = refl
not_empty-AreNames (s ∷ ss) n =
    let given : str_eq s "" ≡ false = ground (arith, n.0.0, eq_iff s "") in
    rw (given) (ap (λ t. s ∷ t) (not_empty-AreNames ss n.1))

write_services-nonempty :
    (s : String) (ss : List String) → IsName s → str_eq (write_services (s ∷ ss)) "" ≡ false
unfolding write_services
write_services-nonempty s [] n = ground (arith, n.0, eq_iff s "")
write_services-nonempty s (t ∷ ss) n = join-nonempty s (join "," (write_services (t ∷ ss))) n.0

-- Services that are written with commas between them, under names with no comma and no white space,
-- are read back, all of them, in order and with their repetitions.
pub parse_service_list-write_services :
    (ss : List String) → All IsName ss → parse_service_list (write_services ss) ≡ ss
unfolding parse_service_list write_services
parse_service_list-write_services [] n = refl
parse_service_list-write_services (s ∷ ss) n =
    rw (write_services-nonempty s ss n.0, words-write_services s ss n)
      (not_empty-AreNames (s ∷ ss) n)

-- a word that is perhaps empty, with no white space and no comma, and names after it
abbrev AreWords : String × List String → Type 0
AreWords (w, ws) = IsMadeOf plain_char w × All IsName ws

with_word-AreNames : (x : String × List String) → AreWords x → All IsName (with_word x)
with_word-AreNames (w, ws) (p, n) = elim (Bool-cases (str_eq w "")) [
  | inl e ↦ rw (e) n
  | inr e ↦ rw (e) ((λ q. ground (arith, e, eq_iff w "", q), p), n)
]

words_from-AreWords : (s : String) → AreWords (words_from (commas_to_spaces s))
unfolding words_from commas_to_spaces is_space
words_from-AreWords String.[] = (tt, tt)
words_from-AreWords (String.◌∷◌ c s) =
    let rest = words_from-AreWords s in
    elim (Bool-cases (code c == b',')) [
      | inl e ↦ rw (e) (tt, with_word-AreNames _ rest)
      | inr e ↦ elim (Bool-cases (is_space (code c))) [
        | inl d ↦ rw (e, d) (tt, with_word-AreNames _ rest)
        | inr d ↦ rw (e, d) ((ground (arith, e, d), rest.0), rest.1)
      ]
    ]

-- Whatever the text is, the services that are read from it are names with no white space and no
-- comma, and none is empty.
pub parse_service_list-AreNames : (raw : String) → All IsName (parse_service_list raw)
unfolding parse_service_list
parse_service_list-AreNames raw = elim (Bool-cases (str_eq raw "")) [
  | inl e ↦ rw (e) tt
  | inr e ↦
      let names = with_word-AreNames _ (words_from-AreWords raw) in
      rw (e, not_empty-AreNames _ names) names
]
