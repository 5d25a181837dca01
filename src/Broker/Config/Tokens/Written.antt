-- ===== src/Broker/Config/Tokens/Written.antt =====
-- broker/config.py: `_parse_inline_tokens` on a list of tokens as an operator writes it.
use Prim.Native.Char.{Char, code}
use robotsix_agent_comm.Prelude.{
  String, Bool, true, false, not, ◌&&◌, none, some, [], ◌∷◌, ◌++◌, ◌==◌, str_eq, eq_iff, All, map,
  ◌≡◌, ◌≢◌, refl, sym, ap, ◌∙◌, arith, Bool-cases, inl, inr,
}
use robotsix_agent_comm.Prelude.Dict.{Dict, lookup, insert, IsDict}
use robotsix_agent_comm.Prelude.Text.{is_space, join}
use robotsix_agent_comm.Broker.Config.Tokens.{
  strip_start, strip_end, strip_text, split_commas, partition, ok, read_pair, read_entries,
  parse_inline_tokens,
}

-- no white space and no comma, and in an id no "=" either
abbrev pub plain_char : Char → Bool
plain_char c = not (is_space (code c)) && not (code c == b',')

abbrev pub id_char : Char → Bool
id_char c = plain_char c && not (code c == b'=')

abbrev pub IsMadeOf : (Char → Bool) → String → Type 0
IsMadeOf p String.[] = Unit
IsMadeOf p (String.◌∷◌ c s) = (p c ≡ true) × IsMadeOf p s

-- an id and a token that can be written as they are
abbrev pub IsWritable : String × String → Type 0
IsWritable e = (e.0 ≢ "") × IsMadeOf id_char e.0 × (e.1 ≢ "") × IsMadeOf plain_char e.1

-- `id1=token1,id2=token2`
abbrev pub write_entry : String × String → String
write_entry (agent_id, token) = join agent_id (join "=" token)

unfoldable pub write_tokens : Dict String → String
write_tokens [] = ""
write_tokens (e ∷ []) = write_entry e
write_tokens (e ∷ f ∷ d) = join (write_entry e) (join "," (write_tokens (f ∷ d)))

id-plain : (s : String) → IsMadeOf id_char s → IsMadeOf plain_char s
id-plain String.[] h = tt
id-plain (String.◌∷◌ c s) h = (ground (arith, h.0), id-plain s h.1)

join-IsMadeOf :
    (p : Char → Bool) (a b : String) → IsMadeOf p a → IsMadeOf p b → IsMadeOf p (join a b)
join-IsMadeOf p String.[] b h k = k
join-IsMadeOf p (String.◌∷◌ c s) b h k = (h.0, join-IsMadeOf p s b h.1 k)

strip_start-plain : (s : String) → IsMadeOf plain_char s → strip_start s ≡ s
unfolding strip_start
strip_start-plain String.[] h = refl
strip_start-plain (String.◌∷◌ c s) h =
    let dark : is_space (code c) ≡ false = ground (arith, h.0) in rw (dark) refl

strip_end-plain : (s : String) → IsMadeOf plain_char s → strip_end s ≡ s
unfolding strip_end
strip_end-plain String.[] h = refl
strip_end-plain (String.◌∷◌ c s) h =
    let dark : is_space (code c) ≡ false = ground (arith, h.0) in
    rw (dark) (ap (λ t. String.◌∷◌ c t) (strip_end-plain s h.1))

strip_text-plain : (s : String) → IsMadeOf plain_char s → strip_text s ≡ s
unfolding strip_text
strip_text-plain s h = ap strip_end (strip_start-plain s h) ∙ strip_end-plain s h

split_commas-plain : (s : String) → IsMadeOf plain_char s → split_commas s ≡ s ∷ []
unfolding split_commas
split_commas-plain String.[] h = refl
split_commas-plain (String.◌∷◌ c s) h =
    let other : (code c == b',') ≡ false = ground (arith, h.0) in
    rw (other, split_commas-plain s h.1) refl

split_commas-append :
    (s t : String) → IsMadeOf plain_char s → split_commas (join s (join "," t)) ≡ s ∷ split_commas t
unfolding split_commas
split_commas-append String.[] t h = refl
split_commas-append (String.◌∷◌ c s) t h =
    let other : (code c == b',') ≡ false = ground (arith, h.0) in
    rw (other, split_commas-append s t h.1) refl

partition-append :
    (a b : String) → IsMadeOf id_char a → partition (join a (join "=" b)) ≡ some (a, b)
unfolding partition
partition-append String.[] b h = refl
partition-append (String.◌∷◌ c s) b h =
    let other : (code c == b'=') ≡ false = ground (arith, h.0) in
    rw (other, partition-append s b h.1) refl

insert-new : (k v : String) (d : Dict String) → lookup k d ≡ none → insert k v d ≡ d ++ (k, v) ∷ []
unfolding insert lookup
insert-new k v [] h = refl
insert-new k v ((j, w) ∷ d) h = elim (Bool-cases (str_eq j k)) [
  | inl e ↦ absurd (ground (arith, e, h))
  | inr e ↦ rw (e) (ap (λ x. (j, w) ∷ x) (insert-new k v d (ground (arith, e, h))))
]

present : (k v : String) (acc d : Dict String) → lookup k (acc ++ (k, v) ∷ d) ≢ none
unfolding lookup
present k v [] d h = ground (arith, h, eq_iff k k)
present k v ((j, w) ∷ acc) d h = elim (Bool-cases (str_eq j k)) [
  | inl e ↦ ground (arith, h, e)
  | inr e ↦ present k v acc d (ground (arith, h, e))
]

unused : (k v : String) (acc d : Dict String) → IsDict (acc ++ (k, v) ∷ d) → lookup k acc ≡ none
unfolding lookup
unused k v [] d h = refl
unused k v ((j, w) ∷ acc) d h = elim (Bool-cases (str_eq j k)) [
  | inl e ↦
      let same : j ≡ k = (eq_iff j k).0 e in
      absurd (present k v acc d (ap (λ x. lookup x (acc ++ (k, v) ∷ d)) (sym same) ∙ h.0))
  | inr e ↦ rw (e) (unused k v acc d h.1)
]

append-none : (acc : Dict String) → acc ≡ acc ++ []
append-none [] = refl
append-none (x ∷ acc) = ap (λ y. x ∷ y) (append-none acc)

append-step :
    (acc : Dict String) (e : String × String) (d : Dict String)
    → (acc ++ e ∷ []) ++ d ≡ acc ++ e ∷ d
append-step [] e d = refl
append-step (x ∷ acc) e d = ap (λ y. x ∷ y) (append-step acc e d)

entry-plain : (e : String × String) → IsWritable e → IsMadeOf plain_char (write_entry e)
unfolding is_space
entry-plain e h = join-IsMadeOf plain_char e.0 (join "=" e.1) (id-plain e.0 h.1) (refl, h.3)

split-write_tokens :
    (e : String × String) (d : Dict String)
    → All IsWritable (e ∷ d)
    → split_commas (write_tokens (e ∷ d)) ≡ map write_entry (e ∷ d)
unfolding write_tokens
split-write_tokens e [] h = split_commas-plain (write_entry e) (entry-plain e h.0)
split-write_tokens e (f ∷ d) h =
    split_commas-append (write_entry e) (write_tokens (f ∷ d)) (entry-plain e h.0)
    ∙ ap (λ xs. write_entry e ∷ xs) (split-write_tokens f d h.1)

abbrev has_first : String → Bool
has_first String.[] = false
has_first (String.◌∷◌ c s) = true

pub join-nonempty : (s t : String) → s ≢ "" → str_eq (join s t) "" ≡ false
join-nonempty String.[] t n = absurd (n refl)
join-nonempty (String.◌∷◌ c s) t n = elim (Bool-cases (str_eq (String.◌∷◌ c (join s t)) "")) [
  | inl e ↦ absurd (ground (arith, ap has_first ((eq_iff (String.◌∷◌ c (join s t)) "").0 e)))
  | inr e ↦ e
]

entry-nonempty : (e : String × String) → IsWritable e → str_eq (write_entry e) "" ≡ false
entry-nonempty e h = join-nonempty e.0 (join "=" e.1) h.0

read-write_entry :
    (e : String × String)
    → IsWritable e
    → read_pair (write_entry e) (partition (write_entry e)) ≡ ok e
unfolding read_pair
read-write_entry e h =
    let id_set : str_eq e.0 "" ≡ false = ground (arith, h.0, eq_iff e.0 "") in
    let token_set : str_eq e.1 "" ≡ false = ground (arith, h.2, eq_iff e.1 "") in
    rw
      (
        partition-append e.0 e.1 h.1,
        strip_text-plain e.0 (id-plain e.0 h.1),
        strip_text-plain e.1 h.3,
        id_set,
        token_set,
      )
      refl

read_entries-written :
    (d acc : Dict String)
    → All IsWritable d
    → IsDict (acc ++ d)
    → read_entries (map write_entry d) acc ≡ ok (acc ++ d)
unfolding read_entries
read_entries-written [] acc h u = ap ok (append-none acc)
read_entries-written (e ∷ d) acc h u =
    rw
      (
        strip_text-plain (write_entry e) (entry-plain e h.0),
        entry-nonempty e h.0,
        read-write_entry e h.0,
        insert-new e.0 e.1 acc (unused e.0 e.1 acc d u),
      )
      (read_entries-written d (acc ++ e ∷ []) h.1 (rw (append-step acc e d) u)
        ∙ ap ok (append-step acc e d))

-- A list of tokens that is written as `id1=token1,id2=token2`, with distinct ids, is read back as it
-- is.
pub parse_inline_tokens-write_tokens :
    (e : String × String) (d : Dict String)
    → All IsWritable (e ∷ d)
    → IsDict (e ∷ d)
    → parse_inline_tokens (write_tokens (e ∷ d)) ≡ ok (e ∷ d)
unfolding parse_inline_tokens
parse_inline_tokens-write_tokens e d h u =
    ap (λ xs. read_entries xs []) (split-write_tokens e d h) ∙ read_entries-written (e ∷ d) [] h u
