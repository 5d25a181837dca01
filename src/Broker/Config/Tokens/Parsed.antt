-- ===== src/Broker/Config/Tokens/Parsed.antt =====
-- broker/config.py: what `_parse_inline_tokens` returns.
use robotsix_agent_comm.Prelude.{
  String, Bool, true, false, Option, none, some, List, [], ◌∷◌, if◌then◌else◌, str_eq, eq_iff, All,
  ◌≡◌, ◌≢◌, refl, sym, arith, Bool-cases, inl, inr,
}
use robotsix_agent_comm.Prelude.Dict.{Dict, insert}
use robotsix_agent_comm.Broker.Config.Tokens.{
  strip_text, split_commas, partition, Read, ok, then_read, bad, read_pair, read_entries,
  parse_inline_tokens,
}

-- no id and no token is empty
abbrev pub AreNamed : Dict String → Type 0
AreNamed = All (λ e. (e.0 ≢ "") × (e.1 ≢ ""))

insert-AreNamed :
    (k v : String) (d : Dict String) → k ≢ "" → v ≢ "" → AreNamed d → AreNamed (insert k v d)
unfolding insert
insert-AreNamed k v [] nk nv n = ((nk, nv), tt)
insert-AreNamed k v ((j, w) ∷ d) nk nv n = elim (Bool-cases (str_eq j k)) [
  | inl e ↦ rw (e) ((n.0.0, nv), n.1)
  | inr e ↦ rw (e) (n.0, insert-AreNamed k v d nk nv n.1)
]

read_pair_lem :
    (entry : String) (o : Option (String × String)) (p : String × String)
    → read_pair entry o ≡ ok p
    → (p.0 ≢ "") × (p.1 ≢ "")
unfolding read_pair
read_pair_lem entry none p e = absurd (ground (arith, e))
read_pair_lem entry (some (a, b)) p e = elim (Bool-cases (str_eq (strip_text a) "")) [
  | inl x ↦ absurd (ground (arith, x, e))
  | inr x ↦ elim (Bool-cases (str_eq (strip_text b) "")) [
    | inl y ↦ absurd (ground (arith, x, y, e))
    | inr y ↦
        let same : (strip_text a, strip_text b) ≡ p = ground (arith, x, y, e) in
        rw (sym same) (
          λ q. ground (arith, q, x, eq_iff (strip_text a) ""),
          λ q. ground (arith, q, y, eq_iff (strip_text b) ""),
        )
  ]
]

then_read-AreNamed :
    (x : Read (String × String)) (f : String → String → Read (Dict String)) (r : Dict String)
    → ((p : String × String) → x ≡ ok p → f p.0 p.1 ≡ ok r → AreNamed r)
    → then_read x f ≡ ok r
    → AreNamed r
then_read-AreNamed (bad x) f r h e = absurd (ground (arith, e))
then_read-AreNamed (ok p) f r h e = h p refl e

named-if :
    (b : Bool) (x y : Read (Dict String)) (r : Dict String)
    → (x ≡ ok r → AreNamed r)
    → (y ≡ ok r → AreNamed r)
    → (if b then x else y) ≡ ok r
    → AreNamed r
named-if true x y r h k e = h e
named-if false x y r h k e = k e

read_entries-AreNamed :
    (es : List String) (d r : Dict String) → AreNamed d → read_entries es d ≡ ok r → AreNamed r
unfolding read_entries
read_entries-AreNamed [] d r n e = let same : d ≡ r = ground (arith, e) in rw (sym same) n
read_entries-AreNamed (x ∷ es) d r n e =
    let entry = strip_text x in
    named-if (str_eq entry "") _ _ r (read_entries-AreNamed es d r n)
      (then_read-AreNamed (read_pair entry (partition entry)) _ r (λ p q.
        let ne = read_pair_lem entry (partition entry) p q in
        read_entries-AreNamed es (insert p.0 p.1 d) r (insert-AreNamed p.0 p.1 d ne.0 ne.1 n)))
      e

-- No agent gets an empty id or an empty token from the inline list, whatever the text is.
pub parse_inline_tokens-AreNamed :
    (raw : String) (r : Dict String) → parse_inline_tokens raw ≡ ok r → AreNamed r
unfolding parse_inline_tokens
parse_inline_tokens-AreNamed raw r e = read_entries-AreNamed (split_commas raw) [] r tt e
