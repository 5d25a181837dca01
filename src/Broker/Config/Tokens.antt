-- ===== src/Broker/Config/Tokens.antt =====
-- broker/config.py: `_parse_inline_tokens`. White space is the ASCII characters that `isspace`
-- accepts.
pub mod Parsed
pub mod Written
use Prim.Native.Char.{Char, code}
use robotsix_agent_comm.Prelude.{
  String, ℕ, Bool, true, false, not, ◌&&◌, ◌||◌, leb, Option, none, some, List, [], ◌∷◌, ◌==◌,
  if◌then◌else◌, str_eq, eq_iff, All, ◌≡◌, ◌≢◌, refl, sym, ap, ◌∙◌, arith, Bool-cases, inl, inr,
}
use robotsix_agent_comm.Prelude.Dict.{Dict, lookup, insert, IsDict}
use robotsix_agent_comm.Prelude.Text.{concat, is_space}

-- `entry.strip()`
unfoldable strip_start : String → String
strip_start String.[] = ""
strip_start (String.◌∷◌ c s) =
    let rest = strip_start s in if is_space (code c) then rest else String.◌∷◌ c s

unfoldable strip_end : String → String
strip_end String.[] = ""
strip_end (String.◌∷◌ c s) =
    let rest = strip_end s in if is_space (code c) && str_eq rest "" then "" else String.◌∷◌ c rest

unfoldable pub strip_text : String → String
unfolding strip_start strip_end
strip_text s = strip_end (strip_start s)

abbrev on_first : Char → List String → List String
on_first c [] = String.◌∷◌ c "" ∷ []
on_first c (s ∷ ss) = String.◌∷◌ c s ∷ ss

-- `raw.split(",")`
unfoldable pub split_commas : String → List String
split_commas String.[] = "" ∷ []
split_commas (String.◌∷◌ c s) =
    let rest = split_commas s in if code c == b',' then "" ∷ rest else on_first c rest

abbrev before : Char → Option (String × String) → Option (String × String)
before c none = none
before c (some (a, b)) = some (String.◌∷◌ c a, b)

-- `entry.partition("=")`; `none` where there is no "="
unfoldable pub partition : String → Option (String × String)
partition String.[] = none
partition (String.◌∷◌ c s) =
    let rest = partition s in if code c == b'=' then some ("", s) else before c rest

-- the `ValueError` for an entry
pub data TokenError : Type 0 where
  no_separator empty_agent_id empty_token : String → TokenError

pub data Read {ℓ} (A : Type ℓ) : Type ℓ where
  ok : A → Read A
  bad : TokenError → Read A

-- an entry that is not empty
unfoldable pub read_pair : String → Option (String × String) → Read (String × String)
read_pair entry none = bad (no_separator entry)
read_pair entry (some (a, b)) =
    if str_eq (strip_text a) ""
    then bad (empty_agent_id entry)
    else if str_eq (strip_text b) ""
    then bad (empty_token entry)
    else ok (strip_text a, strip_text b)

abbrev pub then_read :
    Read (String × String) → (String → String → Read (Dict String)) → Read (Dict String)
then_read (bad x) f = bad x
then_read (ok (agent_id, token)) f = f agent_id token

-- the loop over the entries
unfoldable pub read_entries : List String → Dict String → Read (Dict String)
unfolding read_pair
read_entries [] tokens = ok tokens
read_entries (e ∷ es) tokens =
    let entry = strip_text e in
    let skipped = read_entries es tokens in
    let read =
      then_read (read_pair entry (partition entry))
        (λ agent_id token. read_entries es (insert agent_id token tokens)) in
    if str_eq entry "" then skipped else read

-- `_parse_inline_tokens`
unfoldable pub parse_inline_tokens : String → Read (Dict String)
unfolding read_entries
parse_inline_tokens raw = read_entries (split_commas raw) []
