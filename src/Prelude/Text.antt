-- ===== src/Prelude/Text.antt =====
-- Texts as lists of code points, and Python's `int(text)` for ASCII text.
use Prim.Native.Nat.{ℕ, zero, suc, ◌+◌, ◌-◌, ◌*◌}
use Prim.Native.Char.{code}
use Prim.Native.String.{String}
pub use Prim.Native.String.{◌++◌ as concat}
use mathlib.Core.Path.{◌≡◌, refl}
use mathlib.Core.Bool.{Bool, true, false, not, ◌&&◌, ◌||◌}
use mathlib.Core.Option.{Option, none, some}
use mathlib.Core.List.{List, [], ◌∷◌, reverse}
use robotsix_agent_comm.Prelude.Tests.{leb, ◌==◌, if◌then◌else◌}
use robotsix_agent_comm.Prelude.Int.{ℤ, pos, negsuc}

-- `concat` by clauses, which computes at a variable
abbrev pub join : String → String → String
join String.[] t = t
join (String.◌∷◌ c s) t = String.◌∷◌ c (join s t)

-- `len(text)` counts code points.
unfoldable pub text_length : String → ℕ
text_length String.[] = 0
text_length (String.◌∷◌ c s) = suc (text_length s)

unfoldable pub codes : String → List ℕ
codes String.[] = []
codes (String.◌∷◌ c s) = code c ∷ codes s

-- `text.startswith(prefix)`, on code points
unfoldable pub starts_with_codes : List ℕ → List ℕ → Bool
starts_with_codes [] cs = true
starts_with_codes (p ∷ ps) [] = false
starts_with_codes (p ∷ ps) (c ∷ cs) = p == c && starts_with_codes ps cs

unfoldable pub starts_with_text : String → String → Bool
unfolding codes starts_with_codes
starts_with_text prefix text = starts_with_codes (codes prefix) (codes text)

-- `text[n:]`
unfoldable pub text_drop : ℕ → String → String
text_drop zero s = s
text_drop (suc n) String.[] = ""
text_drop (suc n) (String.◌∷◌ c s) = text_drop n s

-- `text.split(".", 1)[0]`
unfoldable pub before_dot : List ℕ → List ℕ
before_dot [] = []
before_dot (c ∷ cs) = let rest = before_dot cs in if c == b'.' then [] else c ∷ rest

-- the ASCII characters that `str.isspace` accepts
unfoldable pub is_space : ℕ → Bool
is_space c = (leb 9 c && leb c 13) || (leb 28 c && leb c 32)

strip_left : List ℕ → List ℕ
strip_left [] = []
strip_left (c ∷ cs) = if is_space c then strip_left cs else c ∷ cs

unfoldable pub strip : List ℕ → List ℕ
unfolding is_space strip_left
strip cs = reverse (strip_left (reverse (strip_left cs)))

is_digit : ℕ → Bool
is_digit c = leb b'0' c && leb c b'9'

-- Digits with single underscores between them; `need` says that a digit must come next.
digits_from : Bool → ℕ → List ℕ → Option ℕ
unfolding is_digit
digits_from true acc [] = none
digits_from false acc [] = some acc
digits_from need acc (c ∷ cs) =
    let next = digits_from false (acc * 10 + (c - b'0')) cs in
    let skip = digits_from true acc cs in
    if is_digit c then next else if c == b'_' && not need then skip else none

negated : ℕ → ℤ
negated zero = pos 0
negated (suc n) = negsuc n

positive : Option ℕ → Option ℤ
positive none = none
positive (some n) = some (pos n)

negative : Option ℕ → Option ℤ
unfolding negated
negative none = none
negative (some n) = some (negated n)

signed : List ℕ → Option ℤ
unfolding digits_from positive negative
signed [] = none
signed (c ∷ cs) =
    if c == b'-'
    then negative (digits_from true 0 cs)
    else if c == b'+'
    then positive (digits_from true 0 cs)
    else positive (digits_from true 0 (c ∷ cs))

-- `int(text)`; `none` stands for the `ValueError`
unfoldable pub int_of : List ℕ → Option ℤ
unfolding strip signed
int_of cs = signed (strip cs)

int_of_cases :
    (int_of (codes " -1_0 ") ≡ some (negsuc 9))
    × (int_of (codes "1__0") ≡ none)
    × (int_of (codes "+7") ≡ some (pos 7))
unfolding int_of codes
int_of_cases = (refl, refl, refl)
