-- ===== src/Protocol/Value.antt =====
-- JSON values as `json.loads` builds them, and the parts of Python that the handlers use on them.
use robotsix_agent_comm.Prelude.{
  zero, String, Bool, true, false, not, Option, none, some, str_eq, if◌then◌else◌, ◌||◌, ◌≡◌, ◌≢◌,
}
use robotsix_agent_comm.Prelude.Int.{ℤ, pos}

-- A `float` is kept by the text that `repr` gives it; the handlers compute with none.
mutual
  pub data Value : Type 0 where
    null : Value
    bool : Bool → Value
    int : ℤ → Value
    float : String → Value
    str : String → Value
    obj : Fields → Value
    arr : Items → Value

  pub data Fields : Type 0 where
    field : String → Value → Fields → Fields
    end : Fields

  pub data Items : Type 0 where
    nil : Items
    cons : Value → Items → Items

-- `k in d`
unfoldable pub has : String → Fields → Bool
has k end = false
has k (field j v d) = str_eq j k || has k d

-- `d.get(k)`, with `null` for `None`; also `d[k]` where `k` is known to be there
unfoldable pub at : String → Fields → Value
at k end = null
at k (field j v d) = if str_eq j k then v else at k d

-- `d.get(k, default)`
unfoldable pub at_or : String → Value → Fields → Value
at_or k w end = w
at_or k w (field j v d) = if str_eq j k then v else at_or k w d

-- `d[k] = v`
unfoldable pub put : String → Value → Fields → Fields
put k v end = field k v end
put k v (field j w d) = if str_eq j k then field j v d else field j w (put k v d)

-- `isinstance(v, str)` with the text
abbrev pub text_of : Value → Option String
text_of (str s) = some s
text_of _ = none

-- `isinstance(v, str) and v`
unfoldable pub is_nonempty_text : Value → Bool
is_nonempty_text (str s) = not (str_eq s "")
is_nonempty_text _ = false

abbrev pub is_mapping : Value → Bool
is_mapping (obj d) = true
is_mapping _ = false

abbrev pub fields_of : Value → Fields
fields_of (obj d) = d
fields_of _ = end

-- `isinstance(v, int)` with the number: a `bool` is an `int`
abbrev pub int_value : Value → Option ℤ
int_value (int n) = some n
int_value (bool true) = some (pos 1)
int_value (bool false) = some (pos 0)
int_value _ = none

-- `bool(v)`
unfoldable pub truthy : Value → Bool
truthy null = false
truthy (bool b) = b
truthy (int (pos zero)) = false
truthy (int n) = true
truthy (float s) = not (str_eq s "0.0" || str_eq s "-0.0")
truthy (str s) = not (str_eq s "")
truthy (arr nil) = false
truthy (arr xs) = true
truthy (obj end) = false
truthy (obj d) = true

-- What a declarative description says of a value.
abbrev pub IsNonemptyText : Value → Type 0
IsNonemptyText v = (s : String) × (v ≡ str s) × (s ≢ "")

abbrev pub IsMapping : Value → Type 0
IsMapping v = (d : Fields) × (v ≡ obj d)
