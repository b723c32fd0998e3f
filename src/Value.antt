-- ===== src/Value.antt =====
-- The values that cross the program's boundaries as JSON or CBOR, and how the code reads them.
use rp2350_relay_6ch.Prelude.{
  suc, String, Bool, true, false, Option, none, some, List, [], ◌∷◌, ◌+◌, ◌*◌, ◌/◌, ◌==◌, ℕ,
  if◌then◌else◌, str_eq,
}
use rp2350_relay_6ch.Prelude.Int.{ℤ, pos, negsuc, neg, pos_part, neg_part, eqb_ℤ}
use rp2350_relay_6ch.Errors.{Result, ok, err, Done, validation, foreign}

-- `float p q` is the finite float p / (q + 1); `other` is a value of a type that no code here
-- looks into (a byte string, a non-finite float). A dict has its text keys only: no code reads
-- an entry under another key.
mutual
  pub data Value : Type 0 where
    null : Value
    bool : Bool → Value
    int : ℤ → Value
    float : ℤ → ℕ → Value
    str : String → Value
    arr : Items → Value
    obj : Fields → Value
    other : String → Value

  pub data Items : Type 0 where
    nil : Items
    cons : Value → Items → Items

  pub data Fields : Type 0 where
    end : Fields
    field : String → Value → Fields → Fields

-- `d.get(key)`, where a missing key is told from a null.
unfoldable pub lookup : String → Fields → Option Value
lookup k end = none
lookup k (field j v d) = if str_eq j k then some v else lookup k d

abbrev pub get_or : Value → Option Value → Value
get_or d none = d
get_or d (some v) = v

-- `d.get(key)`, None where the key is missing
unfoldable pub get : String → Fields → Value
unfolding lookup
get k d = get_or null (lookup k d)

-- `set(d)`, as the keys in their order
unfoldable pub keys : Fields → List String
keys end = []
keys (field k v d) = k ∷ keys d

-- `not d`
abbrev pub is_empty : Fields → Bool
is_empty end = true
is_empty (field _ _ _) = false

abbrev pub int_of_bool : Bool → ℤ
int_of_bool true = pos 1
int_of_bool false = pos 0

-- `isinstance(v, int)`, with the integer: a bool is an int.
abbrev pub as_int : Value → Option ℤ
as_int (int n) = some n
as_int (bool b) = some (int_of_bool b)
as_int _ = none

-- `isinstance(v, int) and not isinstance(v, bool)`
abbrev pub as_plain_int : Value → Option ℤ
as_plain_int (int n) = some n
as_plain_int _ = none

abbrev pub as_bool : Value → Option Bool
as_bool (bool b) = some b
as_bool _ = none

abbrev pub as_str : Value → Option String
as_str (str s) = some s
as_str _ = none

abbrev pub as_dict : Value → Option Fields
as_dict (obj d) = some d
as_dict _ = none

-- the truth value of a text or None, with the text
abbrev pub filled : Option String → Option String
filled none = none
filled (some s) = if str_eq s "" then none else some s

-- `v == n` for an integer n: Python compares numbers across their types.
abbrev pub equals_int : Value → ℤ → Bool
equals_int (int m) n = eqb_ℤ m n
equals_int (bool b) n = eqb_ℤ (int_of_bool b) n
equals_int (float p q) n = pos_part p + neg_part n * suc q == pos_part n * suc q + neg_part p
equals_int _ n = false

-- What the code takes from Python's built-in conversions: `str(n)`, the text that a value has in
-- an f-string, and `int(s)`, `int(s, 0)` and `int(s, 10)` of a text and `int(v)` of a value that is
-- `other`, such as the digits of a byte string, `none` where they raise; f"{n:x}" and f"{n:02x}"; `sorted` of a list of texts; `strip`, `lower` and
-- `splitlines` of a text; the truth value of a value that is `other`.
pub record Python : Type 0 where
  pub show_int : ℤ → String
  pub show : Value → String
  pub int_of_text : String → Option ℤ
  pub int_of_other : String → Option ℤ
  pub int_of_literal : String → Option ℤ
  pub int_of_decimal : String → Option ℤ
  pub hex : ℤ → String
  pub hex2 : ℤ → String
  pub sorted : List String → List String
  pub strip : String → String
  pub lower : String → String
  pub splitlines : String → List String
  pub truth : String → Bool

-- `int(v)`
unfoldable pub to_int : Python → Value → Result ℤ
to_int py (int n) = ok n
to_int py (bool b) = ok (int_of_bool b)
to_int py (float (pos n) q) = ok (pos (n / suc q))
to_int py (float (negsuc n) q) = ok (neg (suc n / suc q))
to_int py (str s) = elim (py.int_of_text s) [
  | none ↦ err (foreign "ValueError: invalid literal for int()")
  | some n ↦ ok n
]
to_int py (other s) = elim (py.int_of_other s) [
  | none ↦ err (foreign "TypeError: int() argument must be a string or a number")
  | some n ↦ ok n
]
to_int py _ = err (foreign "TypeError: int() argument must be a string or a number")

-- What a parser of bytes made of its input: a value, or the text of the exception it raised.
pub data Decoded : Type 0 where
  decoded : Value → Decoded
  malformed : String → Decoded

-- An integer that is asked for, in a range: RelayValidationError if it is missing or `outside`.
unfoldable pub check_int : (ℤ → Bool) → String → Option ℤ → Done
check_int outside m none = err (validation m)
check_int outside m (some n) = if outside n then err (validation m) else ok tt
