-- ===== src/Anchor/Json.antt =====
-- The values that `json.loads` returns, and what Python's `str`, `int`, `or` and `isinstance` make
-- of them.
use claude_code_reviewer.Prelude.{
  ℕ, zero, suc, String, ◌<>◌, Bool, true, false, Option, none, some, List, [], ◌∷◌, ◌≡◌, refl, ◌==◌,
  string_eq, str, strip, leading_number, after_prefix, if◌then◌else◌,
}

-- A number with its sign; `negsuc n` is `- (n + 1)`.
pub data ℤ : Type 0 where
  pos negsuc : ℕ → ℤ

-- A float, as `int` cuts it off.
pub data Whole : Type 0 where
  whole : ℤ → Whole
  infinite not_a_number : Whole

-- A value of JSON. A float and a list or an object come with the text that `str` writes of them;
-- of a list or an object, only whether it is empty matters besides.
pub data Json : Type 0 where
  null : Json
  boolean : Bool → Json
  integer : ℤ → Json
  real : String → Whole → Json
  string : String → Json
  container : String → Bool → Json

unfoldable pub str_int : ℤ → String
str_int (pos n) = str n
str_int (negsuc n) = "-" <> str (suc n)

-- `str(v)`
unfoldable pub text_of : Json → String
unfolding str_int
text_of null = "None"
text_of (boolean true) = "True"
text_of (boolean false) = "False"
text_of (integer z) = str_int z
text_of (real text w) = text
text_of (string s) = s
text_of (container text empty) = text

is_zero : ℤ → Bool
is_zero (pos zero) = true
is_zero _ = false

-- `bool(v)`; a float that `int` cuts off to 0 is false when its text is that of 0.
unfoldable pub is_true : Json → Bool
unfolding is_zero
is_true null = false
is_true (boolean b) = b
is_true (integer z) = if is_zero z then false else true
is_true (real text w) = if text == "0.0" then false else if text == "-0.0" then false else true
is_true (string s) = if s == "" then false else true
is_true (container text empty) = if empty then false else true

-- What `int` comes to: a value, an exception that `anchor` catches, or one
-- that it does not.
pub data Converted : Type 0 where
  converted : ℤ → Converted
  caught uncaught : Converted

minus : ℕ → ℤ
minus zero = pos zero
minus (suc n) = negsuc n

abbrev digits_only : Option (ℕ × String) → Option ℕ
digits_only none = none
digits_only (some (n, rest)) = if rest == "" then some n else none

-- `int(s)` of a text in decimal digits, with a sign and white space around it; underscores between
-- digits are not read.
unfoldable pub int_of_text : String → Converted
unfolding minus strip after_prefix leading_number
int_of_text s = elim (after_prefix "-" (strip s)) [
  | some rest ↦ elim (digits_only (leading_number rest)) [
    | none ↦ caught
    | some n ↦ converted (minus n)
  ]
  | none ↦ elim (after_prefix "+" (strip s)) [
    | some rest ↦ elim (digits_only (leading_number rest)) [
      | none ↦ caught
      | some n ↦ converted (pos n)
    ]
    | none ↦ elim (digits_only (leading_number (strip s))) [
      | none ↦ caught
      | some n ↦ converted (pos n)
    ]
  ]
]

int_of_whole : Whole → Converted
int_of_whole (whole z) = converted z
int_of_whole infinite = uncaught
int_of_whole not_a_number = caught

-- `int(v)`: an infinity raises `OverflowError`, the rest `TypeError` or `ValueError`.
unfoldable pub int_of : Json → Converted
unfolding int_of_whole int_of_text
int_of null = caught
int_of (boolean true) = converted (pos 1)
int_of (boolean false) = converted (pos 0)
int_of (integer z) = converted z
int_of (real text w) = int_of_whole w
int_of (string s) = int_of_text s
int_of (container text empty) = caught

-- `isinstance(v, int)`, which a `bool` is too.
unfoldable pub as_int : Json → Option ℤ
as_int (boolean true) = some (pos 1)
as_int (boolean false) = some (pos 0)
as_int (integer z) = some z
as_int _ = none

abbrev pub Finding : Type 0
Finding = List (String × Json)

-- `f[key]` of a dict, which has each key once.
unfoldable pub field : Finding → String → Option Json
field [] key = none
field ((k, v) ∷ rest) key = let later = field rest key in if k == key then some v else later

-- `f.get(key, default)`
abbrev pub get : Finding → String → Json → Json
get f key default = elim (field f key) [ none ↦ default | some v ↦ v ]

int_of_test : int_of (string " -12 ") ≡ converted (negsuc 11)
unfolding int_of
int_of_test = refl
