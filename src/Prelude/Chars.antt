-- ===== src/Prelude/Chars.antt =====
-- Python's character classes and the text methods built on them.
use Prim.Native.Nat.{ℕ, zero, suc, ◌+◌, ◌*◌, ◌-◌}
use mathlib.Core.Option.{Option, none, some}
use Prim.Native.Char.{Char, code}
use Prim.Native.String.{String, ◌++◌ as ◌<>◌}
use mathlib.Core.Path.{◌≡◌, refl}
use mathlib.Core.Bool.{Bool, true, false, ◌&&◌, ◌||◌}
use mathlib.Core.List.{List, [], ◌∷◌}
use claude_code_reviewer.Prelude.Tests.{leb, ◌==◌, nat_eq, string_eq, if◌then◌else◌}
use claude_code_reviewer.Prelude.Texts.{join}

abbrev within : ℕ → ℕ → ℕ → Bool
within lo hi n = leb lo n && leb n hi

-- `c.isspace()`
unfoldable pub is_space : Char → Bool
is_space c =
    let n = code c in
    within 9 13 n
    || within 28 32 n
    || n == 133
    || n == 160
    || n == 5760
    || within 8192 8202 n
    || n == 8232
    || n == 8233
    || n == 8239
    || n == 8287
    || n == 12288

-- The line boundaries of `splitlines`.
unfoldable pub is_break : Char → Bool
is_break c =
    let n = code c in within 10 13 n || within 28 30 n || n == 133 || n == 8232 || n == 8233

abbrev pub push : String → Char → String
push s c = s <> (String.◌∷◌ c String.[])

abbrev flush : String → List String → List String
flush cur rest = if cur == "" then rest else cur ∷ rest

pub words_from : String → String → List String
words_from cur String.[] = flush cur []
words_from cur (String.◌∷◌ c s) =
    let closed = words_from "" s in
    let longer = words_from (push cur c) s in if is_space c then flush cur closed else longer

-- `s.split()`
unfoldable pub words : String → List String
unfolding words_from is_space
words s = words_from "" s

abbrev nth : String → ℕ → Char → Char
nth String.[] n d = d
nth (String.◌∷◌ c s) zero d = c
nth (String.◌∷◌ c s) (suc n) d = nth s n d

-- Letters outside ASCII are left alone: the source compares the result with ASCII words.
unfoldable pub upper_char : Char → Char
upper_char c =
    if within 97 122 (code c) then nth "ABCDEFGHIJKLMNOPQRSTUVWXYZ" (code c - 97) c else c

unfoldable pub lower_char : Char → Char
lower_char c = if within 65 90 (code c) then nth "abcdefghijklmnopqrstuvwxyz" (code c - 65) c else c

abbrev pub map_chars : (Char → Char) → String → String
map_chars f String.[] = String.[]
map_chars f (String.◌∷◌ c s) = String.◌∷◌ (f c) (map_chars f s)

-- `s.upper()`
unfoldable pub upper : String → String
unfolding upper_char
upper s = map_chars upper_char s

-- `s.lower()`
unfoldable pub lower : String → String
unfolding lower_char
lower s = map_chars lower_char s

-- `s.lstrip()`
unfoldable pub lstrip : String → String
unfolding is_space
lstrip String.[] = String.[]
lstrip (String.◌∷◌ c s) = let rest = lstrip s in if is_space c then rest else String.◌∷◌ c s

-- `s.rstrip()`
unfoldable pub rstrip : String → String
unfolding is_space
rstrip String.[] = String.[]
rstrip (String.◌∷◌ c s) =
    let rest = rstrip s in if is_space c && (rest == "") then String.[] else String.◌∷◌ c rest

unfoldable pub strip : String → String
unfolding lstrip rstrip
strip s = lstrip (rstrip s)

abbrev pub any_char : (Char → Bool) → String → Bool
any_char p String.[] = false
any_char p (String.◌∷◌ c s) = p c || any_char p s

abbrev pub count_chars : String → ℕ
count_chars String.[] = 0
count_chars (String.◌∷◌ c s) = suc (count_chars s)

words_test : join " " (words "  a \n bc ") ≡ "a bc"
unfolding words join
words_test = refl

upper_test : upper "In_Progress" ≡ "IN_PROGRESS"
unfolding upper
upper_test = refl

strip_test : strip " a b \n" ≡ "a b"
unfolding strip
strip_test = refl

abbrev pub same_char : Char → Char → Bool
same_char c d = code c == code d

-- What follows the prefix, if the text starts with it.
unfoldable pub after_prefix : String → String → Option String
after_prefix String.[] s = some s
after_prefix (String.◌∷◌ c p) String.[] = none
after_prefix (String.◌∷◌ c p) (String.◌∷◌ d s) =
    let rest = after_prefix p s in if same_char c d then rest else none

abbrev pub has_prefix : String → String → Bool
has_prefix p s = elim (after_prefix p s) [ none ↦ false | some _ ↦ true ]

split_from : (Char → Bool) → String → String → List String
split_from sep cur String.[] = cur ∷ []
split_from sep cur (String.◌∷◌ c s) =
    let closed = split_from sep "" s in
    let longer = split_from sep (push cur c) s in if sep c then cur ∷ closed else longer

-- `text.split("\n")`
unfoldable pub split_newline : String → List String
unfolding split_from
split_newline s = split_from (λ c. code c == 10) "" s

drop_last_empty : List String → List String
drop_last_empty [] = []
drop_last_empty (s ∷ []) = if s == "" then [] else s ∷ []
drop_last_empty (s ∷ t ∷ rest) = s ∷ drop_last_empty (t ∷ rest)

-- A carriage return before a line feed closes no line of its own.
drop_returns : String → String
drop_returns String.[] = String.[]
drop_returns (String.◌∷◌ c String.[]) = String.◌∷◌ c String.[]
drop_returns (String.◌∷◌ c (String.◌∷◌ d s)) =
    let rest = drop_returns (String.◌∷◌ d s) in
    if (code c == 13) && (code d == 10) then rest else String.◌∷◌ c rest

-- `text.splitlines()`
unfoldable pub splitlines : String → List String
unfolding split_from is_break drop_last_empty drop_returns
splitlines s = drop_last_empty (split_from is_break "" (drop_returns s))

-- `text.replace("\r\n", "\n")`
unfoldable pub unify_newlines : String → String
unfolding drop_returns
unify_newlines s = drop_returns s

abbrev pub keep_chars : (Char → Bool) → String → String
keep_chars p String.[] = String.[]
keep_chars p (String.◌∷◌ c s) = let rest = keep_chars p s in if p c then String.◌∷◌ c rest else rest

-- A run of decimal digits at the front: its value, and what follows it.
digits_at : Bool → ℕ → String → Option (ℕ × String)
digits_at seen n String.[] = if seen then some (n, String.[]) else none
digits_at seen n (String.◌∷◌ c s) =
    let more = digits_at true (n * 10 + (code c - 48)) s in
    if within 48 57 (code c) then more else if seen then some (n, String.◌∷◌ c s) else none

unfoldable pub leading_number : String → Option (ℕ × String)
unfolding digits_at
leading_number s = digits_at false 0 s

splitlines_test : join "|" (splitlines "a\r\nb\n\nc\n") ≡ "a|b||c"
unfolding splitlines join
splitlines_test = refl
