-- ===== src/Prelude/Texts.antt =====
-- Texts: concatenation, decimal numbers, cutting and joining.
use Prim.Native.Nat.{ℕ, zero, suc, ◌+◌, ◌*◌, ◌/◌, ◌%◌, ◌^◌}
use mathlib.Core.Bool.{Bool, true, false}
use mathlib.Core.Option.{none, some}
use text.Mathlib.Text.{find?}
use Prim.Native.String.{String, ◌++◌ as ◌<>◌}
use mathlib.Core.Path.{◌≡◌, refl}
use mathlib.Core.List.{List, [], ◌∷◌}
use claude_code_reviewer.Prelude.Tests.{ltb, if◌then◌else◌}

-- The parts of an f-string, in order.
abbrev pub cat : List String → String
cat [] = ""
cat (s ∷ rest) = s <> cat rest

digit : ℕ → String
digit zero = "0"
digit (suc zero) = "1"
digit (suc (suc zero)) = "2"
digit (suc (suc (suc zero))) = "3"
digit (suc (suc (suc (suc zero)))) = "4"
digit (suc (suc (suc (suc (suc zero))))) = "5"
digit (suc (suc (suc (suc (suc (suc zero)))))) = "6"
digit (suc (suc (suc (suc (suc (suc (suc zero))))))) = "7"
digit (suc (suc (suc (suc (suc (suc (suc (suc zero)))))))) = "8"
digit (suc (suc (suc (suc (suc (suc (suc (suc (suc n))))))))) = "9"

digits_from : ℕ → ℕ → String → String
digits_from zero n acc = acc
digits_from (suc fuel) n acc =
    let rest = digits_from fuel (n / 10) (digit (n % 10) <> acc) in
    if ltb n 10 then digit n <> acc else rest

-- `str(n)`: a number has no more digits than `n + 1`.
unfoldable pub str : ℕ → String
unfolding digits_from digit
str n = digits_from (suc n) n ""

-- `s[:n]`, by characters.
unfoldable pub take_chars : ℕ → String → String
take_chars zero s = ""
take_chars (suc n) String.[] = ""
take_chars (suc n) (String.◌∷◌ c s) = String.◌∷◌ c (take_chars n s)

-- `sep.join(parts)`
unfoldable pub join : String → List String → String
join sep [] = ""
join sep (s ∷ []) = s
join sep (s ∷ t ∷ rest) = s <> (sep <> join sep (t ∷ rest))

str_test : str 4210 ≡ "4210"
unfolding str
str_test = refl

join_test : join ", " ("a" ∷ take_chars 2 "bcd" ∷ []) ≡ "a, bc"
unfolding join take_chars
join_test = refl

fraction : ℕ → ℕ → String
unfolding digit
fraction zero n = ""
fraction (suc places) n = fraction places (n / 10) <> digit (n % 10)

-- Half to even, as Python formats an exact tie.
unfoldable pub rounded : ℕ → ℕ → ℕ
rounded num den =
    let q = num / den in
    let twice = num % den * 2 in
    if ltb twice den then q else if ltb den twice then suc q else q + q % 2

-- `f"{num / den:.{places}f}"`
unfoldable pub decimal : ℕ → ℕ → ℕ → String
unfolding rounded fraction str
decimal places num den =
    let scaled = rounded (num * 10 ^ places) den in
    let whole = str (scaled / 10 ^ places) in
    elim places [ zero ↦ whole | suc p ↦ whole <> "." <> fraction (suc p) (scaled % 10 ^ suc p) ]

-- `t in s`
abbrev pub has_text : String → String → Bool
has_text s t = elim (find? s t) [ none ↦ false | some _ ↦ true ]

decimal_test : decimal 2 3145000 1000000 ≡ "3.14"
unfolding decimal
decimal_test = refl
