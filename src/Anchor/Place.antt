-- ===== src/Anchor/Place.antt =====
-- `anchor`: each finding becomes an inline comment, a leftover of the summary, or a folded one.
use claude_code_reviewer.Prelude.{
  ℕ, suc, ◌+◌, ◌-◌, String, ◌<>◌, Bool, true, false, ◌&&◌, ◌||◌, Option, none, some, List, [], ◌∷◌,
  ◌==◌, nat_eq, string_eq, ltb, leb, cat, str, join, length, is_empty, contains, if◌then◌else◌,
}
use claude_code_reviewer.Config.{Severity}
use claude_code_reviewer.Anchor.Json.{
  ℤ, pos, negsuc, Json, null, boolean, integer, real, string, container, Converted, converted,
  caught, uncaught, Finding, field, get, int_of, as_int, is_true,
}
use claude_code_reviewer.Anchor.Render.{render, rank, rank_of, leftover}

-- An entry of `comments`.
pub record Inline : Type 0 where
  pub path : Json
  pub line : ℕ
  pub body : String
  pub start_line : Option Json

-- The three lists that the loop fills.
pub record Placed : Type 0 where
  pub comments : List Inline
  pub leftovers : List String
  pub folded : List String

-- `Anchored`
pub record Anchored : Type 0 where
  pub comments : List Inline
  pub leftovers : String
  pub folded : String
  pub folded_count : ℕ

-- `valid.get(path or "", set())`; a list or an object as key raises, which is `none`.
unfoldable pub lines_of : List (String × List ℕ) → String → List ℕ
lines_of [] path = []
lines_of ((p, lines) ∷ rest) path =
    let later = lines_of rest path in if p == path then lines else later

unfoldable pub lines_at : List (String × List ℕ) → Json → Option (List ℕ)
lines_at valid (string s) = some (lines_of valid s)
lines_at valid null = some (lines_of valid "")
lines_at valid (boolean true) = some []
lines_at valid (boolean false) = some (lines_of valid "")
lines_at valid (integer z) = some (if is_true (integer z) then [] else lines_of valid "")
lines_at valid (real text w) = some (if is_true (real text w) then [] else lines_of valid "")
lines_at valid (container text true) = some (lines_of valid "")
lines_at valid (container text false) = none

-- `abs(n - line)`
unfoldable pub gap : ℕ → ℤ → ℕ
gap n (pos l) = (n - l) + (l - n)
gap n (negsuc l) = suc (n + l)

-- `(abs(n - line), n)` comes first.
unfoldable pub before : ℤ → ℕ → ℕ → Bool
before line a b = ltb (gap a line) (gap b line) || (gap a line == gap b line && leb a b)

-- The first of `sorted(lines, key=…)`.
unfoldable pub nearest : ℤ → List ℕ → Option ℕ
nearest line [] = none
nearest line (n ∷ rest) = elim (nearest line rest) [
  | none ↦ some n
  | some m ↦ some (if before line n m then n else m)
]

unfoldable pub moved_to : Option ℕ → ℤ → Option (ℕ × Option ℤ)
moved_to none line = none
moved_to (some n) line = if leb (gap n line) 3 then some (n, some line) else none

-- The line of the comment, and the reported one where it was moved; `none` has none within `SNAP`.
unfoldable pub target : List ℕ → ℤ → Option (ℕ × Option ℤ)
unfolding moved_to
target lines (pos n) =
    if contains lines n then some (n, none) else moved_to (nearest (pos n) lines) (pos n)
target lines (negsuc n) = moved_to (nearest (negsuc n) lines) (negsuc n)

-- `start < target and start in lines`
unfoldable pub is_start : List ℕ → ℕ → ℤ → Bool
is_start lines line (pos n) = ltb n line && contains lines n
is_start lines line (negsuc n) = false

unfoldable pub starts : List ℕ → ℕ → Json → Option ℤ → Option Json
starts lines line v none = none
starts lines line v (some n) = if is_start lines line n then some v else none

-- `comment["start_line"]`, where it is set.
unfoldable pub start_line : List ℕ → ℕ → Json → Option Json
start_line lines line v = starts lines line v (as_int v)

-- What one turn of the loop adds: a comment, a leftover or a folded finding.
pub data Turn : Type 0 where
  comment : Inline → Turn
  leaves folds : String → Turn
  raises : Turn

unfoldable pub inline : String → Finding → List ℕ → Option (ℕ × Option ℤ) → ℤ → Turn
inline name f lines none line = leaves (leftover (get f "path" null) (integer line) f)
inline name f lines (some (n, snapped)) line = comment (record {
  path = get f "path" null;
  line = n;
  body = render name f snapped;
  start_line = start_line lines n (get f "start_line" null);
})

unfoldable pub on_lines : String → Finding → List ℕ → Converted → Turn
on_lines name f lines caught = leaves (leftover (get f "path" null) null f)
on_lines name f lines uncaught = raises
on_lines name f lines (converted line) = inline name f lines (target lines line) line

abbrev pub line_of : Option Json → Converted
line_of none = caught
line_of (some v) = int_of v

unfoldable pub placed_at : String → Finding → Option (List ℕ) → Turn
placed_at name f none = raises
placed_at name f (some lines) = on_lines name f lines (line_of (field f "line"))

unfoldable pub place_inline : String → List (String × List ℕ) → Finding → Turn
place_inline name valid f = placed_at name f (lines_at valid (get f "path" null))

-- `rank is not None and rank > floor`
unfoldable pub is_below : Severity → Option ℕ → Bool
is_below floor none = false
is_below floor (some r) = ltb (rank_of floor) r

-- One turn of the loop.
unfoldable pub turn : String → List (String × List ℕ) → Severity → Finding → Turn
turn name valid floor f =
    if is_below floor (rank f)
    then folds (leftover (get f "path" null) (get f "line" null) f)
    else place_inline name valid f

unfoldable pub add : Turn → Placed → Option Placed
add (comment c) p = some (record p { comments = c ∷ p.comments })
add (leaves text) p = some (record p { leftovers = text ∷ p.leftovers })
add (folds text) p = some (record p { folded = text ∷ p.folded })
add raises p = none

unfoldable pub add_to : Turn → Option Placed → Option Placed
add_to t none = none
add_to t (some p) = add t p

-- The loop; an exception of a turn ends it.
unfoldable pub place : String → List (String × List ℕ) → Severity → List Finding → Option Placed
place name valid floor [] = some (record { comments = []; leftovers = []; folded = [] })
place name valid floor (f ∷ fs) = add_to (turn name valid floor f) (place name valid floor fs)

abbrev tucked : List String → String
tucked [] = ""
tucked (text ∷ rest) = cat (
    "<details><summary>"
    ∷ str (length (text ∷ rest))
    ∷ " "
    ∷ (if is_empty rest then "nitpick" else "nitpicks")
    ∷ ", kept out of the threads — nothing to reply to</summary>\n\n"
    ∷ join "\n" (text ∷ rest)
    ∷ "\n\n</details>"
    ∷ [])

unfoldable pub told : Placed → Anchored
told p = record {
  comments = p.comments;
  leftovers =
      if is_empty p.leftovers
      then ""
      else "**Not tied to a changed line:**\n\n" <> join "\n" p.leftovers;
  folded = tucked p.folded;
  folded_count = length p.folded;
}

-- `anchor`; `none` is an exception that it does not catch.
unfoldable pub anchor : String → List Finding → List (String × List ℕ) → Severity → Option Anchored
anchor name findings valid floor = elim (place name valid floor findings) [
  | none ↦ none
  | some p ↦ some (told p)
]
