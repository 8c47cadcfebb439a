-- ===== src/Anchor/Shown.antt =====
-- The lines of one hunk, row by row.
use claude_code_reviewer.Prelude.{
  ℕ, zero, suc, ◌+◌, String, Bool, true, false, none, some, List, [], ◌∷◌, ◌++◌, ◌≡◌, ◌==◌,
  string_eq, eq_iff, refl, arith, ap, ◌∙◌, count, map, Bool-cases, inl, inr,
}
use claude_code_reviewer.Anchor.Lines.{hunk, shows, commentable_from}

-- A row of a unified diff below a hunk's header, without the sign in front; `blank` is a context row
-- that lost its space, and `note` what git says of a missing newline.
pub data Row : Type 0 where
  context added removed note : String → Row
  blank : Row

unfoldable pub row_text : Row → String
row_text (context s) = String.◌∷◌ " " s
row_text (added s) = String.◌∷◌ "+" s
row_text (removed s) = String.◌∷◌ "-" s
row_text (note s) = String.◌∷◌ "\\" s
row_text blank = ""

-- The new file has the line.
unfoldable pub is_in_new : Row → Bool
is_in_new (context s) = true
is_in_new (added s) = true
is_in_new (removed s) = false
is_in_new (note s) = false
is_in_new blank = true

-- The `n` numbers from `start` on.
unfoldable pub range : ℕ → ℕ → List ℕ
range start zero = []
range start (suc n) = start ∷ range (suc start) n

add_suc : (a b : ℕ) → a + suc b ≡ suc a + b
add_suc a b = omega arith

hunk-row_text : (r : Row) → hunk (row_text r) ≡ none
unfolding row_text hunk
hunk-row_text (context s) = refl
hunk-row_text (added s) = refl
hunk-row_text (removed s) = refl
hunk-row_text (note s) = refl
hunk-row_text blank = refl

abbrev has_char : String → Bool
has_char String.[] = false
has_char (String.◌∷◌ c s) = true

has_char_lem : (s : String) → has_char s ≡ true → (s == "") ≡ false
has_char_lem s h = elim (Bool-cases (s == "")) [
  | inl y ↦ let e : s ≡ "" = ground (arith, eq_iff s "", y) in ground (arith, h, ap has_char e)
  | inr y ↦ y
]

shows-row_text : (r : Row) → shows (row_text r) ≡ is_in_new r
unfolding row_text shows is_in_new
shows-row_text (context s) = refl
shows-row_text (added s) = refl
shows-row_text (removed s) = has_char_lem (String.◌∷◌ "-" s) refl
shows-row_text (note s) = has_char_lem (String.◌∷◌ "\\" s) refl
shows-row_text blank = refl

commentable_from-body :
    (start : ℕ) (rows : List Row) (later : List String)
    → commentable_from (suc start) (map row_text rows ++ later)
      ≡ range (suc start) (count is_in_new rows)
        ++ commentable_from (count is_in_new rows + suc start) later
unfolding commentable_from range
commentable_from-body start [] later = grind arith
commentable_from-body start (row ∷ rows) later = elim (Bool-cases (is_in_new row)) [
  | inl y ↦
      rw (hunk-row_text row, shows-row_text row, y, commentable_from)
        (ap (λ l. suc start ∷ l)
          (commentable_from-body (suc start) rows later
            ∙ ap (λ k. range (suc (suc start)) (count is_in_new rows) ++ commentable_from k later)
                (add_suc (count is_in_new rows) (suc start))))
  | inr y ↦
      rw (hunk-row_text row, shows-row_text row, y, commentable_from)
        (commentable_from-body start rows later)
]

-- Under a hunk's header that starts at a line from 1 on, the rows show exactly the numbers from that
-- line on, one for each context row and each added one, blank rows included, and none for a removed
-- row or a note on a missing newline; what follows them is read on from the next number.
pub commentable_from-hunk :
    (new start : ℕ) (header : String) (rows : List Row) (later : List String)
    → hunk header ≡ some (suc start)
    → commentable_from new (header ∷ map row_text rows ++ later)
      ≡ range (suc start) (count is_in_new rows)
        ++ commentable_from (count is_in_new rows + suc start) later
unfolding commentable_from
commentable_from-hunk new start header rows later e =
    rw (e, commentable_from) (commentable_from-body start rows later)
