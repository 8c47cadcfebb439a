-- ===== src/Anchor/Lines.antt =====
-- `commentable`: the lines of the new file that a patch shows.
use claude_code_reviewer.Prelude.{
  ℕ, zero, suc, String, Bool, ◌||◌, Option, none, some, List, [], ◌∷◌, ◌≡◌, refl, ◌==◌, string_eq,
  splitlines, after_prefix, has_prefix, leading_number, if◌then◌else◌,
}

-- `(?:,(\d+))?` at the front, and what follows it.
unfoldable pub after_count : String → String
unfolding after_prefix leading_number
after_count s = elim (after_prefix "," s) [
  | none ↦ s
  | some rest ↦ elim (leading_number rest) [ none ↦ s | some (n, more) ↦ more ]
]

after_number : Option (ℕ × String) → String
after_number none = ""
after_number (some (n, rest)) = after_count rest

second_range : Option String → Option ℕ
unfolding after_prefix leading_number
second_range none = none
second_range (some rest) = elim (leading_number rest) [
  | none ↦ none
  | some (n, more) ↦ elim (after_prefix " @@" (after_count more)) [ none ↦ none | some _ ↦ some n ]
]

-- `HUNK.match(row)`: the first line that the new file shows.
unfoldable pub hunk : String → Option ℕ
unfolding after_prefix leading_number after_number second_range
hunk row = elim (after_prefix "@@ -" row) [
  | none ↦ none
  | some rest ↦ second_range (after_prefix " +" (after_number (leading_number rest)))
]

-- `row.startswith(("+", " ")) or row == ""`
unfoldable pub shows : String → Bool
unfolding after_prefix
shows row = has_prefix "+" row || has_prefix " " row || row == ""

-- The loop; `new` is 0 before the first hunk.
unfoldable pub commentable_from : ℕ → List String → List ℕ
commentable_from new [] = []
commentable_from new (row ∷ rows) = elim (hunk row) [
  | some start ↦ commentable_from start rows
  | none ↦ elim new [
    | zero ↦ commentable_from zero rows
    | suc n ↦
        let kept = commentable_from (suc (suc n)) rows in
        let left = commentable_from (suc n) rows in if shows row then suc n ∷ kept else left
  ]
]

unfoldable pub commentable : String → List ℕ
unfolding splitlines
commentable patch = commentable_from zero (splitlines patch)

abbrev patch : String
patch = "@@ -1,2 +7,3 @@ def f\n a\n-b\n+c\n+d\n\\ No newline"

commentable_test : commentable patch ≡ 7 ∷ 8 ∷ 9 ∷ []
unfolding commentable hunk shows commentable_from after_count
commentable_test = refl
