-- ===== src/Triage/Money.antt =====
-- `touches_money`: the one marker line that clears an issue of the money paths.
use claude_code_reviewer.Prelude.{
  String, Bool, true, false, not, ◌&&◌, ◌||◌, Option, none, some, List, [], ◌∷◌, ◌==◌, string_eq,
  nat_eq, any, is_empty, lower, after_prefix, split_newline, if◌then◌else◌, ◌≡◌, ◌↔◌, arith, refl,
}
use Prim.Native.Char.{Char, code}

unfoldable pub is_blank : Char → Bool
is_blank c = (code c == 32) || (code c == 9)

unfoldable pub lstrip_blanks : String → String
unfolding is_blank
lstrip_blanks String.[] = String.[]
lstrip_blanks (String.◌∷◌ c s) =
    let rest = lstrip_blanks s in if is_blank c then rest else String.◌∷◌ c s

unfoldable pub rstrip_blanks : String → String
unfolding is_blank
rstrip_blanks String.[] = String.[]
rstrip_blanks (String.◌∷◌ c s) =
    let rest = rstrip_blanks s in
    if is_blank c && (rest == "") then String.[] else String.◌∷◌ c rest

-- `^MONEY:[ \t]*(yes|no)[ \t]*$`, ignoring case, with the word in lower case. The long s is an s
-- to a pattern that ignores case.
unfoldable pub money_word : String → Option String
money_word line = elim (after_prefix "money:" (lower line)) [
  | none ↦ none
  | some said ↦
      let word = lstrip_blanks (rstrip_blanks said) in
      if (word == "yes") || (word == "no") || (word == "yeſ") then some word else none
]

-- `_MONEY_MARKER.findall(text)`, in lower case.
unfoldable pub found : List String → List String
found [] = []
found (line ∷ lines) =
    let rest = found lines in elim (money_word line) [ none ↦ rest | some word ↦ word ∷ rest ]

-- `found != {"no"}`
unfoldable pub is_not_only_no : List String → Bool
is_not_only_no words = is_empty words || any (λ w. not (w == "no")) words

unfoldable pub touches_money : String → Bool
unfolding is_not_only_no
touches_money text = is_not_only_no (found (split_newline text))

unfoldable pub clears : String → Bool
clears line = elim (money_word line) [ none ↦ false | some word ↦ word == "no" ]

unfoldable pub accuses : String → Bool
accuses line = elim (money_word line) [ none ↦ false | some word ↦ not (word == "no") ]

is_empty-found :
    (lines : List String) → is_empty (found lines) ≡ not (any (λ l. clears l || accuses l) lines)
unfolding found clears accuses
is_empty-found [] = refl
is_empty-found (line ∷ lines) = ground (arith, is_empty-found lines)

any-found : (lines : List String) → any (λ w. not (w == "no")) (found lines) ≡ any accuses lines
unfolding found accuses
any-found [] = refl
any-found (line ∷ lines) = ground (arith, any-found lines)

any-or :
    (lines : List String) (p q : String → Bool)
    → any (λ l. p l || q l) lines ≡ (any p lines || any q lines)
any-or [] p q = refl
any-or (l ∷ lines) p q = ground (arith, any-or lines p q)

-- An issue is cleared of the money paths exactly when some line of the answer is the marker with
-- `no`, and no line of it is the marker with another word.
pub touches_money-false_iff :
    (text : String)
    → (touches_money text ≡ false)
      ↔ ((any clears (split_newline text) ≡ true) × (any accuses (split_newline text) ≡ false))
unfolding touches_money
touches_money-false_iff text = ground (
  arith,
  is_empty-found (split_newline text),
  any-found (split_newline text),
  any-or (split_newline text) clears accuses,
)
