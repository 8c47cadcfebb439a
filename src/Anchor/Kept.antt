-- ===== src/Anchor/Kept.antt =====
-- What becomes of each finding.
use claude_code_reviewer.Prelude.{
  ℕ, ◌+◌, String, Bool, true, false, not, Option, none, some, List, [], ◌∷◌, ◌≡◌, refl, arith,
  subst, length, count, Bool-cases, inl, inr,
}
use claude_code_reviewer.Config.{Severity}
use claude_code_reviewer.Anchor.Json.{
  ℤ, null, Converted, converted, caught, uncaught, Finding, field, get,
}
use claude_code_reviewer.Anchor.Render.{rank}
use claude_code_reviewer.Anchor.Place.{
  Placed, lines_at, target, Turn, comment, leaves, folds, raises, inline, on_lines, line_of,
  placed_at, place_inline, is_below, turn, add, add_to, place,
}

-- A finding that is not folded becomes a comment or a leftover.
abbrev Goes : Bool → Turn → Type 0
Goes b (comment c) = b ≡ false
Goes b (leaves text) = b ≡ false
Goes b (folds text) = b ≡ true
Goes b raises = Unit

Goes-inline :
    (name : String) (f : Finding) (lines : List ℕ) (o : Option (ℕ × Option ℤ)) (line : ℤ)
    → Goes false (inline name f lines o line)
unfolding inline
Goes-inline name f lines none line = refl
Goes-inline name f lines (some t) line = refl

Goes-on_lines :
    (name : String) (f : Finding) (lines : List ℕ) (c : Converted)
    → Goes false (on_lines name f lines c)
unfolding on_lines
Goes-on_lines name f lines caught = refl
Goes-on_lines name f lines uncaught = tt
Goes-on_lines name f lines (converted line) = Goes-inline name f lines (target lines line) line

Goes-placed_at :
    (name : String) (f : Finding) (o : Option (List ℕ)) → Goes false (placed_at name f o)
unfolding placed_at
Goes-placed_at name f none = tt
Goes-placed_at name f (some lines) = Goes-on_lines name f lines (line_of (field f "line"))

Goes-turn :
    (name : String) (valid : List (String × List ℕ)) (floor : Severity) (f : Finding)
    → Goes (is_below floor (rank f)) (turn name valid floor f)
unfolding turn place_inline
Goes-turn name valid floor f = elim (Bool-cases (is_below floor (rank f))) [
  | inl y ↦ rw y refl
  | inr y ↦ rw y (Goes-placed_at name f (lines_at valid (get f "path" null)))
]

unfoldable below : Severity → Finding → Bool
below floor f = is_below floor (rank f)

abbrev Counts : Severity → List Finding → Option Placed → Type 0
Counts floor fs none = Unit
Counts floor fs (some p) =
    (length p.folded ≡ count (below floor) fs)
    × (length p.comments + length p.leftovers ≡ count (λ f. not (below floor f)) fs)

Counts-add :
    (floor : Severity) (f : Finding) (fs : List Finding) (t : Turn) (p : Placed)
    → Goes (below floor f) t
    → Counts floor fs (some p)
    → Counts floor (f ∷ fs) (add t p)
unfolding add
Counts-add floor f fs (comment c) p h (a, b) = ground arith
Counts-add floor f fs (leaves text) p h (a, b) = ground arith
Counts-add floor f fs (folds text) p h (a, b) = ground arith
Counts-add floor f fs raises p h c = tt

Counts-add_to :
    (floor : Severity) (f : Finding) (fs : List Finding) (t : Turn) (o : Option Placed)
    → Goes (below floor f) t
    → Counts floor fs o
    → Counts floor (f ∷ fs) (add_to t o)
unfolding add_to
Counts-add_to floor f fs t none h c = tt
Counts-add_to floor f fs t (some p) h c = Counts-add floor f fs t p h c

Counts-place :
    (name : String) (valid : List (String × List ℕ)) (floor : Severity) (fs : List Finding)
    → Counts floor fs (place name valid floor fs)
unfolding place below
Counts-place name valid floor [] = (refl, refl)
Counts-place name valid floor (f ∷ fs) =
    Counts-add_to floor f fs (turn name valid floor f) (place name valid floor fs)
      (Goes-turn name valid floor f) (Counts-place name valid floor fs)

-- Where the loop returns, which it does not when a finding raises, no finding is lost or doubled:
-- those with a readable severity below the floor are folded, and each other one is a comment or a
-- leftover.
pub length-place :
    (name : String) (valid : List (String × List ℕ)) (floor : Severity) (fs : List Finding)
    (p : Placed)
    → place name valid floor fs ≡ some p
    → (length p.folded ≡ count (λ f. is_below floor (rank f)) fs)
      × (length p.comments + length p.leftovers ≡ count (λ f. not (is_below floor (rank f))) fs)
unfolding below
length-place name valid floor fs p e = subst (Counts floor fs) e (Counts-place name valid floor fs)
