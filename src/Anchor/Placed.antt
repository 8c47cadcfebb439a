-- ===== src/Anchor/Placed.antt =====
-- Where `anchor` puts findings: on lines of the diff, near the reported ones, and none is lost.
use claude_code_reviewer.Prelude.{
  ℕ, ◌≤◌, ◌<◌, String, true, ◌&&◌, Option, none, some, List, [], ◌∷◌, ◌≡◌, ◌⊎◌, inl, inr, refl,
  arith, nat_eq, nat_beq_iff, ltb, leb, contains, All, if◌then◌else◌, Bool-cases, Option-cases,
}
use claude_code_reviewer.Config.{Severity}
use claude_code_reviewer.Anchor.Json.{
  ℤ, pos, negsuc, Json, null, Converted, converted, caught, uncaught, Finding, field, get, as_int,
}
use claude_code_reviewer.Anchor.Render.{rank}
use claude_code_reviewer.Anchor.Place.{
  Inline, Placed, lines_at, gap, before, nearest, moved_to, target, is_start, starts, start_line,
  Turn, comment, leaves, folds, raises, inline, on_lines, line_of, placed_at, place_inline,
  is_below, turn, add, add_to, place,
}

-- No other line of the list is nearer.
abbrev pub IsNearest : List ℕ → ℤ → ℕ → Type 0
IsNearest lines line n = (m : ℕ) → contains lines m ≡ true → gap n line ≤ gap m line

IsNearest-cons :
    (line : ℤ) (n : ℕ) (rest : List ℕ) (m k : ℕ)
    → contains rest m ≡ true
    → IsNearest rest line m
    → (if before line n m then n else m) ≡ k
    → (contains (n ∷ rest) k ≡ true) × IsNearest (n ∷ rest) line k
unfolding before
IsNearest-cons line n rest m k c h e =
    (ground (arith, nat_beq_iff n k), λ j hj. ground (arith, h j, nat_beq_iff n j))

nearest-none : (line : ℤ) (lines : List ℕ) → nearest line lines ≡ none → lines ≡ []
unfolding nearest
nearest-none line [] h = refl
nearest-none line (n ∷ rest) h = elim (Option-cases (nearest line rest)) [
  | inl e ↦ ground (arith, e)
  | inr (m, e) ↦ ground (arith, e)
]

nearest_lem :
    (line : ℤ) (lines : List ℕ) (k : ℕ)
    → nearest line lines ≡ some k
    → (contains lines k ≡ true) × IsNearest lines line k
unfolding nearest
nearest_lem line [] k h = ground arith
nearest_lem line (n ∷ rest) k h = elim (Option-cases (nearest line rest)) [
  | inl e ↦ ground (arith, e, nearest-none line rest e, nat_beq_iff n k)
  | inr (m, e) ↦
      let (c, near) = nearest_lem line rest m e in
      IsNearest-cons line n rest m k c near (ground (arith, e, h))
]

gap_self : (n : ℕ) → gap n (pos n) ≡ 0
unfolding gap
gap_self n = omega arith

-- Where a line is found, it is of the list, at most 3 from the reported one, and none is nearer;
-- a reported line of the list stays.
abbrev pub IsTarget : List ℕ → ℤ → Option (ℕ × Option ℤ) → Type 0
IsTarget lines line none = (m : ℕ) → contains lines m ≡ true → 3 < gap m line
IsTarget lines line (some (n, snapped)) =
    (contains lines n ≡ true)
    × (gap n line ≤ 3)
    × IsNearest lines line n
    × ((snapped ≡ none) ⊎ (snapped ≡ some line))

moved_to_lem :
    (lines : List ℕ) (line : ℤ) (o : Option ℕ)
    → nearest line lines ≡ o
    → IsTarget lines line (moved_to o line)
unfolding moved_to
moved_to_lem lines line none e = λ m h. ground (arith, nearest-none line lines e)
moved_to_lem lines line (some n) e = elim (Bool-cases (leb (gap n line) 3)) [
  | inl y ↦ rw y (let (c, near) = nearest_lem line lines n e in (c, ground arith, near, inr refl))
  | inr y ↦ rw y (let (c, near) = nearest_lem line lines n e in λ m h. ground (arith, near m h))
]

-- A finding that is not on a line of the diff moves to the nearest line, at most 3 away, and to
-- none only when every line is farther.
pub target_lem : (lines : List ℕ) (line : ℤ) → IsTarget lines line (target lines line)
unfolding target
target_lem lines (pos n) = elim (Bool-cases (contains lines n)) [
  | inl y ↦ rw y (y, ground (arith, gap_self n), (λ m h. ground (arith, gap_self n)), inl refl)
  | inr y ↦ rw y (moved_to_lem lines (pos n) (nearest (pos n) lines) refl)
]
target_lem lines (negsuc n) = moved_to_lem lines (negsuc n) (nearest (negsuc n) lines) refl

-- A start line is an earlier line of the list.
abbrev pub IsStart : List ℕ → ℕ → Option Json → Type 0
IsStart lines line none = Unit
IsStart lines line (some v) =
    (n : ℕ) × (as_int v ≡ some (pos n)) × (n < line) × (contains lines n ≡ true)

pub record IsAnchored (valid : List (String × List ℕ)) (c : Inline) : Type 0 where
  pub lines : List ℕ
  pub has_lines : lines_at valid c.path ≡ some lines
  pub on_diff : contains lines c.line ≡ true
  pub starts : IsStart lines c.line c.start_line

IsStart-starts :
    (lines : List ℕ) (line : ℕ) (v : Json) (o : Option ℤ)
    → as_int v ≡ o
    → IsStart lines line (starts lines line v o)
unfolding starts is_start
IsStart-starts lines line v none e = tt
IsStart-starts lines line v (some (negsuc n)) e = tt
IsStart-starts lines line v (some (pos n)) e = elim (Bool-cases (ltb n line && contains lines n)) [
  | inl y ↦ rw y (n, e, ground arith, ground arith)
  | inr y ↦ rw y tt
]

-- What a turn of the loop adds is anchored.
abbrev pub IsTurn : List (String × List ℕ) → Turn → Type 0
IsTurn valid (comment c) = IsAnchored valid c
IsTurn valid _ = Unit

IsTurn-inline :
    (name : String) (valid : List (String × List ℕ)) (f : Finding) (lines : List ℕ)
    (o : Option (ℕ × Option ℤ)) (line : ℤ)
    → lines_at valid (get f "path" null) ≡ some lines
    → IsTarget lines line o
    → IsTurn valid (inline name f lines o line)
unfolding inline start_line
IsTurn-inline name valid f lines none line e h = tt
IsTurn-inline name valid f lines (some (n, snapped)) line e h = record {
  lines = lines;
  has_lines = e;
  on_diff = h.0;
  starts = let v = get f "start_line" null in IsStart-starts lines n v (as_int v) refl;
}

IsTurn-on_lines :
    (name : String) (valid : List (String × List ℕ)) (f : Finding) (lines : List ℕ) (c : Converted)
    → lines_at valid (get f "path" null) ≡ some lines
    → IsTurn valid (on_lines name f lines c)
unfolding on_lines
IsTurn-on_lines name valid f lines caught e = tt
IsTurn-on_lines name valid f lines uncaught e = tt
IsTurn-on_lines name valid f lines (converted line) e =
    IsTurn-inline name valid f lines (target lines line) line e (target_lem lines line)

IsTurn-placed_at :
    (name : String) (valid : List (String × List ℕ)) (f : Finding) (o : Option (List ℕ))
    → lines_at valid (get f "path" null) ≡ o
    → IsTurn valid (placed_at name f o)
unfolding placed_at
IsTurn-placed_at name valid f none e = tt
IsTurn-placed_at name valid f (some lines) e =
    IsTurn-on_lines name valid f lines (line_of (field f "line")) e

IsTurn-turn :
    (name : String) (valid : List (String × List ℕ)) (floor : Severity) (f : Finding)
    → IsTurn valid (turn name valid floor f)
unfolding turn place_inline
IsTurn-turn name valid floor f = elim (Bool-cases (is_below floor (rank f))) [
  | inl y ↦ rw y tt
  | inr y ↦ rw y (IsTurn-placed_at name valid f (lines_at valid (get f "path" null)) refl)
]

-- Lists of which every comment is anchored, where there are any.
abbrev pub AreAnchored : List (String × List ℕ) → Option Placed → Type 0
AreAnchored valid none = Unit
AreAnchored valid (some p) = All (IsAnchored valid) p.comments

AreAnchored-add :
    (valid : List (String × List ℕ)) (t : Turn) (p : Placed)
    → IsTurn valid t
    → All (IsAnchored valid) p.comments
    → AreAnchored valid (add t p)
unfolding add
AreAnchored-add valid (comment c) p h hs = (h, hs)
AreAnchored-add valid (leaves text) p h hs = hs
AreAnchored-add valid (folds text) p h hs = hs
AreAnchored-add valid raises p h hs = tt

AreAnchored-add_to :
    (valid : List (String × List ℕ)) (t : Turn) (o : Option Placed)
    → IsTurn valid t
    → AreAnchored valid o
    → AreAnchored valid (add_to t o)
unfolding add_to
AreAnchored-add_to valid t none h hs = tt
AreAnchored-add_to valid t (some p) h hs = AreAnchored-add valid t p h hs

-- Where the loop returns, every inline comment stands on a line that the patch of its path shows, and starts, if it
-- spans several, on an earlier line of the same patch.
pub place-AreAnchored :
    (name : String) (valid : List (String × List ℕ)) (floor : Severity) (fs : List Finding)
    → AreAnchored valid (place name valid floor fs)
unfolding place
place-AreAnchored name valid floor [] = tt
place-AreAnchored name valid floor (f ∷ fs) =
    AreAnchored-add_to valid (turn name valid floor f) (place name valid floor fs)
      (IsTurn-turn name valid floor f) (place-AreAnchored name valid floor fs)
