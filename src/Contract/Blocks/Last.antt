-- ===== src/Contract/Blocks/Last.antt =====
-- The last block of a name wins.
use claude_code_reviewer.Prelude.{
  String, Bool, true, false, Option, none, some, List, [], ◌∷◌, ◌++◌, not, any, strip, join, ◌≡◌,
  refl, ◌∙◌, ap, arith, is_some, Bool-cases, inl, inr, ◌↔◌, ◌≢◌, ◌⊎◌, eq_iff,
}
use claude_code_reviewer.Db.Tables.{needs_work, comment}
use mathlib.Core.List.{append_assoc, append-nil}
use claude_code_reviewer.Contract.Blocks.{
  opens, closes, last_block, stripped, block_lines, publishable, Blocks,
}

-- Whether a block of the name is open after these lines.
abbrev pub is_open : String → Bool → List String → Bool
is_open name state [] = state
is_open name true (line ∷ lines) = is_open name (not (closes line)) lines
is_open name false (line ∷ lines) = is_open name (opens name line) lines

-- Lines outside a block that open none change nothing.
last_block-closed :
    (name : String) (found : Option (List String)) (lines : List String)
    → any (opens name) lines ≡ false
    → last_block name found none lines ≡ found
unfolding last_block
last_block-closed name found [] h = refl
last_block-closed name found (line ∷ lines) h = ground (arith, last_block-closed name found lines)

-- The body of an open block up to its end marker.
last_block-body :
    (name : String) (found : Option (List String)) (sofar body : List String) (fin : String)
    (rest : List String)
    → any closes body ≡ false
    → closes fin ≡ true
    → last_block name found (some sofar) (body ++ (fin ∷ rest))
      ≡ last_block name (some (sofar ++ body)) none rest
unfolding last_block
last_block-body name found sofar [] fin rest h c = ground (arith, append-nil sofar)
last_block-body name found sofar (line ∷ body) fin rest h c = ground (
  arith,
  last_block-body name found (sofar ++ (line ∷ [])) body fin rest,
  append_assoc sofar (line ∷ []) body,
)

opened :
    (name : String) (found : Option (List String)) (start : String) (rest : List String)
    → opens name start ≡ true
    → last_block name found none (start ∷ rest) ≡ last_block name found (some []) rest
unfolding last_block
opened name found start rest h = rw (h, last_block) refl

-- Whatever is found or open so far, the scan of the lines after a prefix that leaves no block
-- open starts afresh.
last_block-prefix :
    (name : String) (found body : Option (List String)) (before after : List String)
    → is_open name (is_some body) before ≡ false
    → (f : Option (List String)) × (last_block name found body (before ++ after)
        ≡ last_block name f none after)
unfolding last_block
last_block-prefix name found none [] after h = (found, refl)
last_block-prefix name found (some body) [] after h = cc
last_block-prefix name found none (line ∷ before) after h = elim (Bool-cases (opens name line)) [
  | inl y ↦ rw (y, last_block) (last_block-prefix name found (some []) before after (ground arith))
  | inr n ↦ rw (n, last_block) (last_block-prefix name found none before after (ground arith))
]
last_block-prefix name found (some body) (line ∷ before) after h = elim (Bool-cases (closes line)) [
  | inl y ↦ rw (y, last_block) (last_block-prefix name (some body) none before after (ground arith))
  | inr n ↦
      rw (n, last_block)
        (last_block-prefix name found (some (body ++ (line ∷ []))) before after (ground arith))
]

-- Whatever precedes it, quoted blocks included, the last block of a name is the one that is read:
-- after lines that leave no block of the name open, a block whose body has no end marker, and
-- lines that open no other, the text of that body is the result.
pub block_lines-last :
    (name start fin : String) (before body after : List String)
    → is_open name false before ≡ false
    → opens name start ≡ true
    → any closes body ≡ false
    → closes fin ≡ true
    → any (opens name) after ≡ false
    → block_lines name (before ++ (start ∷ (body ++ (fin ∷ after)))) ≡ strip (join "\n" body)
unfolding block_lines
block_lines-last name start fin before body after outside o b e a =
    let (f, same) =
      last_block-prefix name none none before (start ∷ (body ++ (fin ∷ after))) outside in
    ap stripped (
      same
      ∙ opened name f start (body ++ (fin ∷ after)) o
      ∙ last_block-body name f [] body fin after b e
      ∙ last_block-closed name (some body) after a)

-- A verdict is one of the three words or none, and only a needs-work or a comment with a summary
-- is published.
pub publishable_iff :
    (b : Blocks)
    → (publishable b ≡ true)
      ↔ (((b.verdict ≡ some needs_work) ⊎ (b.verdict ≡ some comment)) × (strip b.github ≢ ""))
unfolding publishable
publishable_iff b = ground (arith, eq_iff (strip b.github) "")
