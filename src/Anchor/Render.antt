-- ===== src/Anchor/Render.antt =====
-- The texts of findings and their severities: `render`, `_rank`, `_leftover` and the counts.
use claude_code_reviewer.Prelude.{
  ℕ, String, Bool, false, not, ◌&&◌, ◌||◌, Option, none, some, List, [], ◌∷◌, ◌==◌, string_eq,
  nat_eq, cat, strip, map_chars, lower, take_chars, splitlines, count, has_text, if◌then◌else◌,
}
use Prim.Native.Char.{Char, code}
use claude_code_reviewer.Config.{Severity, critical, must_fix, should_fix, nitpick}
use claude_code_reviewer.Anchor.Json.{
  ℤ, Json, null, string, integer, text_of, str_int, is_true, Finding, get,
}

-- The keys of `BADGE` and `RANK`.
abbrev pub badges : List (String × String)
badges =
    ("critical", "🛑 **Critical**")
    ∷ ("must-fix", "🔴 **Must-fix**")
    ∷ ("should-fix", "🟠 **Should-fix**")
    ∷ ("nitpick", "🔵 **Nitpick**")
    ∷ []

badge_in : List (String × String) → String → String
badge_in [] word = "🔵 **Note**"
badge_in ((w, badge) ∷ rest) word =
    let later = badge_in rest word in if w == word then badge else later

-- `str(f.get("severity", "")).strip().lower()`
abbrev pub severity_word : Finding → String
severity_word f = lower (strip (text_of (get f "severity" (string ""))))

-- `branding.signature_sub`
unfoldable pub signature_sub : String → String
signature_sub name = cat ("<sub>🤖 automated pre-review by " ∷ name ∷ "</sub>" ∷ [])

-- `str(f.get("title") or "").strip()`
abbrev title_of : Finding → String
title_of f = let v = get f "title" null in strip (if is_true v then text_of v else "")

-- `if snapped_from: …`
abbrev snapped_note : Option ℤ → String
snapped_note none = ""
snapped_note (some from) =
    if is_true (integer from)
    then cat ("\n\n<sub>reported for line " ∷ str_int from ∷ "</sub>" ∷ [])
    else ""

unfoldable pub render : String → Finding → Option ℤ → String
unfolding badge_in lower strip text_of take_chars signature_sub is_true str_int
render name f snapped_from =
    let badge = badge_in badges (severity_word f) in
    let title = title_of f in
    let head = if title == "" then badge else cat (badge ∷ " — " ∷ title ∷ []) in
    let body = cat (head ∷ "\n\n" ∷ strip (text_of (get f "body" (string ""))) ∷ []) in
    cat (take_chars 3000 body ∷ snapped_note snapped_from ∷ "\n\n" ∷ signature_sub name ∷ [])

abbrev dash : Char → Char
dash c = if code c == 32 then "-" else c

-- `.replace(" ", "-")`
unfoldable pub dashed : String → String
dashed s = map_chars dash s

-- The severity that a word names, in its two spellings.
unfoldable pub severity_of : String → Option Severity
severity_of word =
    if word == "critical"
    then some critical
    else if word == "must-fix" || word == "mustfix"
    then some must_fix
    else if word == "should-fix" || word == "shouldfix"
    then some should_fix
    else if word == "nitpick"
    then some nitpick
    else none

-- The severity of a finding, as `_rank` and `severity_count` read it.
unfoldable pub severity : Finding → Option Severity
unfolding dashed severity_of lower strip text_of
severity f = severity_of (dashed (severity_word f))

-- `RANK`
abbrev pub rank_of : Severity → ℕ
rank_of critical = 0
rank_of must_fix = 1
rank_of should_fix = 2
rank_of nitpick = 3

-- `_rank`
unfoldable pub rank : Finding → Option ℕ
rank f = elim (severity f) [ none ↦ none | some s ↦ some (rank_of s) ]

-- `_leftover`; a line that is not true is not named.
unfoldable pub leftover : Json → Json → Finding → String
unfolding text_of is_true
leftover path line f =
    let where_ =
      if is_true line
      then cat ("`" ∷ text_of path ∷ ":" ∷ text_of line ∷ "`" ∷ [])
      else cat ("`" ∷ text_of path ∷ "`" ∷ []) in
    cat (
      "- "
      ∷ where_
      ∷ " — "
      ∷ text_of (get f "title" (string "(no title)"))
      ∷ "\n\n  "
      ∷ text_of (get f "body" (string ""))
      ∷ [])

abbrev is_wanted : Bool → Option Severity → Bool
is_wanted blocking none = false
is_wanted blocking (some critical) = blocking
is_wanted blocking (some must_fix) = blocking
is_wanted blocking (some should_fix) = not blocking
is_wanted blocking (some nitpick) = false

-- `severity_count`
unfoldable pub severity_count : Bool → List Finding → ℕ
severity_count blocking findings = count (λ f. is_wanted blocking (severity f)) findings

-- `SEVERITY_LINE.search`: a colon with a digit after it.
unfoldable pub cites_line : String → Bool
cites_line s =
    has_text s ":0"
    || has_text s ":1"
    || has_text s ":2"
    || has_text s ":3"
    || has_text s ":4"
    || has_text s ":5"
    || has_text s ":6"
    || has_text s ":7"
    || has_text s ":8"
    || has_text s ":9"

unfoldable pub names_severity : String → Bool
names_severity s =
    has_text s "critical"
    || has_text s "must-fix"
    || has_text s "should-fix"
    || has_text s "nitpick"

unfoldable pub summary_findings : String → ℕ
unfolding splitlines lower
summary_findings body =
    count (λ line. names_severity (lower line) && cites_line line) (splitlines body)
