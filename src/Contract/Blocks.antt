-- ===== src/Contract/Blocks.antt =====
-- `_block`, `parse_blocks` and `parse_fix`. A text is read by its lines: a marker counts at the
-- start of a line alone.
pub mod Last
use Prim.Native.Char.{Char, code}
use claude_code_reviewer.Prelude.{
  ℕ, String, ◌<>◌, Bool, true, false, not, ◌&&◌, ◌||◌, Option, none, some, List, [], ◌∷◌, ◌++◌,
  ◌==◌, nat_eq, string_eq, leb, cat, join, strip, lower, keep_chars, split_newline, after_prefix,
  has_prefix, if◌then◌else◌,
}
use claude_code_reviewer.Db.Tables.{Verdict, needs_work, comment, ok}

abbrev pub end_marker : String
end_marker = "<<<END>>>"

-- `^<<<name>>>\s*$`
unfoldable pub opens : String → String → Bool
unfolding after_prefix strip
opens name line = elim (after_prefix (cat ("<<<" ∷ name ∷ ">>>" ∷ [])) line) [
  | none ↦ false
  | some rest ↦ strip rest == ""
]

-- `^<<<END>>>`
unfoldable pub closes : String → Bool
unfolding after_prefix
closes line = has_prefix end_marker line

-- The scan of `findall`, keeping its last capture: `body` is what the open block holds so far.
unfoldable pub last_block :
    String → Option (List String) → Option (List String) → List String → Option (List String)
unfolding opens closes
last_block name found body [] = found
last_block name found none (line ∷ lines) =
    last_block name found (if opens name line then some [] else none) lines
last_block name found (some body) (line ∷ lines) =
    last_block name (if closes line then some body else found)
      (if closes line then none else some (body ++ (line ∷ []))) lines

-- `found[-1].strip() if found else ""`
abbrev pub stripped : Option (List String) → String
stripped none = ""
stripped (some body) = strip (join "\n" body)

unfoldable pub block_lines : String → List String → String
unfolding last_block strip join
block_lines name lines = stripped (last_block name none none lines)

unfoldable pub block : String → String → String
unfolding block_lines split_newline
block text name = block_lines name (split_newline text)

-- `[^a-z-]` is what `re.sub` drops.
abbrev pub is_word_char : Char → Bool
is_word_char c = (leb 97 (code c) && leb (code c) 122) || (code c == 45)

-- `re.sub(r"[^a-z-]", "", _block(…).strip().lower())`
unfoldable pub verdict_word : String → String
unfolding strip lower
verdict_word s = keep_chars is_word_char (lower (strip s))

unfoldable pub read_verdict : String → Option Verdict
read_verdict word =
    if word == "needs-work"
    then some needs_work
    else if word == "comment"
    then some comment
    else if word == "ok"
    then some ok
    else none

pub record Blocks : Type 0 where
  pub verdict : Option Verdict
  pub github : String
  pub inline : String

abbrev pub may_publish : Option Verdict → Bool
may_publish (some needs_work) = true
may_publish (some comment) = true
may_publish _ = false

-- `Blocks.publishable`
unfoldable pub publishable : Blocks → Bool
unfolding strip
publishable b = may_publish b.verdict && not (strip b.github == "")

unfoldable pub parse_blocks : String → Blocks
unfolding block verdict_word read_verdict
parse_blocks text = record {
  verdict = read_verdict (verdict_word (block text "VERDICT"));
  github = block text "GITHUB";
  inline = block text "INLINE";
}

pub data FixVerdict : Type 0 where
  fixed cannot : FixVerdict

pub record FixBlocks : Type 0 where
  pub verdict : Option FixVerdict
  pub body : String

unfoldable pub parse_fix : String → FixBlocks
unfolding block verdict_word
parse_fix text =
    let word = verdict_word (block text "VERDICT") in
    record {
      verdict =
          if word == "fixed" then some fixed else if word == "cannot" then some cannot else none;
      body = block text "GITHUB";
    }
