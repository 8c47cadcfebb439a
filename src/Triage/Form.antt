-- ===== src/Triage/Form.antt =====
-- `fields`: the headings of an issue body and what is written under each.
pub mod Headings
use Prim.Native.Char.{code}
use claude_code_reviewer.Prelude.{
  ℕ, String, Bool, true, false, not, ◌&&◌, ◌||◌, Option, none, some, List, [], ◌∷◌, ◌++◌, map, ◌==◌,
  nat_eq, string_eq, contains, has_prefix, after_prefix, take_chars, strip, lstrip, join,
  split_newline, if◌then◌else◌, ◌≡◌, refl, arith, Bool-cases, inl, inr, ◌∙◌, length, unify_newlines,
  any, eq_iff,
}
use claude_code_reviewer.Triage.{Mapping}

-- The locals of the loop.
pub record Form : Type 0 where
  pub out : Mapping (List String)
  pub current : Option String
  pub fence : Option String

-- `line.lstrip("#")`
unfoldable pub lstrip_hash : String → String
lstrip_hash String.[] = String.[]
lstrip_hash (String.◌∷◌ c s) =
    let rest = lstrip_hash s in if code c == 35 then rest else String.◌∷◌ c s

-- `line.lstrip("#").strip()`
unfoldable pub heading_of : String → String
unfolding lstrip_hash
heading_of line = strip (lstrip_hash line)

-- `line.startswith(("## ", "### "))`
unfoldable pub is_heading : String → Bool
is_heading line = has_prefix "## " line || has_prefix "### " line

-- `stripped[:3] in _FENCES`
unfoldable pub is_fence : String → Bool
is_fence stripped = (take_chars 3 stripped == "```") || (take_chars 3 stripped == "~~~")

unfoldable pub heads : Mapping (List String) → List String
heads [] = []
heads ((head, lines) ∷ out) = head ∷ heads out

-- `out[current].append(line)`
unfoldable pub add_line : Mapping (List String) → String → String → Mapping (List String)
add_line [] current line = []
add_line ((head, lines) ∷ out) current line =
    let rest = add_line out current line in
    if head == current then (head, lines ++ (line ∷ [])) ∷ out else (head, lines) ∷ rest

-- `out[current] = []`: the value of a key that is there is replaced in its place.
unfoldable pub put : Mapping (List String) → String → Mapping (List String)
put [] head = (head, []) ∷ []
put ((h, lines) ∷ out) head =
    let rest = put out head in if h == head then (h, []) ∷ out else (h, lines) ∷ rest

-- `if current is not None: out[current].append(line)`
unfoldable pub keep_line : Form → String → Form
keep_line f line = elim f.current [
  | none ↦ f
  | some head ↦ record { out = add_line f.out head line; current = f.current; fence = f.fence }
]

-- The loop's body.
unfoldable pub read_line : Form → String → Form
unfolding keep_line
read_line f line = elim f.fence [
  | some mark ↦
      keep_line
        (record {
          out = f.out;
          current = f.current;
          fence = if has_prefix mark (lstrip line) then none else some mark;
        })
        line
  | none ↦
      if is_fence (lstrip line)
      then keep_line
          (record { out = f.out; current = f.current; fence = some (take_chars 3 (lstrip line)) })
          line
      else if is_heading line && not (contains (heads f.out) (heading_of line))
      then record {
        out = put f.out (heading_of line);
        current = some (heading_of line);
        fence = none;
      }
      else keep_line f line
]

unfoldable pub read_lines : Form → List String → Form
read_lines f [] = f
read_lines f (line ∷ lines) = read_lines (read_line f line) lines

unfoldable pub no_form : Form
no_form = record { out = []; current = none; fence = none }

-- `_answer`
unfoldable pub answer_of : String → String
answer_of text = if strip text == "_No response_" then "" else strip text

unfoldable pub fields : String → Mapping String
unfolding read_lines no_form
fields body =
    map (λ (head, lines). (head, answer_of (join "\n" lines)))
      (read_lines no_form (split_newline (unify_newlines body))).out
