-- ===== src/Triage/Form/Headings.antt =====
-- The first heading of a name keeps its text, whatever an answer quotes.
use claude_code_reviewer.Prelude.{
  String, false, not, ◌&&◌, Option, none, some, List, [], ◌∷◌, ◌++◌, ◌==◌, string_eq, contains,
  has_prefix, take_chars, lstrip, Bool-cases, Option-cases, ap, inl, inr, if◌then◌else◌, ◌≡◌, refl,
  sym, ◌∙◌, arith,
}
use claude_code_reviewer.Triage.{Mapping, get}
use claude_code_reviewer.Triage.Form.{
  Form, heads, add_line, put, keep_line, read_line, read_lines, is_fence, is_heading, heading_of,
}

-- The lines that stand under a heading begin with these.
abbrev pub Begins : List String → Option (List String) → Type 0
Begins lines o = (more : List String) × (o ≡ some (lines ++ more))

append_nil : (xs : List String) → xs ++ [] ≡ xs
append_nil [] = refl
append_nil (x ∷ xs) = ap (λ l. x ∷ l) (append_nil xs)

append_assoc : (xs ys zs : List String) → (xs ++ ys) ++ zs ≡ xs ++ (ys ++ zs)
append_assoc [] ys zs = refl
append_assoc (x ∷ xs) ys zs = ap (λ l. x ∷ l) (append_assoc xs ys zs)

Begins-same : (lines : List String) (o : Option (List String)) → o ≡ some lines → Begins lines o
Begins-same lines o e = ([], e ∙ ap some (sym (append_nil lines)))

get-put :
    (out : Mapping (List String)) (head h : String) (lines : List String)
    → contains (heads out) head ≡ false
    → get out h ≡ some lines
    → get (put out head) h ≡ some lines
unfolding get put heads
get-put [] head h lines c e = ground arith
get-put ((k, l) ∷ out) head h lines c e = ground (arith, get-put out head h lines)

get-add_line :
    (out : Mapping (List String)) (current line h : String) (lines : List String)
    → get out h ≡ some lines
    → Begins lines (get (add_line out current line) h)
unfolding get add_line
get-add_line [] current line h lines e = Begins-same lines none e
get-add_line ((k, l) ∷ out) current line h lines e = elim (Bool-cases (k == current)) [
  | inl y ↦ elim (Bool-cases (k == h)) [
    | inl z ↦ rw (y, z) (line ∷ [], ground arith)
    | inr z ↦ rw (y, z) (Begins-same lines (get out h) (ground arith))
  ]
  | inr y ↦ elim (Bool-cases (k == h)) [
    | inl z ↦ rw (y, z) (Begins-same lines (some l) (ground arith))
    | inr z ↦ rw (y, z) (get-add_line out current line h lines (ground arith))
  ]
]

get-keep_line :
    (f : Form) (line h : String) (lines : List String)
    → get f.out h ≡ some lines
    → Begins lines (get (keep_line f line).out h)
unfolding keep_line
get-keep_line f line h lines e = elim (Option-cases f.current) [
  | inl n ↦ rw n (Begins-same lines (get f.out h) e)
  | inr (head, s) ↦ rw s (get-add_line f.out head line h lines e)
]

get-read_line :
    (f : Form) (line h : String) (lines : List String)
    → get f.out h ≡ some lines
    → Begins lines (get (read_line f line).out h)
unfolding read_line
get-read_line f line h lines g = elim (Option-cases f.fence) [
  | inr (mark, e) ↦ rw e (
      get-keep_line
        (record {
          out = f.out;
          current = f.current;
          fence = if has_prefix mark (lstrip line) then none else some mark;
        })
        line h lines g)
  | inl e ↦ rw e (elim (Bool-cases (is_fence (lstrip line))) [
    | inl y ↦ rw y (
        get-keep_line
          (record { out = f.out; current = f.current; fence = some (take_chars 3 (lstrip line)) })
          line h lines g)
    | inr y ↦
        rw y
          (elim (Bool-cases (is_heading line && not (contains (heads f.out) (heading_of line)))) [
            | inl z ↦ rw z (
                Begins-same lines (get (put f.out (heading_of line)) h)
                  (get-put f.out (heading_of line) h lines (ground arith) g))
            | inr z ↦ rw z (
                get-keep_line (record { out = f.out; current = f.current; fence = none }) line h
                  lines g)
          ])
  ])
]

-- Whatever lines the loop of `fields` reads after it has a heading, fenced or not, that heading
-- typed again included, the lines it had under the heading stay, in front of what it adds to them:
-- no later text takes the place of an answer.
pub get-read_lines :
    (f : Form) (later : List String) (h : String) (lines : List String)
    → get f.out h ≡ some lines
    → Begins lines (get (read_lines f later).out h)
unfolding read_lines
get-read_lines f [] h lines g = Begins-same lines (get f.out h) g
get-read_lines f (line ∷ later) h lines g =
    let (more, e) = get-read_line f line h lines g in
    let (rest, e') = get-read_lines (read_line f line) later h (lines ++ more) e in
    (more ++ rest, e' ∙ ap some (append_assoc lines more rest))
