-- ===== src/Contract/Verdicts.antt =====
-- `parse_thread_verdicts`: one decision for each thread.
pub mod Valid
use claude_code_reviewer.Prelude.{
  ℕ, String, Bool, true, false, not, ◌&&◌, ◌||◌, Option, none, some, List, [], ◌∷◌, ◌++◌, ◌==◌,
  string_eq, join, strip, lower, splitlines, split_newline, after_prefix, leading_number,
  if◌then◌else◌, map,
}
use claude_code_reviewer.Contract.Blocks.{end_marker}

pub data ThreadAction : Type 0 where
  resolve reply leave : ThreadAction

pub record ThreadVerdict : Type 0 where
  pub comment_id : ℕ
  pub action : ThreadAction
  pub body : String

-- `^<<<THREAD (\d+)>>>\s*$`
unfoldable pub thread_id : String → Option ℕ
unfolding after_prefix leading_number strip
thread_id line = elim (after_prefix "<<<THREAD " line) [
  | none ↦ none
  | some rest ↦ elim (leading_number rest) [
    | none ↦ none
    | some (n, more) ↦ elim (after_prefix ">>>" more) [
      | none ↦ none
      | some tail ↦ if strip tail == "" then some n else none
    ]
  ]
]

-- `^<<<END>>>\s*$`
unfoldable pub ends_thread : String → Bool
unfolding after_prefix strip
ends_thread line = elim (after_prefix end_marker line) [ none ↦ false | some r ↦ strip r == "" ]

unfoldable pub read_action : String → Option ThreadAction
read_action word =
    if word == "resolve"
    then some resolve
    else if word == "reply"
    then some reply
    else if word == "leave"
    then some leave
    else none

-- `ThreadVerdict.valid`: a reply needs a body.
abbrev pub is_valid : ThreadAction → String → Bool
is_valid reply body = not (strip body == "")
is_valid _ body = true

abbrev pub decision : ℕ → Option ThreadAction → String → Option ThreadVerdict
decision n none body = none
decision n (some a) body =
    if is_valid a body then some (record { comment_id = n; action = a; body = body }) else none

-- The body of the loop, on the lines of one capture.
unfoldable pub read_thread : ℕ → List String → Option ThreadVerdict
unfolding read_action lower join
read_thread n [] = none
read_thread n (first ∷ rest) =
    decision n (read_action (lower (strip first))) (strip (join "\n" rest))

abbrev pub add {ℓ} : {A : Type ℓ} → Option A → List A → List A
add none xs = xs
add (some x) xs = x ∷ xs

-- The scan of `finditer`; the open block is its id and its lines so far.
unfoldable pub scan_threads : Option (ℕ × List String) → List String → List ThreadVerdict
unfolding splitlines strip join
scan_threads held [] = []
scan_threads none (line ∷ lines) =
    scan_threads (elim (thread_id line) [ none ↦ none | some n ↦ some (n, []) ]) lines
scan_threads (some (n, body)) (line ∷ lines) =
    let closed =
      add (read_thread n (splitlines (strip (join "\n" body)))) (scan_threads none lines) in
    let longer = scan_threads (some (n, body ++ (line ∷ []))) lines in
    if ends_thread line then closed else longer

unfoldable pub parse_thread_verdicts : String → List ThreadVerdict
unfolding split_newline
parse_thread_verdicts text = scan_threads none (split_newline text)
