-- ===== src/Contract/Verdicts/Valid.antt =====
-- What a decision on a thread is read from.
use claude_code_reviewer.Prelude.{
  ℕ, String, Bool, true, false, not, ◌&&◌, ◌||◌, ◌==◌, nat_eq, Option, none, some, List, [], ◌∷◌,
  ◌++◌, string_eq, all, join, strip, lower, splitlines, split_newline, ◌≡◌, refl, arith, Bool-cases,
  Option-cases, inl, inr,
}
use claude_code_reviewer.Contract.Verdicts.{
  ThreadAction, resolve, reply, leave, ThreadVerdict, thread_id, ends_thread, read_action, decision,
  read_thread, add, scan_threads, parse_thread_verdicts,
}

abbrev is_reply : ThreadAction → Bool
is_reply resolve = false
is_reply reply = true
is_reply leave = false

-- A reply has a body that is not blank.
unfoldable pub has_body : ThreadVerdict → Bool
unfolding strip
has_body v = not (is_reply v.action) || not (strip v.body == "")

-- Some line opens a block for the id.
unfoldable pub opens_block : List String → ℕ → Bool
opens_block [] n = false
opens_block (line ∷ lines) n =
    let later = opens_block lines n in
    elim (thread_id line) [ none ↦ later | some m ↦ (m == n) || later ]

-- The decision has its body, and its id from the open block or a later line.
unfoldable fits : Option (ℕ × List String) → List String → ThreadVerdict → Bool
unfolding has_body opens_block
fits none lines v = has_body v && opens_block lines v.comment_id
fits (some (n, body)) lines v =
    has_body v && ((n == v.comment_id) || opens_block lines v.comment_id)

opens_later :
    (line : String) (lines : List String) (n : ℕ)
    → opens_block lines n ≡ true
    → opens_block (line ∷ lines) n ≡ true
unfolding opens_block
opens_later line lines n h = elim (Option-cases (thread_id line)) [
  | inl e ↦ rw (e, opens_block) h
  | inr (m, e) ↦ rw (e, opens_block, h) (ground arith)
]

opens_here :
    (line : String) (lines : List String) (m n : ℕ)
    → thread_id line ≡ some m
    → opens_block (line ∷ lines) n ≡ ((m == n) || opens_block lines n)
unfolding opens_block
opens_here line lines m n e = rw (e, opens_block) refl

module _ (q : ThreadVerdict → Bool) where
  all-add :
      (o : Option ThreadVerdict) (vs : List ThreadVerdict)
      → all q (add o []) ≡ true
      → all q vs ≡ true
      → all q (add o vs) ≡ true
  all-add none vs h k = k
  all-add (some v) vs h k = ground arith

  all-decision :
      (n : ℕ) (a : Option ThreadAction) (body : String)
      → ((v : ThreadVerdict) → v.comment_id ≡ n → has_body v ≡ true → q v ≡ true)
      → all q (add (decision n a body) []) ≡ true
  unfolding has_body
  all-decision n none body k = refl
  all-decision n (some resolve) body k =
      rw (k (record { comment_id = n; action = resolve; body = body }) refl refl) refl
  all-decision n (some leave) body k =
      rw (k (record { comment_id = n; action = leave; body = body }) refl refl) refl
  all-decision n (some reply) body k = elim (Bool-cases (strip body == "")) [
    | inl e ↦ rw e refl
    | inr e ↦
        rw (e, k (record { comment_id = n; action = reply; body = body }) refl (rw e refl)) refl
  ]

  all-read_thread :
      (n : ℕ) (lines : List String)
      → ((v : ThreadVerdict) → v.comment_id ≡ n → has_body v ≡ true → q v ≡ true)
      → all q (add (read_thread n lines) []) ≡ true
  unfolding read_thread
  all-read_thread n [] k = refl
  all-read_thread n (first ∷ rest) k =
      all-decision n (read_action (lower (strip first))) (strip (join "\n" rest)) k

  all-scan_threads :
      (held : Option (ℕ × List String)) (lines : List String)
      → ((v : ThreadVerdict) → fits held lines v ≡ true → q v ≡ true)
      → all q (scan_threads held lines) ≡ true
  unfolding scan_threads fits
  all-scan_threads held [] k = refl
  all-scan_threads none (line ∷ lines) k = elim (Option-cases (thread_id line)) [
    | inl e ↦ rw e (
        all-scan_threads none lines
          λ v h. k v (ground (arith, opens_later line lines v.comment_id)))
    | inr (n, e) ↦ rw e (
        all-scan_threads (some (n, [])) lines
          λ v h. k v (ground (arith, opens_here line lines n v.comment_id e)))
  ]
  all-scan_threads (some (n, body)) (line ∷ lines) k = elim (Bool-cases (ends_thread line)) [
    | inl e ↦ rw e (
        all-add (read_thread n (splitlines (strip (join "\n" body)))) (scan_threads none lines)
          (all-read_thread n (splitlines (strip (join "\n" body))) λ v same h. k v (ground arith))
          (all-scan_threads none lines
            λ v h. k v (ground (arith, opens_later line lines v.comment_id))))
    | inr e ↦ rw e (
        all-scan_threads (some (n, body ++ (line ∷ []))) lines
          λ v h. k v (ground (arith, opens_later line lines v.comment_id)))
  ]

-- Of the decisions read from a model's answer, each is on a thread whose id a line of the answer
-- opens a block for, and every reply has a body that is not blank.
pub parse_thread_verdicts_lem :
    (text : String)
    → all
        (λ v. has_body v && opens_block (split_newline text) v.comment_id)
        (parse_thread_verdicts text)
      ≡ true
unfolding parse_thread_verdicts
parse_thread_verdicts_lem text =
    all-scan_threads (λ v. has_body v && opens_block (split_newline text) v.comment_id) none
      (split_newline text) λ v h. unfold fits in h
