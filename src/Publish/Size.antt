-- ===== src/Publish/Size.antt =====
-- The size of a review's body.
use claude_code_reviewer.Prelude.{
  ℕ, ◌+◌, ◌-◌, ◌≤◌, String, ◌<>◌, ◌≡◌, refl, arith, leb, Bool-cases, inl, inr,
}
use text.Mathlib.TextLemmas.{nil-append, cons-append}
use claude_code_reviewer.Anchor.Place.{Anchored}
use claude_code_reviewer.Publish.Texts.{
  width, bytes, take_bytes, max_bytes, cut_note, truncate, assemble,
}

bytes-append : (s t : String) → bytes (s <> t) ≡ bytes s + bytes t
unfolding bytes
bytes-append String.[] t = rw (nil-append t) (omega arith)
bytes-append (String.◌∷◌ c s) t = rw (cons-append c s t) (omega (arith, bytes-append s t))

note_size : bytes cut_note ≡ 18
unfolding bytes width
note_size = refl

bytes-take_bytes : (n : ℕ) (s : String) → bytes (take_bytes n s) ≤ n
unfolding bytes take_bytes
bytes-take_bytes n String.[] = omega arith
bytes-take_bytes n (String.◌∷◌ c s) = elim (Bool-cases (leb (width c) n)) [
  | inl y ↦ rw y (ground (arith, bytes-take_bytes (n - width c) s))
  | inr y ↦ rw y (omega arith)
]

bytes-truncate : (text : String) → bytes (truncate text) ≤ 60018
unfolding truncate
bytes-truncate text = elim (Bool-cases (leb (bytes text) max_bytes)) [
  | inl y ↦ rw y (ground arith)
  | inr y ↦ rw y (
      grind (
        arith,
        bytes-append (take_bytes max_bytes text) cut_note,
        bytes-take_bytes max_bytes text,
        note_size,
      ))
]

-- The body of a review, as `_assemble` builds it, is at most 60018 bytes of UTF-8, below the 65536
-- that GitHub takes, whatever the model wrote. Replies to threads and comments on issues are not
-- covered.
pub bytes-assemble :
    (name marker label body : String) (a : Anchored)
    → bytes (assemble name marker label body a) ≤ 60018
unfolding assemble
bytes-assemble name marker label body a = bytes-truncate _
