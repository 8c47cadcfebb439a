-- ===== src/PrTool/Paths/Plain.antt =====
-- The headers that git writes for paths without a space and without a quote.
use Prim.Native.Char.{Char, code}
use Prim.Native.String.append
use text.Mathlib.TextLemmas.{append_assoc}
use claude_code_reviewer.Prelude.{
  String, ◌<>◌, Bool, true, false, not, ◌&&◌, ◌||◌, ◌==◌, nat_eq, string_eq, none, some, ◌≡◌, ◌≢◌,
  refl, sym, arith, contains, push, after_prefix, split_newline, ◌∙◌, ap, any_char,
}
use mathlib.Core.List.{Memᴰ}
use claude_code_reviewer.PrTool.Paths.{
  to_end, rest_of_header, split_header, header, as_posix, changed_paths,
}
use claude_code_reviewer.PrTool.Paths.Headers.{changed_paths_reads}

-- A space or a quote: the pattern may split at the first, and git quotes a path with the second.
abbrev pub is_special : Char → Bool
is_special c = (code c == 32) || (code c == 34)

-- A path of one character at least, none of them a space or a quote.
abbrev pub is_plain : String → Bool
is_plain String.[] = false
is_plain (String.◌∷◌ c s) = not (is_special c) && not (any_char is_special s)

abbrev onto : String → String → String
onto String.[] t = t
onto (String.◌∷◌ c s) t = String.◌∷◌ c (onto s t)

onto_lem : (s t : String) → onto s t ≡ s <> t
onto_lem String.[] t = sym (append.nil t)
onto_lem (String.◌∷◌ c s) t = ap (λ u. String.◌∷◌ c u) (onto_lem s t) ∙ sym (append.cons c s t)

push-append : (cur s : String) (c : Char) → push cur c <> s ≡ cur <> String.◌∷◌ c s
push-append cur s c =
    append_assoc cur (String.◌∷◌ c "") s
    ∙ ap (λ u. cur <> u) (append.cons c "" s ∙ ap (λ u. String.◌∷◌ c u) (append.nil s))

to_end-plain :
    (cur s : String) (c : Char)
    → is_plain (String.◌∷◌ c s) ≡ true
    → to_end cur (String.◌∷◌ c s) ≡ some (cur <> String.◌∷◌ c s)
unfolding to_end
to_end-plain cur String.[] c h = ground arith
to_end-plain cur (String.◌∷◌ d s) c h =
    to_end-plain (push cur c) s d (ground arith) ∙ ap some (push-append cur (String.◌∷◌ d s) c)

-- What follows the first path.
abbrev second_of : String → String
second_of y = String.◌∷◌ " " (String.◌∷◌ "b" (String.◌∷◌ "/" y))

to_end_whole : (y : String) → is_plain y ≡ true → to_end "" y ≡ some y
to_end_whole String.[] h = ground arith
to_end_whole (String.◌∷◌ c s) h = to_end-plain "" s c h ∙ ap some (append.nil (String.◌∷◌ c s))

rest_of_header_lem : (y : String) → is_plain y ≡ true → rest_of_header (second_of y) ≡ some y
unfolding rest_of_header after_prefix
rest_of_header_lem y h = rw (to_end_whole y h) refl

rest_of_header-none :
    (d : Char) (s : String) → is_special d ≡ false → rest_of_header (String.◌∷◌ d s) ≡ none
unfolding rest_of_header after_prefix
rest_of_header-none d s h = ground arith

split_header-plain :
    (cur s y : String) (c : Char)
    → is_plain (String.◌∷◌ c s) ≡ true
    → is_plain y ≡ true
    → split_header cur (String.◌∷◌ c (onto s (second_of y))) ≡ some (cur <> String.◌∷◌ c s, y)
unfolding split_header
split_header-plain cur String.[] y c h k = rw (rest_of_header_lem y k, split_header) refl
split_header-plain cur (String.◌∷◌ d s) y c h k =
    rw (rest_of_header-none d (onto s (second_of y)) (ground arith), split_header)
      (split_header-plain (push cur c) s y d (ground arith) k
        ∙ ap (λ u. some (u, y)) (push-append cur (String.◌∷◌ d s) c))

header-onto :
    (x y : String)
    → is_plain x ≡ true
    → is_plain y ≡ true
    → header (onto "diff --git a/" (onto x (second_of y))) ≡ some (x, y)
unfolding header after_prefix
header-onto String.[] y h k = ground arith
header-onto (String.◌∷◌ c s) y h k =
    split_header-plain "" s y c h k ∙ ap (λ u. some (u, y)) (append.nil (String.◌∷◌ c s))

-- The header line of a change from one path to another.
abbrev pub header_of : String → String → String
header_of x y = "diff --git a/" <> (x <> (" b/" <> y))

header-header_of :
    (x y : String) → is_plain x ≡ true → is_plain y ≡ true → header (header_of x y) ≡ some (x, y)
header-header_of x y h k =
    ap header (
      sym (
        onto_lem "diff --git a/" (onto x (second_of y))
        ∙ ap (λ u. "diff --git a/" <> u)
            (onto_lem x (second_of y) ∙ ap (λ u. x <> u) (onto_lem " b/" y))))
    ∙ header-onto x y h k

-- Where a patch has the line `diff --git a/x b/y`, for two paths x and y without a space and
-- without a quote, both paths are among those that are checked, each as `PurePosixPath` writes it,
-- unless it is /dev/null.
pub changed_paths-plain :
    (patch x y : String)
    → is_plain x ≡ true
    → is_plain y ≡ true
    → Memᴰ (header_of x y) (split_newline patch)
    → (x ≢ "/dev/null" → contains (changed_paths patch) (as_posix x) ≡ true)
      × (y ≢ "/dev/null" → contains (changed_paths patch) (as_posix y) ≡ true)
changed_paths-plain patch x y h k m =
    changed_paths_reads patch (header_of x y) x y m (header-header_of x y h k)
