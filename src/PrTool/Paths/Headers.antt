-- ===== src/PrTool/Paths/Headers.antt =====
-- What the header pattern reads from any line of a patch is kept.
use claude_code_reviewer.Prelude.{
  String, true, ◌||◌, Option, none, some, List, [], ◌∷◌, ◌++◌, contains, ◌≡◌, ◌≢◌, refl, arith,
  eq_iff, string_eq, split_newline,
}
use mathlib.Core.List.{Memᴰ}
use claude_code_reviewer.PrTool.Paths.{header, note_path, paths_from, as_posix, changed_paths}

contains-append :
    (xs ys : List String) (a : String) → contains (xs ++ ys) a ≡ (contains xs a || contains ys a)
contains-append [] ys a = refl
contains-append (x ∷ xs) ys a = ground (arith, contains-append xs ys a)

contains-note_path :
    (seen : List String) (path a : String)
    → contains seen a ≡ true
    → contains (note_path seen path) a ≡ true
unfolding note_path
contains-note_path seen path a h = ground (arith, contains-append seen (as_posix path ∷ []) a)

note_path_self :
    (seen : List String) (path : String)
    → path ≢ "/dev/null"
    → contains (note_path seen path) (as_posix path) ≡ true
unfolding note_path
note_path_self seen path h = ground (
  arith,
  contains-append seen (as_posix path ∷ []) (as_posix path),
  eq_iff path "/dev/null",
  eq_iff (as_posix path) (as_posix path),
)

contains-noted :
    (h : Option (String × String)) (seen : List String) (a : String)
    → contains seen a ≡ true
    → contains (elim h [ none ↦ seen | some (x, y) ↦ note_path (note_path seen x) y ]) a ≡ true
contains-noted none seen a h = h
contains-noted (some (x, y)) seen a h =
    contains-note_path (note_path seen x) y a (contains-note_path seen x a h)

paths_from_grows :
    (seen lines : List String) (a : String)
    → contains seen a ≡ true
    → contains (paths_from seen lines) a ≡ true
unfolding paths_from
paths_from_grows seen [] a h = h
paths_from_grows seen (line ∷ lines) a h =
    paths_from_grows
      (elim (header line) [ none ↦ seen | some (x, y) ↦ note_path (note_path seen x) y ]) lines a
      (contains-noted (header line) seen a h)

paths_from_reads :
    (seen lines : List String) (line x y : String)
    → Memᴰ line lines
    → header line ≡ some (x, y)
    → (x ≢ "/dev/null" → contains (paths_from seen lines) (as_posix x) ≡ true)
      × (y ≢ "/dev/null" → contains (paths_from seen lines) (as_posix y) ≡ true)
unfolding paths_from
paths_from_reads seen [] line x y m e = elim m [ ]
paths_from_reads seen (l ∷ lines) line x y (Memᴰ.tail m) e =
    paths_from_reads
      (elim (header l) [ none ↦ seen | some (a, b) ↦ note_path (note_path seen a) b ]) lines line x
      y m e
paths_from_reads seen (l ∷ lines) line x y (Memᴰ.head q) e = rw (← q) (
    rw e (
      (λ h.
          paths_from_grows (note_path (note_path seen x) y) lines (as_posix x)
            (contains-note_path (note_path seen x) y (as_posix x) (note_path_self seen x h))),
      (λ h.
          paths_from_grows (note_path (note_path seen x) y) lines (as_posix y)
            (note_path_self (note_path seen x) y h)),
    ))

-- The two paths that the header pattern reads from a line of a patch are both among the paths that
-- are checked, each as `PurePosixPath` writes it, unless it is /dev/null. Where a path contains `
-- b/`, the pattern need not split the line where git does.
pub changed_paths_reads :
    (patch line x y : String)
    → Memᴰ line (split_newline patch)
    → header line ≡ some (x, y)
    → (x ≢ "/dev/null" → contains (changed_paths patch) (as_posix x) ≡ true)
      × (y ≢ "/dev/null" → contains (changed_paths patch) (as_posix y) ≡ true)
unfolding changed_paths
changed_paths_reads patch line x y m e = paths_from_reads [] (split_newline patch) line x y m e
