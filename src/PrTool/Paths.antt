-- ===== src/PrTool/Paths.antt =====
-- What a patch names and how much it changes: `changed_paths` and `changed_lines`.
pub mod Headers
pub mod Plain
use Prim.Native.Char.{code}
use claude_code_reviewer.Prelude.{
  ℕ, String, ◌<>◌, Bool, true, false, not, ◌&&◌, ◌||◌, Option, none, some, List, [], ◌∷◌, ◌++◌,
  ◌==◌, nat_eq, string_eq, contains, filter, count, join, push, splitlines, split_newline,
  after_prefix, has_prefix, if◌then◌else◌, ◌≡◌, refl,
}

-- An optional quote in front.
abbrev pub unquote : String → Option String
unquote s = after_prefix "\"" s

abbrev pub or_try {ℓ} : {A : Type ℓ} → Option A → Option A → Option A
or_try none b = b
or_try (some a) b = some a

abbrev pub try {ℓ κ} : {A : Type ℓ} {B : Type κ} → Option A → (A → Option B) → Option B
try none f = none
try (some a) f = f a

-- `(.+?)"?$`: at least one character, and a closing quote is left out.
unfoldable pub to_end : String → String → Option String
to_end cur String.[] = if cur == "" then none else some cur
to_end cur (String.◌∷◌ c String.[]) =
    if (code c == 34) && not (cur == "") then some cur else some (push cur c)
to_end cur (String.◌∷◌ c (String.◌∷◌ d s)) = to_end (push cur c) (String.◌∷◌ d s)

-- ` "?b/(.+?)"?$`
abbrev pub second : String → Option String
second s = try (after_prefix " " s) λ r.
    or_try (try (unquote r) λ q. try (after_prefix "b/" q) (to_end ""))
      (try (after_prefix "b/" r) (to_end ""))

-- `"? "?b/(.+?)"?$`
unfoldable pub rest_of_header : String → Option String
unfolding after_prefix to_end
rest_of_header s = or_try (try (unquote s) second) (second s)

-- `(.+?)` of the first path: the shortest one after which the rest of the header matches.
unfoldable pub split_header : String → String → Option (String × String)
unfolding rest_of_header
split_header cur String.[] = none
split_header cur (String.◌∷◌ c s) =
    let longer = split_header (push cur c) s in
    elim (rest_of_header s) [ none ↦ longer | some b ↦ some (push cur c, b) ]

-- `^diff --git "?a/(.+?)"? "?b/(.+?)"?$`
unfoldable pub header : String → Option (String × String)
unfolding after_prefix split_header
header line = try (after_prefix "diff --git " line) λ r.
    or_try (try (unquote r) λ q. try (after_prefix "a/" q) (split_header ""))
      (try (after_prefix "a/" r) (split_header ""))

split_slash : String → String → List String
split_slash cur String.[] = cur ∷ []
split_slash cur (String.◌∷◌ c s) =
    let closed = split_slash "" s in
    let longer = split_slash (push cur c) s in if code c == 47 then cur ∷ closed else longer

-- The root of a path: two slashes, and no third, are kept.
abbrev root_of : String → String
root_of s =
    if has_prefix "///" s
    then "/"
    else if has_prefix "//" s
    then "//"
    else if has_prefix "/" s
    then "/"
    else ""

-- `PurePosixPath(path).as_posix()`
unfoldable pub as_posix : String → String
unfolding split_slash join after_prefix
as_posix path =
    let clean =
      root_of path
      <> join "/" (filter (λ part. not (part == "") && not (part == ".")) (split_slash "" path)) in
    if clean == "" then "." else clean

-- `seen.setdefault(…)`, unless the path is `/dev/null`.
unfoldable pub note_path : List String → String → List String
unfolding as_posix
note_path seen path =
    if (path == "/dev/null") || contains seen (as_posix path)
    then seen
    else seen ++ (as_posix path ∷ [])

unfoldable pub paths_from : List String → List String → List String
unfolding note_path
paths_from seen [] = seen
paths_from seen (line ∷ lines) =
    paths_from (elim (header line) [ none ↦ seen | some (a, b) ↦ note_path (note_path seen a) b ])
      lines

unfoldable pub changed_paths : String → List String
unfolding paths_from split_newline
changed_paths patch = paths_from [] (split_newline patch)

unfoldable pub is_change : String → Bool
unfolding after_prefix
is_change line =
    (has_prefix "+" line || has_prefix "-" line)
    && not (has_prefix "+++" line || has_prefix "---" line)

unfoldable pub changed_lines : String → ℕ
unfolding is_change splitlines
changed_lines patch = count is_change (splitlines patch)

header_test : header "diff --git a/x.rb b/y z.rb" ≡ some ("x.rb", "y z.rb")
unfolding header
header_test = refl

quoted_test : header "diff --git \"a/x y\" \"b/x y\"" ≡ some ("x y", "x y")
unfolding header
quoted_test = refl

-- A directory whose name ends in ` b` moves the split: the second path is not read as git reads it.
ambiguous_test :
    header "diff --git a/docs b/x.md b/.github/w.yml" ≡ some ("docs", "x.md b/.github/w.yml")
unfolding header
ambiguous_test = refl
