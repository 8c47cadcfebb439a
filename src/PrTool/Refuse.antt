-- ===== src/PrTool/Refuse.antt =====
-- `refuse`, `clean_title` and the limits.
pub mod Laws
use claude_code_reviewer.Prelude.{
  ℕ, suc, ◌+◌, String, ◌<>◌, Bool, true, false, not, ◌&&◌, ◌||◌, Option, none, some, List, [], ◌∷◌,
  ◌==◌, nat_eq, string_eq, ltb, leb, any, length, is_empty, cat, str, strip, words, join,
  take_chars, has_prefix, has_text, after_prefix, find, if◌then◌else◌,
}
use claude_code_reviewer.PrTool.Paths.{changed_paths, changed_lines}
use Prim.Native.String.{len}

abbrev pub max_files : ℕ
max_files = 12

abbrev pub max_lines : ℕ
max_lines = 400

abbrev pub max_patch_bytes : ℕ
max_patch_bytes = 200000

abbrev pub test_dirs : List String
test_dirs = "spec/" ∷ "test/" ∷ "tests/" ∷ "__tests__/" ∷ []

abbrev pub off_limits : List String
off_limits =
    ".github/" ∷ "db/migrate/" ∷ "db/schema.rb" ∷ "db/structure.sql" ∷ "Gemfile" ∷ "Gemfile.lock"
    ∷ "package.json" ∷ "yarn.lock" ∷ "package-lock.json" ∷ "Dockerfile" ∷ "docker-compose.yml"
    ∷ ".env" ∷ "config/credentials" ∷ []

-- `path.startswith("../") or PurePosixPath(path).is_absolute()`
unfoldable pub is_outside : String → Bool
unfolding after_prefix
is_outside path = has_prefix "../" path || has_prefix "/" path

-- `path == banned or path.startswith(banned)`
unfoldable pub hits : String → String → Bool
unfolding after_prefix
hits path banned = (path == banned) || has_prefix banned path

unfoldable pub is_banned : String → Bool
unfolding hits
is_banned path = any (hits path) off_limits

-- The loop over the paths.
unfoldable pub refuse_path : List String → Option String
refuse_path [] = none
refuse_path (path ∷ paths) =
    let rest = refuse_path paths in
    if is_outside path
    then some (path <> " is outside the repository")
    else if is_banned path
    then some (path <> " is off limits to an automated fix")
    else rest

unfoldable pub is_test : String → Bool
is_test path = any (has_text path) test_dirs

-- What `refuse` decides on the paths and the count of changed lines.
unfoldable pub refuse_change : List String → ℕ → Option String
refuse_change paths lines = elim (refuse_path paths) [
  | some why ↦ some why
  | none ↦
      if not (any is_test paths)
      then some "the patch changes no test, so CI cannot show the bug was fixed"
      else if ltb max_files (length paths)
      then some (
          cat (
            "the patch touches "
            ∷ str (length paths)
            ∷ " files, over the limit of "
            ∷ str max_files
            ∷ []))
      else if ltb max_lines lines
      then some (
          cat
            ("the patch changes " ∷ str lines ∷ " lines, over the limit of " ∷ str max_lines ∷ []))
      else none
]

unfoldable pub refuse : String → Option String
refuse patch =
    if strip patch == ""
    then some "the patch is empty"
    else if ltb max_patch_bytes (len patch)
    then some (cat ("the patch is over " ∷ str max_patch_bytes ∷ " bytes" ∷ []))
    else if is_empty (changed_paths patch)
    then some "no `diff --git` header in the patch, so nothing can be read from it"
    else refuse_change (changed_paths patch) (changed_lines patch)

unfoldable pub clean_title : String → ℕ → String
unfolding words join take_chars strip str
clean_title raw issue =
    let title = strip (take_chars 120 (join " " (words raw))) in
    if title == "" then "fix: issue #" <> str issue else title
