-- ===== src/Publish/Texts.antt =====
-- The bodies that robbie/publish.py posts, and its cut at the size that GitHub takes.
use Prim.Native.Char.{Char, code}
use claude_code_reviewer.Prelude.{
  ℕ, ◌+◌, ◌-◌, String, ◌<>◌, List, [], ◌∷◌, ◌++◌, ◌==◌, string_eq, ltb, leb, cat, join, rstrip,
  is_empty, take_chars, if◌then◌else◌,
}
use claude_code_reviewer.Github.{PrMeta}
use claude_code_reviewer.Anchor.Place.{Anchored}

-- `branding.signature`
unfoldable pub signature : String → String
signature name = cat ("🤖 **Automated pre-review by " ∷ name ∷ "**" ∷ [])

-- The bytes of a character in UTF-8.
unfoldable pub width : Char → ℕ
width c =
    if ltb (code c) 128
    then 1
    else if ltb (code c) 2048
    then 2
    else if ltb (code c) 65536
    then 3
    else 4

-- `len(text.encode("utf-8"))`
unfoldable pub bytes : String → ℕ
bytes String.[] = 0
bytes (String.◌∷◌ c s) = width c + bytes s

-- `raw[:n].decode("utf-8", errors="ignore")`: the characters that end within `n` bytes.
unfoldable pub take_bytes : ℕ → String → String
take_bytes n String.[] = String.[]
take_bytes n (String.◌∷◌ c s) =
    let rest = take_bytes (n - width c) s in
    if leb (width c) n then String.◌∷◌ c rest else String.[]

abbrev pub max_bytes : ℕ
max_bytes = 60000

abbrev pub cut_note : String
cut_note = "\n\n_…truncated._\n"

-- `_truncate`
unfoldable pub truncate : String → String
truncate text = if leb (bytes text) max_bytes then text else take_bytes max_bytes text <> cut_note

abbrev below : String → List String
below s = if s == "" then [] else ("\n" <> s) ∷ []

-- `_assemble`
unfoldable pub assemble : String → String → String → String → Anchored → String
unfolding join rstrip
assemble name marker label body a = truncate (
    join "\n" (
      marker
        ∷ (signature name <> "\n")
        ∷ cat (
            "_Once the fixes are in, take the `" ∷ label
            ∷ "` label off and I'll take another pass — no need to re-request the review._\n" ∷ [])
        ∷ rstrip body
        ∷ below a.leftovers
      ++ below a.folded))

-- What `publish_review` adds to a body that it posts as a comment on its own pull request.
unfoldable pub own_body : String → String
unfolding rstrip
own_body body =
    rstrip body
    <> "\n\n<sub>Posted as a comment rather than a changes-requested review: GitHub does not allow requesting changes on your own pull request.</sub>"

abbrev quoted : List String → String
quoted checks = cat ("`" ∷ join "`, `" checks ∷ "`" ∷ [])

-- The body of `post_ci_note`.
unfoldable pub ci_note_body : String → PrMeta → List String → String
unfolding join
ci_note_body name meta checks = cat (
    "<!-- robbie-ci-red sha="
    ∷ meta.head_sha
    ∷ " -->\n"
    ∷ signature name
    ∷ "\n\n"
    ∷ (if is_empty checks
        then "CI is red on this commit"
        else cat ("CI is red on this commit (" ∷ quoted checks ∷ ")" ∷ []))
    ∷ ", so I'm holding my review — too much of what I'd say tends to change once the build is green. Push a fix and I'll pick it up on my next pass; no need to re-request the review."
    ∷ [])

-- The body of `report_red_build`.
unfoldable pub red_build_body : String → PrMeta → List String → String
unfolding join take_chars
red_build_body name meta checks = cat (
    "<!-- robbie-approved-red sha="
    ∷ meta.head_sha
    ∷ " -->\n"
    ∷ signature name
    ∷ "\n\nI read this as ready and asked for a build, and "
    ∷ (if is_empty checks then "CI" else quoted checks)
    ∷ " came back red on "
    ∷ take_chars 8 meta.head_sha
    ∷ ". Nothing I found is blocking, so this is the build's news rather than mine — worth a look before a human spends time on it. Push a fix and the next pass picks it up; no need to re-request the review."
    ∷ [])

-- The body of `post_approval`.
unfoldable pub approval_body : String → PrMeta → String
unfolding take_chars
approval_body name meta = cat (
    "<!-- robbie-approved sha="
    ∷ meta.head_sha
    ∷ " -->\n"
    ∷ signature name
    ∷ "\n\n✅ **Approved for human review.** I found nothing blocking on "
    ∷ take_chars 8 meta.head_sha
    ∷ "; the final review and the merge are still a human's call."
    ∷ [])

abbrev pub or_red : List String → String
or_red checks = let s = join ", " checks in if s == "" then "red" else s
