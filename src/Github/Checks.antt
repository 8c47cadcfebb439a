-- ===== src/Github/Checks.antt =====
-- Pull requests, and what CI says about the head commit.
pub mod Outcome
use Prim.Native.String.{compare}
use Prim.Native.Nat.{Ordering}
use claude_code_reviewer.Prelude.{
  ℕ, String, ◌<>◌, Bool, true, false, not, ◌&&◌, ◌||◌, List, [], ◌∷◌, filter, any, contains,
  is_empty, ◌==◌, string_eq, leb, join, words, take_chars, count_chars, upper, if◌then◌else◌,
}

-- One row of `statusCheckRollup`: a commit status or a check run, "" where a key is absent.
pub record Check : Type 0 where
  pub context : String
  pub name : String
  pub state : String
  pub conclusion : String
  pub status : String

-- `a or b` on texts
abbrev pub or_else : String → String → String
or_else a b = if a == "" then b else a

abbrev pub check_name_cap : ℕ
check_name_cap = 120

unfoldable pub one_line : String → String
unfolding words join take_chars
one_line name =
    let flat = join " " (words name) in
    if leb (count_chars flat) check_name_cap then flat else take_chars check_name_cap flat <> "…"

unfoldable pub check_name : Check → String
unfolding one_line
check_name c = one_line (or_else c.context (or_else c.name "check"))

-- `(check.get("state") or check.get("conclusion") or "").upper()`
unfoldable pub state_of : Check → String
unfolding upper
state_of c = upper (or_else c.state c.conclusion)

unfoldable pub status_of : Check → String
unfolding upper
status_of c = upper c.status

pub record PrMeta : Type 0 where
  pub number : ℕ
  pub title : String
  pub url : String
  pub author : String
  pub head_sha : String
  pub changed_files : ℕ
  pub labels : List String
  pub checks : List Check
  pub base_ref : String
  pub state : String

unfoldable pub has_label : PrMeta → String → Bool
has_label meta name = contains meta.labels name

abbrev pub failed_states : List String
failed_states = "FAILURE" ∷ "ERROR" ∷ "TIMED_OUT" ∷ "STARTUP_FAILURE" ∷ "ACTION_REQUIRED" ∷ []

abbrev pub pending_states : List String
pending_states = "PENDING" ∷ "EXPECTED" ∷ "IN_PROGRESS" ∷ "QUEUED" ∷ "WAITING" ∷ []

pub data Bucket : Type 0 where
  passing failing running other : Bucket

-- The chain of tests in the loop of `summarize_checks`.
unfoldable pub bucket : Check → Bucket
unfolding state_of status_of
bucket c =
    if state_of c == "SUCCESS"
    then passing
    else if contains failed_states (state_of c)
    then failing
    else if contains pending_states (state_of c)
        || ((state_of c == "") && contains pending_states (status_of c))
    then running
    else other

pub record CheckSummary : Type 0 where
  pub passing : List String
  pub failing : List String
  pub running : List String
  pub other : List String

abbrev before : String → String → Bool
before s t = elim (compare s t) [ Ordering.lt ↦ true | _ ↦ false ]

-- `sorted(set(names))`: insertion into a sorted list without repetitions.
unfoldable pub insert_sorted : String → List String → List String
insert_sorted s [] = s ∷ []
insert_sorted s (t ∷ ts) =
    let later = insert_sorted s ts in
    if s == t then t ∷ ts else if before s t then s ∷ t ∷ ts else t ∷ later

unfoldable pub sorted_set : List String → List String
unfolding insert_sorted
sorted_set [] = []
sorted_set (s ∷ names) = insert_sorted s (sorted_set names)

-- `state or status or '?'`
abbrev pub other_state : Check → String
other_state c = or_else (state_of c) (or_else (status_of c) "?")

abbrev pub same_bucket : Bucket → Bucket → Bool
same_bucket passing passing = true
same_bucket failing failing = true
same_bucket running running = true
same_bucket other other = true
same_bucket _ _ = false

-- The names that the loop appends to one of its four lists.
unfoldable pub names_in : Bucket → List Check → List String
unfolding bucket check_name
names_in b [] = []
names_in b (c ∷ checks) =
    let rest = names_in b checks in
    if same_bucket (bucket c) b
    then (if same_bucket b other then check_name c <> "=" <> other_state c else check_name c) ∷ rest
    else rest

unfoldable pub summarize_checks : List Check → CheckSummary
unfolding names_in sorted_set
summarize_checks checks = record {
  passing = sorted_set (names_in passing checks);
  failing = sorted_set (names_in failing checks);
  running = sorted_set (names_in running checks);
  other = sorted_set (names_in other checks);
}

-- `CheckSummary.empty`
unfoldable pub no_checks : CheckSummary → Bool
no_checks s = is_empty s.passing && is_empty s.failing && is_empty s.running && is_empty s.other

abbrev pub kept : List String → List String → List String
kept ignore names = filter (λ name. not (contains ignore name)) names

unfoldable pub ci_started : List Check → List String → Bool
unfolding check_name
ci_started checks ignore = any (λ c. not (contains ignore (check_name c))) checks

pub data CiOutcome : Type 0 where
  red waiting green : CiOutcome

unfoldable pub ci_outcome : List Check → List String → CiOutcome
unfolding summarize_checks
ci_outcome checks ignore =
    if not (is_empty (kept ignore (summarize_checks checks).failing))
    then red
    else if not (is_empty (kept ignore (summarize_checks checks).running))
        || is_empty (kept ignore (summarize_checks checks).passing)
    then waiting
    else green

unfoldable pub failing_checks : List Check → List String → List String
unfolding summarize_checks
failing_checks checks ignore = kept ignore (summarize_checks checks).failing
