-- ===== src/Github/Reads.antt =====
-- What robbie/github.py makes of the answers of `gh`.
pub mod Keeps
use claude_code_reviewer.Prelude.{
  ℕ, String, ◌<>◌, Bool, true, false, not, ◌&&◌, Option, none, some, List, [], ◌∷◌, ◌==◌, nat_eq,
  string_eq, cat, str, strip, splitlines, has_text, any, map, filter, get_or, if◌then◌else◌,
}
use claude_code_reviewer.Github.{Check, PrMeta, PrThreads}
use claude_code_reviewer.Effects.{Answer, World, M, pure, raise, ask, catch, ◌>>=◌, ◌>>◌}
use claude_code_reviewer.Effects.Hub.{Hub, PrView, ReviewNode, LabeledRow}

-- `data.get(key) or default`
abbrev or_default : Option String → String → String
or_default none d = d
or_default (some s) d = if s == "" then d else s

unfoldable pub to_meta : PrView → PrMeta
to_meta v = record {
  number = v.number;
  title = or_default v.title "";
  url = or_default v.url "";
  author = or_default v.author "someone";
  head_sha = or_default v.head_ref_oid "";
  changed_files = get_or v.changed_files 0;
  labels = v.labels;
  checks = get_or v.status_check_rollup [];
  base_ref = or_default v.base_ref_name "main";
  state = or_default v.state "OPEN";
}

abbrev pub forbidden_node : String
forbidden_node = "not accessible by personal access token"

module _ (hub : Hub) where
  -- `_commit_statuses`
  unfoldable pub commit_statuses : String → String → M (List Check)
  commit_statuses repo sha =
      if sha == "" then pure [] else do rows ← ask (hub.statuses repo sha); pure (get_or rows [])

  unfoldable pub with_statuses : String → Option PrView → M (Option PrView)
  with_statuses repo none = pure none
  with_statuses repo (some v) = do
    rows ← commit_statuses repo (or_default v.head_ref_oid "")
    pure (some (record v { status_check_rollup = some rows }))

  -- The read without the rollup, for a token that cannot read check runs.
  unfoldable pub view_statuses : String → ℕ → String → M (Option PrView)
  view_statuses repo pr why =
      if not (has_text why forbidden_node)
      then raise why
      else do data_ ← ask (hub.pr_view false repo pr); with_statuses repo data_

  unfoldable pub found_meta : String → ℕ → Option PrView → M PrMeta
  found_meta repo pr none = raise (cat ("could not fetch " ∷ repo ∷ "#" ∷ str pr ∷ []))
  found_meta repo pr (some v) = pure (to_meta v)

  unfoldable pub pr_meta : String → ℕ → M PrMeta
  pr_meta repo pr = do
    data_ ← catch (ask (hub.pr_view true repo pr)) (view_statuses repo pr)
    found_meta repo pr data_

-- The last line of a read that is not blank.
unfoldable pub last_line : List String → Option String
last_line [] = none
last_line (line ∷ rest) = elim (last_line rest) [
  | some later ↦ some later
  | none ↦ if strip line == "" then none else some line
]

abbrev pub no_direct_request : String
no_direct_request = "norq"

module _ (hub : Hub) where
  unfoldable pub last_review_request : String → ℕ → String → M String
  unfolding splitlines
  last_review_request repo pr reviewer = do
    raw ← ask (hub.timeline repo pr reviewer)
    pure (get_or (last_line (splitlines raw)) no_direct_request)

  unfoldable pub whoami : M String
  whoami = do login ← ask hub.login; pure (strip login)

  unfoldable pub asked_since : String → ℕ → String → String → M Bool
  unfolding strip
  asked_since repo pr phrase since = if since == "" then pure false else do
    bodies ← ask (hub.comments_since repo pr since)
    pure (any (λ body. strip (or_default body "") == phrase) (get_or bodies []))

  unfoldable pub ci_already_asked : String → ℕ → String → String → M Bool
  unfolding strip
  ci_already_asked repo pr phrase sha = do
    since ← ask (hub.commit_date repo sha)
    asked_since repo pr phrase (strip since)

-- A review that still requests changes.
unfoldable pub rejects : String → Option ReviewNode → Bool
rejects reviewer none = false
rejects reviewer (some node) =
    node.state == "CHANGES_REQUESTED" && or_default node.login "" == reviewer

abbrev id_of : Option ReviewNode → Option String
id_of none = none
id_of (some node) = elim node.id [ none ↦ none | some s ↦ if s == "" then none else some s ]

unfoldable pub first_rejection : String → List (Option ReviewNode) → Option String
first_rejection reviewer [] = none
first_rejection reviewer (node ∷ rest) =
    let later = first_rejection reviewer rest in if rejects reviewer node then id_of node else later

-- `LabeledPr`
pub record LabeledPr : Type 0 where
  pub number : ℕ
  pub head : String
  pub labels : List String

abbrev labeled_pr : LabeledRow → LabeledPr
labeled_pr r = record {
  number = r.number;
  head = or_default r.head_ref_oid "";
  labels = map (λ l. or_default l "") r.labels;
}

abbrev numbers : List (Option ℕ) → List ℕ
numbers [] = []
numbers (none ∷ rest) = numbers rest
numbers (some n ∷ rest) = n ∷ numbers rest

module _ (hub : Hub) where
  unfoldable pub standing_rejection : String → ℕ → String → M (Option String)
  standing_rejection repo pr reviewer = do
    nodes ← ask (hub.opinionated repo pr)
    pure (first_rejection reviewer nodes)

  -- One row for each number, as `gh pr list` gives them.
  unfoldable pub labeled_heads : String → String → M (List LabeledPr)
  labeled_heads repo label = do
    rows ← ask (hub.labeled repo label)
    pure (map labeled_pr (get_or rows []))

  -- The numbers of the pull requests.
  unfoldable pub stale_changes_requested : String → String → String → M (List ℕ)
  stale_changes_requested repo reviewer label = do
    nodes ← ask (hub.changes_requested repo reviewer label)
    pure (numbers nodes)
