-- ===== src/Github/Issues.antt =====
-- What robbie/github.py reads of issues: the queue, one issue, and what closes it.
use claude_code_reviewer.Prelude.{
  ℕ, String, Option, none, some, List, [], ◌∷◌, ◌==◌, string_eq, cat, str, is_empty, get_or, ◌||◌,
  if◌then◌else◌,
}
use claude_code_reviewer.Effects.{Answer, M, pure, raise, ask, ◌>>=◌}
use claude_code_reviewer.Publish.Issue.{IssueMeta}

-- `gh issue view --json`
pub record IssueView : Type 0 where
  pub number : ℕ
  pub title : Option String
  pub url : Option String
  pub author : Option String
  pub body : Option String
  pub labels : List String
  pub state : Option String

-- A node of `closedByPullRequestsReferences`.
pub record FixNode : Type 0 where
  pub url : Option String
  pub state : Option String

-- GitHub's answers about issues, as each call finds them; `head` lists the urls of the pull requests
-- of a branch.
pub record IssueHub : Type 0 where
  pub search : String → List String → ℕ → Answer (Option (List ℕ))
  pub view : String → ℕ → ℕ → Answer (Option IssueView)
  pub closing : String → ℕ → ℕ → Answer (List (Option FixNode))
  pub head : String → String → ℕ → Answer (Option (List (Option String)))

-- `data.get(key) or default`
abbrev or_text : Option String → String → String
or_text none d = d
or_text (some s) d = if s == "" then d else s

unfoldable pub to_issue : IssueView → IssueMeta
to_issue v = record {
  number = v.number;
  title = or_text v.title "";
  url = or_text v.url "";
  author = or_text v.author "someone";
  body = or_text v.body "";
  labels = v.labels;
  state = or_text v.state "OPEN";
}

abbrev kept_url : FixNode → List String → List String
kept_url n rest =
    let url = or_text n.url "" in
    let state = get_or n.state "" in
    if url == ""
    then rest
    else if (state == "OPEN") || (state == "MERGED")
    then url ∷ rest
    else rest

-- The urls of the nodes that are open or merged.
unfoldable pub fixes : List (Option FixNode) → List String
fixes [] = []
fixes (none ∷ nodes) = fixes nodes
fixes (some n ∷ nodes) = let rest = fixes nodes in kept_url n rest

module _ (hub : IssueHub) where
  unfoldable pub issue_queue : String → List String → M (List ℕ)
  issue_queue repo labels =
      if is_empty labels
      then raise "issue_queue: at least one label, or the queue is the whole repo"
      else do rows ← ask (hub.search repo labels); pure (get_or rows [])

  unfoldable pub found_issue : String → ℕ → Option IssueView → M IssueMeta
  found_issue repo number none = raise (cat ("could not fetch " ∷ repo ∷ "#" ∷ str number ∷ []))
  found_issue repo number (some v) = pure (to_issue v)

  unfoldable pub issue_meta : String → ℕ → M IssueMeta
  issue_meta repo number = do view ← ask (hub.view repo number); found_issue repo number view

  unfoldable pub fixing_prs : String → ℕ → M (List String)
  fixing_prs repo number = do nodes ← ask (hub.closing repo number); pure (fixes nodes)
