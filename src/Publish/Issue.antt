-- ===== src/Publish/Issue.antt =====
-- `settle_issue` and `point_to_fix`: a triage decision on an issue, with its queue label taken off
-- last.
pub mod Last
use claude_code_reviewer.Prelude.{
  ℕ, String, Bool, true, false, List, [], ◌∷◌, ◌==◌, string_eq, cat, str, join, is_empty,
  if◌then◌else◌,
}
use claude_code_reviewer.Config.{RepoConfig}
use claude_code_reviewer.Effects.{
  World, M, pure, send, ◌>>=◌, ◌>>◌, Write, comment, add_labels, remove_label, assign,
}
use claude_code_reviewer.Effects.Hub.{Hub}
use claude_code_reviewer.Publish.{PublishResult, result}
use claude_code_reviewer.Publish.Texts.{signature}

pub record IssueMeta : Type 0 where
  pub number : ℕ
  pub title : String
  pub url : String
  pub author : String
  pub body : String
  pub labels : List String
  pub state : String

unfoldable pub issue_body : String → String → String
issue_body name said = cat ("<!-- robbie-triage -->\n" ∷ signature name ∷ "\n\n" ∷ said ∷ [])

module _ (hub : Hub) (name : String) (repo : RepoConfig) (issue : IssueMeta) where
  abbrev pub assign_if : List String → M (Unit {0})
  assign_if [] = pure tt
  assign_if (a ∷ rest) = do send hub.takes (assign repo.slug issue.number (a ∷ rest)); pure tt

  abbrev pub label_if : String → M (Unit {0})
  label_if label =
      if label == ""
      then pure tt
      else do send hub.takes (add_labels repo.slug issue.number (label ∷ [])); pure tt

  -- What comes before the queue label.
  unfoldable pub settle_steps : String → String → List String → M (Unit {0})
  settle_steps said add_label assignee = do
    send hub.takes (comment repo.slug issue.number (issue_body name said))
    assign_if assignee
    label_if add_label

  unfoldable pub settle_issue : String → String → List String → String → Bool → M PublishResult
  unfolding str
  settle_issue said add_label assignee clears dry_run =
      if dry_run
      then pure (
          result false
            (cat ("dry run: would settle #" ∷ str issue.number ∷ " (" ∷ said ∷ ")" ∷ [])))
      else do
        settle_steps said add_label assignee
        send hub.takes (
            remove_label repo.slug issue.number
              (if clears == "" then repo.issues.clears else clears))
        pure (result true said)

  unfoldable pub point_to_fix : List String → String → Bool → M PublishResult
  unfolding join
  point_to_fix prs clears dry_run =
      settle_issue
        (cat (
          "Already fixed or being fixed in "
          ∷ join ", " prs
          ∷ ", so I am leaving this one alone."
          ∷ []))
        "" [] clears dry_run
