-- ===== src/Config.antt =====
-- The configuration records of robbie/config.py that the other components read.
pub mod Arms
use claude_code_reviewer.Prelude.{
  ℕ, String, Bool, Option, none, some, List, [], ◌∷◌, ◌==◌, string_eq, if◌then◌else◌,
}
use Arms.{ReviewModel}
use claude_code_reviewer.Triage.{Rules}

pub record IssueConfig : Type 0 where
  pub labels : List String
  pub clears : String
  pub fixable_label : String
  pub assignee : List String
  pub rules : Rules
  pub money_model : Option String
  pub money_via_endpoint : Bool
  pub fix_model : Option String
  pub fix_via_endpoint : Bool

-- `inline_min_severity`
pub data Severity : Type 0 where
  critical must_fix should_fix nitpick : Severity

pub record RepoConfig : Type 0 where
  pub slug : String
  pub reviewer_login : String
  pub label : String
  pub needs_work_label : String
  pub hold_labels : List String
  pub done_labels : List String
  pub self_review : Bool
  pub slack_channel : Option String
  pub ignore_checks : List String
  pub ci_phrase : String
  pub inline_min_severity : Severity
  pub issues : IssueConfig

-- `RepoConfig.brake_labels`
unfoldable pub brake_labels : RepoConfig → List String
brake_labels repo = repo.needs_work_label ∷ repo.hold_labels

-- `BudgetConfig`; its floats are counted in millionths, its two `stop_pct` are whole percents.
pub record BudgetConfig : Type 0 where
  pub daily_usd : ℕ
  pub stop_pct : ℕ
  pub reserve_pct : ℕ
  pub reserve_usd : ℕ
  pub endpoint_stop_pct : ℕ
  pub endpoint_reserve_pct : ℕ

pub data Backend : Type 0 where
  api oauth : Backend

pub record Config : Type 0 where
  pub repos : List RepoConfig
  pub backend : Backend
  pub max_concurrent_reviews : ℕ
  pub review_models : List ReviewModel
  pub budget : BudgetConfig
  pub fix_mcp : String

-- `Config.repo`; `none` is the `KeyError`.
unfoldable pub repo_for : List RepoConfig → String → Option RepoConfig
repo_for [] slug = none
repo_for (r ∷ repos) slug = if r.slug == slug then some r else repo_for repos slug
