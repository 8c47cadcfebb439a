-- ===== src/Effects/Hub.antt =====
-- GitHub, as each call finds it: the decoded answer of the `gh` call with that number. A key that
-- the answer lacks is `none`.
use claude_code_reviewer.Prelude.{ℕ, String, Bool, Option, List}
use claude_code_reviewer.Github.{Check, PrThreads}
use claude_code_reviewer.Effects.{Answer, Write, Taken}

-- `gh pr view --json`
pub record PrView : Type 0 where
  pub number : ℕ
  pub title : Option String
  pub url : Option String
  pub author : Option String
  pub head_ref_oid : Option String
  pub changed_files : Option ℕ
  pub labels : List String
  pub status_check_rollup : Option (List Check)
  pub base_ref_name : Option String
  pub state : Option String

-- A node of `latestOpinionatedReviews`.
pub record ReviewNode : Type 0 where
  pub id : Option String
  pub state : String
  pub login : Option String

-- A row of `gh pr list`.
pub record LabeledRow : Type 0 where
  pub number : ℕ
  pub head_ref_oid : Option String
  pub labels : List (Option String)

-- `pr_view` takes whether the rollup is asked for; `takes` answers a call that changes something
-- with its `html_url`, and says of one that ends in an error, as a timeout does, whether it took
-- effect.
pub record Hub : Type 0 where
  pub pr_view : Bool → String → ℕ → ℕ → Answer (Option PrView)
  pub statuses : String → String → ℕ → Answer (Option (List Check))
  pub timeline : String → ℕ → String → ℕ → Answer String
  pub threads : String → ℕ → String → ℕ → Answer PrThreads
  pub files : String → ℕ → ℕ → Answer (List (String × Option String))
  pub labels : String → ℕ → ℕ → Answer (Option (List String))
  pub opinionated : String → ℕ → ℕ → Answer (List (Option ReviewNode))
  pub commit_date : String → String → ℕ → Answer String
  pub comments_since : String → ℕ → String → ℕ → Answer (Option (List (Option String)))
  pub labeled : String → String → ℕ → Answer (Option (List LabeledRow))
  pub changes_requested : String → String → String → ℕ → Answer (List (Option ℕ))
  pub login : ℕ → Answer String
  pub takes : ℕ → Write → Taken
