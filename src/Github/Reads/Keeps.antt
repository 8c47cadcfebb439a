-- ===== src/Github/Reads/Keeps.antt =====
-- A read keeps whatever the calls to `gh` keep.
use claude_code_reviewer.Prelude.{ℕ, String, Option, none, some}
use claude_code_reviewer.Effects.{World}
use claude_code_reviewer.Effects.Keeps.{Keeps, Uncounted, keeps_rules}
use claude_code_reviewer.Effects.Hub.{Hub, PrView}
use claude_code_reviewer.Github.Reads.{
  pr_meta, commit_statuses, with_statuses, view_statuses, found_meta, last_review_request, whoami,
  asked_since, ci_already_asked, standing_rejection,
}

module _ (hub : Hub) {P : World → Type 0} ⦃u : Uncounted P⦄ where
  Keeps-commit_statuses : (repo sha : String) → Keeps P (commit_statuses hub repo sha)
  unfolding commit_statuses
  Keeps-commit_statuses repo sha = search keeps_rules

  Keeps-with_statuses : (repo : String) (v : Option PrView) → Keeps P (with_statuses hub repo v)
  unfolding with_statuses
  Keeps-with_statuses repo none = search keeps_rules
  Keeps-with_statuses repo (some v) = search (keeps_rules, Keeps-commit_statuses)

  Keeps-view_statuses :
      (repo : String) (pr : ℕ) (why : String) → Keeps P (view_statuses hub repo pr why)
  unfolding view_statuses
  Keeps-view_statuses repo pr why = search (keeps_rules, Keeps-with_statuses)

  Keeps-found_meta :
      (repo : String) (pr : ℕ) (v : Option PrView) → Keeps P (found_meta hub repo pr v)
  unfolding found_meta
  Keeps-found_meta repo pr none = search keeps_rules
  Keeps-found_meta repo pr (some v) = search keeps_rules

  pub Keeps-pr_meta : (repo : String) (pr : ℕ) → Keeps P (pr_meta hub repo pr)
  unfolding pr_meta
  Keeps-pr_meta repo pr = search (keeps_rules, Keeps-view_statuses, Keeps-found_meta)

  pub Keeps-last_review_request :
      (repo : String) (pr : ℕ) (reviewer : String)
      → Keeps P (last_review_request hub repo pr reviewer)
  unfolding last_review_request
  Keeps-last_review_request repo pr reviewer = search keeps_rules

  pub Keeps-whoami : Keeps P (whoami hub)
  unfolding whoami
  Keeps-whoami = search keeps_rules

  Keeps-asked_since :
      (repo : String) (pr : ℕ) (phrase since : String)
      → Keeps P (asked_since hub repo pr phrase since)
  unfolding asked_since
  Keeps-asked_since repo pr phrase since = search keeps_rules

  pub Keeps-ci_already_asked :
      (repo : String) (pr : ℕ) (phrase sha : String)
      → Keeps P (ci_already_asked hub repo pr phrase sha)
  unfolding ci_already_asked
  Keeps-ci_already_asked repo pr phrase sha = search (keeps_rules, Keeps-asked_since)

  pub Keeps-standing_rejection :
      (repo : String) (pr : ℕ) (reviewer : String)
      → Keeps P (standing_rejection hub repo pr reviewer)
  unfolding standing_rejection
  Keeps-standing_rejection repo pr reviewer = search keeps_rules

pub ruleset reads_rules = (
  Keeps-pr_meta, Keeps-last_review_request, Keeps-whoami, Keeps-ci_already_asked,
  Keeps-standing_rejection,
)
