-- ===== src/Publish/Dry.antt =====
-- The dry run of each function of robbie/publish.py sends nothing.
use claude_code_reviewer.Prelude.{ℕ, String, Bool, true, Option, none, some, List, ◌≡◌}
use claude_code_reviewer.Config.{RepoConfig}
use claude_code_reviewer.Github.{PrMeta}
use claude_code_reviewer.Db.Tables.{Verdict}
use claude_code_reviewer.Anchor.Json.{Finding}
use claude_code_reviewer.Anchor.Place.{Anchored}
use claude_code_reviewer.Effects.{World}
use claude_code_reviewer.Effects.Keeps.{Keeps, Uncounted, keeps_rules}
use claude_code_reviewer.Effects.Hub.{Hub}
use claude_code_reviewer.Publish.{
  post_ci_note, report_red_build, post_approval, request_ci, clear_needs_work,
  dismiss_own_rejection, resolve_thread, reply_to_thread,
}
use claude_code_reviewer.Publish.Review.{diff_lines, or_raise, post_full, publish_review}

-- On a dry run these do what their reads do.
module _ (hub : Hub) {P : World → Type 0} ⦃u : Uncounted P⦄ where
  pub Keeps-post_ci_note :
      (name : String) (repo : RepoConfig) (meta : PrMeta) (checks : List String) (dry : Bool)
      → dry ≡ true
      → Keeps P (post_ci_note hub name repo meta checks dry)
  unfolding post_ci_note
  Keeps-post_ci_note name repo meta checks dry e = rw e (search keeps_rules)

  pub Keeps-report_red_build :
      (name : String) (repo : RepoConfig) (meta : PrMeta) (checks : List String) (dry : Bool)
      → dry ≡ true
      → Keeps P (report_red_build hub name repo meta checks dry)
  unfolding report_red_build
  Keeps-report_red_build name repo meta checks dry e = rw e (search keeps_rules)

  pub Keeps-post_approval :
      (name : String) (repo : RepoConfig) (meta : PrMeta) (dry : Bool)
      → dry ≡ true
      → Keeps P (post_approval hub name repo meta dry)
  unfolding post_approval
  Keeps-post_approval name repo meta dry e = rw e (search keeps_rules)

  pub Keeps-request_ci :
      (repo : RepoConfig) (meta : PrMeta) (dry : Bool)
      → dry ≡ true
      → Keeps P (request_ci hub repo meta dry)
  unfolding request_ci
  Keeps-request_ci repo meta dry e = rw e (search keeps_rules)

  pub Keeps-clear_needs_work :
      (repo : RepoConfig) (pr : ℕ) (dry : Bool)
      → dry ≡ true
      → Keeps P (clear_needs_work hub repo pr dry)
  unfolding clear_needs_work
  Keeps-clear_needs_work repo pr dry e = rw e (search keeps_rules)

  pub Keeps-dismiss_own_rejection :
      (node_id : String) (dry : Bool) → dry ≡ true → Keeps P (dismiss_own_rejection hub node_id dry)
  unfolding dismiss_own_rejection
  Keeps-dismiss_own_rejection node_id dry e = rw e (search keeps_rules)

  pub Keeps-resolve_thread :
      (node_id : String) (dry : Bool) → dry ≡ true → Keeps P (resolve_thread hub node_id dry)
  unfolding resolve_thread
  Keeps-resolve_thread node_id dry e = rw e (search keeps_rules)

  pub Keeps-reply_to_thread :
      (name : String) (repo : RepoConfig) (pr comment_id : ℕ) (body : String) (dry : Bool)
      → dry ≡ true
      → Keeps P (reply_to_thread hub name repo pr comment_id body dry)
  unfolding reply_to_thread
  Keeps-reply_to_thread name repo pr comment_id body dry e = rw e (search keeps_rules)

  Keeps-diff_lines : (repo : String) (pr : ℕ) → Keeps P (diff_lines hub repo pr)
  unfolding diff_lines
  Keeps-diff_lines repo pr = search keeps_rules

  Keeps-or_raise : (o : Option Anchored) → Keeps P (or_raise o)
  unfolding or_raise
  Keeps-or_raise none = search keeps_rules
  Keeps-or_raise (some a) = search keeps_rules

  Keeps-post_full :
      (as_review : Bool) (repo : RepoConfig) (meta : PrMeta) (full : String) (a : Anchored)
      (dry : Bool)
      → dry ≡ true
      → Keeps P (post_full hub as_review repo meta full a dry)
  unfolding post_full
  Keeps-post_full as_review repo meta full a dry e = rw e (search keeps_rules)

  pub Keeps-publish_review :
      (name : String) (verdict : Verdict) (repo : RepoConfig) (meta : PrMeta) (body : String)
      (findings : List Finding) (dry : Bool) (self_login : Option String)
      → dry ≡ true
      → Keeps P (publish_review hub name verdict repo meta body findings dry self_login)
  unfolding publish_review
  Keeps-publish_review name verdict repo meta body findings dry self_login e =
      search (keeps_rules, Keeps-diff_lines, Keeps-or_raise, Keeps-post_full)

pub ruleset dry_rules = (
  Keeps-post_ci_note, Keeps-report_red_build, Keeps-post_approval, Keeps-request_ci,
  Keeps-clear_needs_work, Keeps-dismiss_own_rejection, Keeps-resolve_thread, Keeps-reply_to_thread,
  Keeps-publish_review,
)
