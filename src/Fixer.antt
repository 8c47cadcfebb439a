-- ===== src/Fixer.antt =====
-- robbie/fixer.py: the tick over the issues that triage cleared for a fix.
use claude_code_reviewer.Prelude.{
  ℕ, String, ◌<>◌, Bool, false, not, ◌||◌, Option, none, some, List, [], ◌∷◌, ◌++◌, ◌==◌, string_eq,
  cat, str, strip, join, take_chars, filter, is_empty, get_or, if◌then◌else◌,
}
use claude_code_reviewer.Config.{RepoConfig}
use claude_code_reviewer.Budget.{check}
use claude_code_reviewer.Contract.Blocks.{parse_fix}
use claude_code_reviewer.Contract.Prompt.{fix_preamble}
use claude_code_reviewer.Db.Money.{record_spend}
use claude_code_reviewer.Github.Issues.{IssueHub, issue_queue, issue_meta, fixing_prs}
use claude_code_reviewer.Effects.{World, M, pure, ask, gets, modify, catch, ◌>>=◌, ◌>>◌}
use claude_code_reviewer.Publish.Issue.{IssueMeta, settle_issue, point_to_fix}
use claude_code_reviewer.Orchestrator.Tick.{ReviewRun}
use claude_code_reviewer.Issues.{Desk, notify}

-- `Fixed`
pub record Fixed : Type 0 where
  pub number : ℕ
  pub opened : String
  pub reason : String

abbrev pub fixed : ℕ → String → String → Option Fixed
fixed number opened reason = some (record { number = number; opened = opened; reason = reason })

unfoldable pub queue_labels : RepoConfig → List String
queue_labels repo =
    filter (λ lbl. not (lbl == repo.issues.clears)) repo.issues.labels
    ++ (repo.issues.fixable_label ∷ [])

-- The url of the first row; a row without one has the empty url.
unfoldable pub first_url : Option (List (Option String)) → String
first_url none = ""
first_url (some []) = ""
first_url (some (url ∷ rows)) = get_or url ""

unfoldable pub open_pr_for : IssueHub → String → ℕ → M String
unfolding str
open_pr_for hub slug number = do
  rows ← ask (hub.head slug ("robbie/issue-" <> str number))
  pure (first_url rows)

-- `_why_not`
unfoldable pub why_not : Bool → String → String
unfolding parse_fix strip
why_not ran text =
    let said = strip (parse_fix text).body in
    if not ran
    then "the fix run could not finish"
    else if said == ""
    then "the run ended without opening a pull request and without saying why"
    else said

abbrev private_of : String → Option String → String
private_of reason none = reason
private_of reason (some error) =
    if error == "" then reason else cat (reason ∷ " (" ∷ error ∷ ")" ∷ [])

module _ (d : Desk) (repo : RepoConfig) where
  abbrev opened_note : String → String
  opened_note opened =
      cat ("Opened " ∷ opened ∷ " for this — still a draft, and it needs a human review." ∷ [])

  abbrev back_note : String → String
  back_note reason =
      cat ("I could not fix this one, so it is back with a person.\n\n_" ∷ reason ∷ "_" ∷ [])

  -- `_settle`
  unfoldable pub settle : IssueMeta → String → String → M (Option Fixed)
  settle issue opened reason =
      let failed = opened == "" in
      do
        settle_issue d.hub d.name repo issue
            (if failed then back_note reason else opened_note opened) ""
            (if failed then repo.issues.assignee else []) repo.issues.fixable_label false
        pure (fixed issue.number opened reason)

  unfoldable pub spend : ℕ → ReviewRun → World → World
  spend number run w = record w {
    db =
        record_spend (d.time w.calls) repo.slug number "fix" run.cost_usd (some run.duration_s)
          w.db;
  }

  unfoldable pub fix_failed : ℕ → IssueMeta → ReviewRun → M (Option Fixed)
  unfolding str why_not take_chars join
  fix_failed number issue run = do
    let reason = why_not run.ok run.text
    let people = join ", " repo.issues.assignee
    notify d repo (cat ("robbie could not fix bug #" ∷ str number ∷ ": " ∷ issue.title ∷ []))
        issue.url
        (cat (
          "Assigned to "
          ∷ (if people == "" then "nobody" else people)
          ∷ ": "
          ∷ take_chars 400 (private_of reason run.error)
          ∷ []))
    settle issue "" reason

  unfoldable pub fix_opened : ℕ → IssueMeta → ReviewRun → String → M (Option Fixed)
  unfolding str parse_fix
  fix_opened number issue run opened = do
    let said = (parse_fix run.text).body
    notify d repo
        (cat ("robbie opened a draft PR for bug #" ∷ str number ∷ ": " ∷ issue.title ∷ [])) opened
        "It needs your review before it goes to Code Review."
    settle issue opened (if said == "" then "fixed" else said)

  -- The run, and what GitHub says came out of it.
  unfoldable pub run_one : ℕ → IssueMeta → M (Option Fixed)
  unfolding str fix_preamble
  run_one number issue = do
    notify d repo (cat ("robbie started fixing bug #" ∷ str number ∷ ": " ∷ issue.title ∷ []))
        issue.url "Usually takes 10 to 45 minutes."
    run ← ask (d.run_fix repo issue (fix_preamble number issue.title issue.body))
    modify (spend number run)
    opened ← open_pr_for d.issues repo.slug number
    if opened == "" then fix_failed number issue run else fix_opened number issue run opened

  unfoldable pub unfixed : ℕ → IssueMeta → List String → M (Option Fixed)
  unfixed number issue (pr ∷ prs) = do
    point_to_fix d.hub d.name repo issue (pr ∷ prs) repo.issues.fixable_label false
    pure (fixed number pr "someone else's pull request closes it")
  unfixed number issue [] = do
    allowed ←
        gets (λ w. (check (d.clock w.calls) d.cfg w.db 1 repo.issues.fix_via_endpoint).allowed)
    if not allowed then pure none else run_one number issue

  unfoldable pub with_open : ℕ → IssueMeta → String → M (Option Fixed)
  with_open number issue opened =
      if not (opened == "")
      then settle issue opened "a pull request was already open"
      else (do prs ← fixing_prs d.issues repo.slug number; unfixed number issue prs)

  -- `_fix_one`
  unfoldable pub fix_one : ℕ → Bool → M (Option Fixed)
  fix_one number dry_run = do
    issue ← issue_meta d.issues repo.slug number
    if not (issue.state == "OPEN")
        then pure none
        else if dry_run
        then pure none
        else do opened ← open_pr_for d.issues repo.slug number; with_open number issue opened

  abbrev kept : Option Fixed → List Fixed → List Fixed
  kept none rest = rest
  kept (some f) rest = f ∷ rest

  -- The loop of `fix_tick`.
  unfoldable pub fix_each : List ℕ → Bool → M (List Fixed)
  fix_each [] dry_run = pure []
  fix_each (number ∷ numbers) dry_run = do
    done ← catch (fix_one number dry_run) (λ why. pure none)
    rest ← fix_each numbers dry_run
    pure (kept done rest)

  unfoldable pub fix_tick : Bool → M (List Fixed)
  unfolding queue_labels
  fix_tick dry_run =
      if is_empty repo.issues.labels || (d.cfg.fix_mcp == "")
      then pure []
      else do numbers ← issue_queue d.issues repo.slug (queue_labels repo); fix_each numbers dry_run
