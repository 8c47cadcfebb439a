-- ===== src/Issues.antt =====
-- robbie/issues.py: the tick over the queue of bugs.
pub mod Kept
pub mod Dry
use claude_code_reviewer.Prelude.{
  ℕ, String, ◌<>◌, Bool, true, false, not, Option, none, some, List, [], ◌∷◌, ◌==◌, string_eq, cat,
  str, join, take_chars, is_empty, get_or, if◌then◌else◌,
}
use claude_code_reviewer.Config.{Config, RepoConfig}
use claude_code_reviewer.Triage.{Action, Verdict, attempt, assign, verdict}
use claude_code_reviewer.Triage.Form.{fields}
use claude_code_reviewer.Triage.Money.{touches_money}
use claude_code_reviewer.Triage.Prompt.{money_prompt}
use claude_code_reviewer.Triage.Sentry.{from_sentry}
use claude_code_reviewer.Budget.{Clock, check}
use claude_code_reviewer.Db.Money.{record_spend}
use claude_code_reviewer.Github.Issues.{IssueHub, issue_queue, issue_meta, fixing_prs}
use claude_code_reviewer.Effects.{
  Answer, World, M, pure, raise_exception, ask, gets, modify, catch, say, notice, ◌>>=◌, ◌>>◌,
}
use claude_code_reviewer.Effects.Hub.{Hub}
use claude_code_reviewer.Publish.Issue.{IssueMeta, settle_issue, point_to_fix}
use claude_code_reviewer.Orchestrator.Tick.{ReviewRun}

-- `Settled`
pub record Settled : Type 0 where
  pub number : ℕ
  pub action : String
  pub reason : String

-- What a tick stands on. `jane` is whether a socket and a token for notices are set; `run_review`
-- is the container in its mode `money`, on the
-- prompt, and `run_fix` the one in its mode `fix`.
pub record Desk : Type 0 where
  pub name : String
  pub cfg : Config
  pub hub : Hub
  pub issues : IssueHub
  pub jane : Bool
  pub time : ℕ → ℕ
  pub clock : ℕ → Clock
  pub run_review : RepoConfig → IssueMeta → String → ℕ → Answer ReviewRun
  pub run_fix : RepoConfig → IssueMeta → String → ℕ → Answer ReviewRun

unfoldable pub action_name : Action → String
action_name attempt = "attempt"
action_name Action.ask = "ask"
action_name assign = "assign"

abbrev decided : Action → String → Verdict
decided action reason = record { action = action; reason = reason }

-- `repo.issues.money_model or "the account default"`
abbrev arm_of : Option String → String
arm_of none = "the account default"
arm_of (some m) = if m == "" then "the account default" else m

-- What the answer of the model makes of the question, and the error for the operator.
unfoldable pub after_money : RepoConfig → ReviewRun → Verdict × String
after_money repo run =
    let arm = arm_of repo.issues.money_model in
    if not run.ok
    then (decided assign "the money check could not finish", get_or run.error "")
    else if touches_money run.text
    then (decided assign (arm <> " found a money path in the code this report lands in"), "")
    else (decided attempt (arm <> " found no money path in the code this report lands in"), "")

module _ (d : Desk) (repo : RepoConfig) where
  -- `jane.notify`, less its urgency.
  unfoldable pub notify : String → String → String → M (Unit {0})
  notify title url body = if d.jane then say (notice (take_chars 200 title) url body) else pure tt

  unfoldable pub spend : IssueMeta → ReviewRun → World → World
  spend issue run w = record w {
    db =
        record_spend (d.time w.calls) repo.slug issue.number "money" run.cost_usd
          (some run.duration_s) w.db;
  }

  -- `_ask_about_money`; `none` asks again next tick.
  unfoldable pub ask_about_money : IssueMeta → Bool → M (Option (Verdict × String))
  ask_about_money issue dry_run = if dry_run then pure none else do
    allowed ←
        gets (λ w. (check (d.clock w.calls) d.cfg w.db 1 repo.issues.money_via_endpoint).allowed)
    if not allowed then pure none else do
      run ← ask (d.run_review repo issue (money_prompt issue.title issue.body))
      modify (spend issue run)
      pure (some (after_money repo run))

  unfoldable pub tell_person : IssueMeta → String → String → Bool → M (Unit {0})
  tell_person issue reason error dry_run =
      let people = join ", " repo.issues.assignee in
      if dry_run
      then pure tt
      else notify
          (cat ("Triage assigned bug #" ∷ str issue.number ∷ " to a person: " ∷ issue.title ∷ []))
          issue.url
          (cat (
            "To "
            ∷ (if people == "" then "nobody" else people)
            ∷ ": "
            ∷ reason
            ∷ (if error == "" then "" else cat (" (" ∷ error ∷ ")" ∷ []))
            ∷ []))

  abbrev pub concluded : ℕ → Verdict → Option Settled
  concluded number v =
      some (record { number = number; action = action_name v.action; reason = v.reason })

  abbrev pub fix_note : String → String
  fix_note reason = cat (
      "Nothing in this report puts it out of an automated fix's reach, so it is queued for one. "
      ∷ "A person reviews whatever comes out of that.\n\n_" ∷ reason ∷ "._" ∷ [])

  unfoldable pub to_fix : ℕ → IssueMeta → Bool → Verdict → M (Option Settled)
  to_fix number issue dry_run v = do
    settle_issue d.hub d.name repo issue (fix_note v.reason) repo.issues.fixable_label [] "" dry_run
    pure (concluded number v)

  unfoldable pub to_person : ℕ → IssueMeta → Bool → Verdict → String → M (Option Settled)
  to_person number issue dry_run v error = do
    settle_issue d.hub d.name repo issue (cat ("Over to a human.\n\n_" ∷ v.reason ∷ "._" ∷ [])) ""
        repo.issues.assignee "" dry_run
    tell_person issue v.reason error dry_run
    pure (concluded number v)

  -- The two ways to settle an issue.
  unfoldable pub conclude : ℕ → IssueMeta → Bool → Verdict → Action → String → M (Option Settled)
  conclude number issue dry_run v attempt error = to_fix number issue dry_run v
  conclude number issue dry_run v Action.ask error = to_person number issue dry_run v error
  conclude number issue dry_run v assign error = to_person number issue dry_run v error

  unfoldable pub with_answer : ℕ → IssueMeta → Bool → Option (Verdict × String) → M (Option Settled)
  with_answer number issue dry_run none = pure none
  with_answer number issue dry_run (some (v, error)) =
      conclude number issue dry_run v v.action error

  unfoldable pub with_call : ℕ → IssueMeta → Bool → Verdict → Action → M (Option Settled)
  with_call number issue dry_run v Action.ask = do
    asked ← ask_about_money issue dry_run
    with_answer number issue dry_run asked
  with_call number issue dry_run v attempt = conclude number issue dry_run v attempt ""
  with_call number issue dry_run v assign = conclude number issue dry_run v assign ""

  unfoldable pub with_verdict : ℕ → IssueMeta → Bool → Option Verdict → M (Option Settled)
  with_verdict number issue dry_run none = raise_exception "KeyError"
  with_verdict number issue dry_run (some v) = with_call number issue dry_run v v.action

  unfoldable pub with_fixes : ℕ → IssueMeta → Bool → List String → M (Option Settled)
  with_fixes number issue dry_run [] =
      with_verdict number issue dry_run
        (verdict (fields issue.body) repo.issues.rules (from_sentry issue.body))
  with_fixes number issue dry_run (pr ∷ prs) = do
    point_to_fix d.hub d.name repo issue (pr ∷ prs) "" dry_run
    pure (some (record { number = number; action = "linked"; reason = join ", " (pr ∷ prs) }))

  unfoldable pub with_issue : ℕ → Bool → IssueMeta → M (Option Settled)
  with_issue number dry_run issue =
      if not (issue.state == "OPEN")
      then pure none
      else do prs ← fixing_prs d.issues repo.slug number; with_fixes number issue dry_run prs

  -- `_triage_one`
  unfoldable pub triage_one : ℕ → Bool → M (Option Settled)
  triage_one number dry_run = do
    issue ← issue_meta d.issues repo.slug number
    with_issue number dry_run issue

  abbrev kept : Option Settled → List Settled → List Settled
  kept none rest = rest
  kept (some s) rest = s ∷ rest

  -- The loop of `triage_tick`: a `GhError` skips the issue.
  unfoldable pub triage_each : List ℕ → Bool → M (List Settled)
  triage_each [] dry_run = pure []
  triage_each (number ∷ numbers) dry_run = do
    done ← catch (triage_one number dry_run) (λ why. pure none)
    rest ← triage_each numbers dry_run
    pure (kept done rest)

  unfoldable pub triage_tick : Bool → M (List Settled)
  triage_tick dry_run = if is_empty repo.issues.labels then pure [] else do
    numbers ← issue_queue d.issues repo.slug repo.issues.labels
    triage_each numbers dry_run
