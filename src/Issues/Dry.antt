-- ===== src/Issues/Dry.antt =====
-- A dry pass over the issues leaves everything as it was.
use claude_code_reviewer.Prelude.{ℕ, String, true, Option, none, some, List, [], ◌∷◌, ◌≡◌, refl}
use claude_code_reviewer.Config.{RepoConfig}
use claude_code_reviewer.Triage.{Action, Verdict, attempt, assign}
use claude_code_reviewer.Github.Issues.{
  IssueHub, IssueView, found_issue, issue_meta, issue_queue, fixing_prs,
}
use claude_code_reviewer.Effects.{World}
use claude_code_reviewer.Effects.Keeps.{Keeps, Keeps-bind, Keeps-catch, Uncounted, keeps_rules}
use claude_code_reviewer.Publish.Issue.{IssueMeta, settle_issue, point_to_fix}
use claude_code_reviewer.Issues.{
  Desk, ask_about_money, tell_person, to_fix, to_person, conclude, with_answer, with_call,
  with_verdict, with_fixes, with_issue, triage_one, triage_each, triage_tick,
}
use claude_code_reviewer.Fixer.{fix_one, fix_each, fix_tick}

-- The store, the calls and the messages are those of before.
pub record Unmoved (before w : World) : Type 0 where
  pub db : w.db ≡ before.db
  pub writes : w.writes ≡ before.writes
  pub messages : w.messages ≡ before.messages

instance Unmoved_uncounted : {before : World} → Uncounted (Unmoved before)
Unmoved_uncounted = record {
  next = λ w h. record { db = h.db; writes = h.writes; messages = h.messages };
}

module _ (hub : IssueHub) (before : World) where
  Unmoved-found_issue :
      (repo : String) (n : ℕ) (v : Option IssueView)
      → Keeps (Unmoved before) (found_issue hub repo n v)
  unfolding found_issue
  Unmoved-found_issue repo n none = search keeps_rules
  Unmoved-found_issue repo n (some v) = search keeps_rules

  Unmoved-issue_meta : (repo : String) (n : ℕ) → Keeps (Unmoved before) (issue_meta hub repo n)
  unfolding issue_meta
  Unmoved-issue_meta repo n = search (keeps_rules, Unmoved-found_issue)

  Unmoved-fixing_prs : (repo : String) (n : ℕ) → Keeps (Unmoved before) (fixing_prs hub repo n)
  unfolding fixing_prs
  Unmoved-fixing_prs repo n = search keeps_rules

  Unmoved-issue_queue :
      (repo : String) (labels : List String) → Keeps (Unmoved before) (issue_queue hub repo labels)
  unfolding issue_queue
  Unmoved-issue_queue repo labels = search keeps_rules

module _ (d : Desk) (repo : RepoConfig) (before : World) where
  module _ (number : ℕ) (issue : IssueMeta) where
    Unmoved-settle_issue :
        (said label : String) (assignee : List String) (clears : String)
        → Keeps
            (Unmoved before)
            (settle_issue d.hub d.name repo issue said label assignee clears true)
    unfolding settle_issue
    Unmoved-settle_issue said label assignee clears = search keeps_rules

    Unmoved-conclude :
        (v : Verdict) (a : Action) (error : String)
        → Keeps (Unmoved before) (conclude d repo number issue true v a error)
    unfolding conclude to_fix to_person tell_person
    Unmoved-conclude v attempt error = search (keeps_rules, Unmoved-settle_issue)
    Unmoved-conclude v Action.ask error = search (keeps_rules, Unmoved-settle_issue)
    Unmoved-conclude v assign error = search (keeps_rules, Unmoved-settle_issue)

    Unmoved-with_answer :
        (o : Option (Verdict × String))
        → Keeps (Unmoved before) (with_answer d repo number issue true o)
    unfolding with_answer
    Unmoved-with_answer none = search keeps_rules
    Unmoved-with_answer (some (v, error)) = Unmoved-conclude v v.action error

    Unmoved-ask_about_money : Keeps (Unmoved before) (ask_about_money d repo issue true)
    unfolding ask_about_money
    Unmoved-ask_about_money = search keeps_rules

    Unmoved-with_call :
        (v : Verdict) (a : Action) → Keeps (Unmoved before) (with_call d repo number issue true v a)
    unfolding with_call
    Unmoved-with_call v attempt = Unmoved-conclude v attempt ""
    Unmoved-with_call v Action.ask = Keeps-bind _ _ Unmoved-ask_about_money Unmoved-with_answer
    Unmoved-with_call v assign = Unmoved-conclude v assign ""

    Unmoved-with_verdict :
        (o : Option Verdict) → Keeps (Unmoved before) (with_verdict d repo number issue true o)
    unfolding with_verdict
    Unmoved-with_verdict none = search keeps_rules
    Unmoved-with_verdict (some v) = Unmoved-with_call v v.action

    Unmoved-with_fixes :
        (prs : List String) → Keeps (Unmoved before) (with_fixes d repo number issue true prs)
    unfolding with_fixes point_to_fix
    Unmoved-with_fixes [] = Unmoved-with_verdict _
    Unmoved-with_fixes (pr ∷ prs) = search (keeps_rules, Unmoved-settle_issue)

    Unmoved-with_issue : Keeps (Unmoved before) (with_issue d repo number true issue)
    unfolding with_issue
    Unmoved-with_issue = search (keeps_rules, Unmoved-fixing_prs, Unmoved-with_fixes)

  Unmoved-triage_one : (number : ℕ) → Keeps (Unmoved before) (triage_one d repo number true)
  unfolding triage_one
  Unmoved-triage_one number =
      Keeps-bind _ _ (Unmoved-issue_meta d.issues before repo.slug number)
        λ issue. Unmoved-with_issue number issue

  Unmoved-triage_each :
      (numbers : List ℕ) → Keeps (Unmoved before) (triage_each d repo numbers true)
  unfolding triage_each
  Unmoved-triage_each [] = search keeps_rules
  Unmoved-triage_each (n ∷ ns) =
      Keeps-bind _ _ (Keeps-catch _ _ (Unmoved-triage_one n) λ why. search keeps_rules)
        λ o. Keeps-bind _ _ (Unmoved-triage_each ns) λ rest. search keeps_rules

  Unmoved-fix_one : (number : ℕ) → Keeps (Unmoved before) (fix_one d repo number true)
  unfolding fix_one
  Unmoved-fix_one number = search (keeps_rules, Unmoved-issue_meta)

  Unmoved-fix_each : (numbers : List ℕ) → Keeps (Unmoved before) (fix_each d repo numbers true)
  unfolding fix_each
  Unmoved-fix_each [] = search keeps_rules
  Unmoved-fix_each (n ∷ ns) =
      Keeps-bind _ _ (Keeps-catch _ _ (Unmoved-fix_one n) λ why. search keeps_rules)
        λ o. Keeps-bind _ _ (Unmoved-fix_each ns) λ rest. search keeps_rules

  Unmoved-triage_tick : Keeps (Unmoved before) (triage_tick d repo true)
  unfolding triage_tick
  Unmoved-triage_tick = search (keeps_rules, Unmoved-issue_queue, Unmoved-triage_each)

  Unmoved-fix_tick : Keeps (Unmoved before) (fix_tick d repo true)
  unfolding fix_tick
  Unmoved-fix_tick = search (keeps_rules, Unmoved-issue_queue, Unmoved-fix_each)

-- A dry tick over the queue of bugs, and a dry tick over the issues cleared for a fix, leave the
-- store, the calls that GitHub took and the messages as they were.
pub ticks_dry :
    (d : Desk) (repo : RepoConfig) (w : World)
    → Unmoved w (triage_tick d repo true w).1 × Unmoved w (fix_tick d repo true w).1
ticks_dry d repo w =
    let same : Unmoved w w = record { db = refl; writes = refl; messages = refl } in
    ((Unmoved-triage_tick d repo w).at w same, (Unmoved-fix_tick d repo w).at w same)
