-- ===== src/Tests/Bugs.antt =====
-- The pass over a bug, at concrete inputs.
use claude_code_reviewer.Prelude.{ℕ, false, true, Option, none, some, [], ◌∷◌, ap, sym}
use claude_code_reviewer.Github.Issues.{IssueHub, IssueView}
use claude_code_reviewer.Effects.{Answer, ok, remove_label, gh_error, exception}
use claude_code_reviewer.Issues.{Desk, triage_one, triage_tick}
use claude_code_reviewer.Issues.Dry.{Unmoved, ticks_dry}
use claude_code_reviewer.Fixer.{fix_tick}
use claude_code_reviewer.Issues.Kept.{IsTriaged, triage_one-IsTriaged}
use claude_code_reviewer.Tests.Data.{shop}
use claude_code_reviewer.Tests.Turns.{process, world}

abbrev bug : ℕ → IssueView
bug number = record {
  number = number;
  title = some "It crashes";
  url = some "https://github.com/acme/shop/issues/12";
  author = some "ann";
  body = some "### Does it touch money?\n\nNo\n\n### Steps to reproduce\n\nOpen the page.\n";
  labels = "bug" ∷ "triage" ∷ [];
  state = some "OPEN";
}

abbrev issue_hub : IssueHub
issue_hub = record {
  search = λ repo labels n. ok (some (12 ∷ []));
  view = λ repo number n. ok (some (bug number));
  closing = λ repo number n. ok [];
  head = λ repo branch n. ok none;
}

abbrev desk : Desk
desk = record {
  name = "robbie";
  cfg = process.cfg;
  hub = process.hub;
  issues = issue_hub;
  jane = true;
  time = process.time;
  clock = process.clock;
  run_fix = λ repo issue prompt n. gh_error "no container";
  run_review = λ repo issue prompt n. gh_error "no container";
}

abbrev number_of : Answer (Option IssueView) → ℕ
number_of (ok none) = 0
number_of (ok (some v)) = v.number
number_of (gh_error why) = 0
number_of (exception why) = 0

triage_one-IsTriaged_example :
    IsTriaged []
      (remove_label "acme/shop" 12 "triage")
      (triage_one desk shop 12 false world).0
      (triage_one desk shop 12 false world).1
triage_one-IsTriaged_example =
    triage_one-IsTriaged desk shop 12 (λ n v e. ap number_of (sym e)) world

ticks_dry_example :
    Unmoved world (triage_tick desk shop true world).1
    × Unmoved world (fix_tick desk shop true world).1
ticks_dry_example = ticks_dry desk shop world
