-- ===== src/Tests/Data.antt =====
-- A pull request, a configuration and a store to apply the theorems to.
use claude_code_reviewer.Prelude.{ℕ, String, false, Option, none, some, List, [], ◌∷◌}
use claude_code_reviewer.Triage.{Rules}
use claude_code_reviewer.Config.{IssueConfig, RepoConfig, BudgetConfig, Config, must_fix, api}
use claude_code_reviewer.Config.Arms.{ReviewModel, Via}
use claude_code_reviewer.Github.{Check, PrMeta}
use claude_code_reviewer.Gates.{State}
use claude_code_reviewer.Db.Tables.{Db, Review, Verdict, CiState}
use claude_code_reviewer.Budget.{Clock}

abbrev pub money_rules : Rules
money_rules = record {
  require = ("Does it touch money?", "No" ∷ []) ∷ [];
  needs = "Steps to reproduce" ∷ [];
  block_if = ("Area", "Payments" ∷ []) ∷ [];
  ask_if = ("Does it touch money?", "Not sure" ∷ []) ∷ [];
}

abbrev pub issues : IssueConfig
issues = record {
  labels = "bug" ∷ [];
  clears = "triage";
  fixable_label = "fixable";
  assignee = [];
  rules = money_rules;
  money_model = none;
  money_via_endpoint = false;
  fix_model = none;
  fix_via_endpoint = false;
}

abbrev pub shop : RepoConfig
shop = record {
  slug = "acme/shop";
  reviewer_login = "robbie";
  label = "robbie";
  needs_work_label = "needs-work";
  hold_labels = "wip" ∷ [];
  done_labels = [];
  self_review = false;
  slack_channel = none;
  ignore_checks = "lint" ∷ [];
  ci_phrase = "";
  inline_min_severity = must_fix;
  issues = issues;
}

abbrev pub check_row : String → String → String → Check
check_row name state status = record {
  context = name;
  name = "";
  state = state;
  conclusion = "";
  status = status;
}

abbrev pub checks : List Check
checks = check_row "lint" "failure" "" ∷ check_row "unit" "success" "" ∷ []

abbrev pub pr_with : List String → List Check → PrMeta
pr_with labels checks = record {
  number = 7;
  title = "Add a page";
  url = "https://github.com/acme/shop/pull/7";
  author = "ann";
  head_sha = "abc";
  changed_files = 2;
  labels = labels;
  checks = checks;
  base_ref = "main";
  state = "OPEN";
}

abbrev pub page_pr : PrMeta
page_pr = pr_with ("robbie" ∷ []) checks

abbrev pub models : List ReviewModel
models =
    record { model = "own"; via = Via.backend; weight = 1 }
    ∷ record { model = "far"; via = Via.endpoint; weight = 2 }
    ∷ record { model = "near"; via = Via.endpoint; weight = 3 }
    ∷ []

abbrev pub budget : BudgetConfig
budget = record {
  daily_usd = 10000000;
  stop_pct = 90;
  reserve_pct = 5000000;
  reserve_usd = 2000000;
  endpoint_stop_pct = 90;
  endpoint_reserve_pct = 5000000;
}

abbrev pub config : Config
config = record {
  repos = shop ∷ [];
  backend = api;
  max_concurrent_reviews = 2;
  review_models = models;
  budget = budget;
  fix_mcp = "";
}

abbrev pub noon : Clock
noon = record {
  now_ms = 5000;
  midnight_ms = 1000;
  day = "2026-01-01";
  hour = "2026-01-01T12";
  minute_key = λ at. at;
}

abbrev pub review_row :
    ℕ → String → ℕ → String → State → Option Verdict → Option CiState → ℕ → Review
review_row id key pr sha state verdict ci at = record {
  id = id;
  key = key;
  repo = "acme/shop";
  pr = pr;
  head_sha = sha;
  requested_at = "t";
  state = state;
  verdict = verdict;
  hold_reason = none;
  cost_usd = some 3000000;
  tokens_in = none;
  tokens_out = none;
  duration_s = none;
  transcript = none;
  model = none;
  findings = none;
  blocking = none;
  should_fix = none;
  inline = none;
  summary_findings = none;
  ci_state = ci;
  ci_seen_at = none;
  created_at = at;
  finished_at = none;
}

-- An approval of pull request 7, superseded; a second one, which waits for CI; one of pull request
-- 8; and a review that runs.
abbrev pub first_approval : Review
first_approval =
    review_row 1 "k1" 7 "aaa" State.published (some Verdict.ok) (some CiState.green) 2000

abbrev pub second_approval : Review
second_approval =
    review_row 2 "k2" 7 "abc" State.published (some Verdict.ok) (some CiState.waiting) 3000

abbrev pub other_approval : Review
other_approval =
    review_row 3 "k3" 8 "ddd" State.published (some Verdict.ok) (some CiState.green) 3500

abbrev pub running_review : Review
running_review = review_row 4 "k4" 9 "eee" State.running none none 4000

abbrev pub store : Db
store = record {
  reviews = first_approval ∷ second_approval ∷ other_approval ∷ running_review ∷ [];
  next_id = 5;
  notices = "budget:2026-01-01" ∷ [];
  spend = [];
  meters =
      record {
        name = "plan";
        pct = some 40000000;
        note = some "17:00";
        read_at = some 4000;
        error = none;
        error_at = none;
      }
      ∷ [];
  requested = record { repo = "acme/shop"; pr = 7; seen_at = 4500 } ∷ [];
  seeded = [];
}
