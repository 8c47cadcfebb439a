-- ===== src/Db/Reviews/Columns.antt =====
-- `finish_review` writes only the columns that it was given.
use claude_code_reviewer.Prelude.{ℕ, String, Option, none, some}
use claude_code_reviewer.Gates.{State}
use claude_code_reviewer.Db.Tables.{Review, Verdict, CiState}

pub record Given : Type 0 where
  pub verdict : Option Verdict
  pub hold_reason : Option String
  pub cost_usd : Option ℕ
  pub tokens_in : Option ℕ
  pub tokens_out : Option ℕ
  pub duration_s : Option ℕ
  pub transcript : Option String
  pub model : Option String
  pub findings : Option ℕ
  pub blocking : Option ℕ
  pub should_fix : Option ℕ
  pub inline : Option ℕ
  pub summary_findings : Option ℕ
  pub ci_state : Option CiState

abbrev pub nothing_given : Given
nothing_given = record {
  verdict = none;
  hold_reason = none;
  cost_usd = none;
  tokens_in = none;
  tokens_out = none;
  duration_s = none;
  transcript = none;
  model = none;
  findings = none;
  blocking = none;
  should_fix = none;
  inline = none;
  summary_findings = none;
  ci_state = none;
}

-- A column that was not given keeps its value.
abbrev pub over {ℓ} : {A : Type ℓ} → Option A → Option A → Option A
over none old = old
over (some a) old = some a

unfoldable pub write : ℕ → State → Given → Review → Review
write now state g r = record r {
  state = state;
  verdict = over g.verdict r.verdict;
  hold_reason = over g.hold_reason r.hold_reason;
  cost_usd = over g.cost_usd r.cost_usd;
  tokens_in = over g.tokens_in r.tokens_in;
  tokens_out = over g.tokens_out r.tokens_out;
  duration_s = over g.duration_s r.duration_s;
  transcript = over g.transcript r.transcript;
  model = over g.model r.model;
  findings = over g.findings r.findings;
  blocking = over g.blocking r.blocking;
  should_fix = over g.should_fix r.should_fix;
  inline = over g.inline r.inline;
  summary_findings = over g.summary_findings r.summary_findings;
  ci_state = over g.ci_state r.ci_state;
  finished_at = some now;
}
