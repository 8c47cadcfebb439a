-- ===== src/CiWatch.antt =====
-- robbie/ci_watch.py: what the build said about a commit that was approved.
pub mod Settled
use claude_code_reviewer.Prelude.{
  ℕ, ◌-◌, ◌*◌, String, ◌<>◌, Bool, true, false, not, ◌&&◌, ◌||◌, Option, none, some, List, [], ◌∷◌,
  ◌==◌, string_eq, get_or, if◌then◌else◌,
}
use claude_code_reviewer.Config.{RepoConfig, repo_for}
use claude_code_reviewer.Github.{PrMeta, CiOutcome, ci_outcome, failing_checks}
use claude_code_reviewer.Github.Reads.{pr_meta}
use claude_code_reviewer.Db.Tables.{Db, Review, CiState}
use claude_code_reviewer.Db.Reviews.{set_ci_state, expire_ci_watch, watching_ci}
use claude_code_reviewer.Db.Notices.{notice_once}
use claude_code_reviewer.Effects.{World, M, pure, gets, store_get, catch, catch_all, ◌>>=◌, ◌>>◌}
use claude_code_reviewer.Publish.{PublishResult, once_per, posted_key, report_red_build}
use claude_code_reviewer.Sweep.{merged_key}
use claude_code_reviewer.Orchestrator.Tick.{Process, Outcome, is_quiet, stamp}

abbrev row_outcome : Review → String → String → Outcome
row_outcome row action detail = record {
  repo = row.repo;
  pr = row.pr;
  action = action;
  detail = detail;
}

-- `row["model"] or "the account's model"`
abbrev by_model : Review → String
by_model row = let m = get_or row.model "" in if m == "" then "the account's model" else m

-- What reporting a red build came to: the result of `once_per`, a `GhError`, or another exception.
pub data Report : Type 0 where
  reported : Option PublishResult → Report
  unreachable : Report
  broken : String → Report

module _ (p : Process) where
  -- `_settle`
  unfoldable pub settle : String → CiState → M (Unit {0})
  settle key s = if is_quiet p.mode then pure tt else stamp p (λ now. set_ci_state now key s)

  unfoldable pub report_red : RepoConfig → PrMeta → M Report
  report_red repo meta =
      catch_all
        (catch
          (do
            r ←
                once_per (posted_key "approved-red" repo meta)
                  (report_red_build p.hub p.name repo meta
                    (failing_checks meta.checks repo.ignore_checks) (is_quiet p.mode))
                  (is_quiet p.mode)
            pure (reported r))
          (λ why. pure unreachable))
        (λ why. pure (broken why))

  unfoldable pub after_report : Review → Report → M (Option Outcome)
  after_report row unreachable = pure none
  after_report row (broken why) = pure (some (row_outcome row "failed" why))
  after_report row (reported none) = do settle row.key CiState.red; pure none
  after_report row (reported (some r)) = do
    settle row.key CiState.red
    pure (some (row_outcome row "ci-note" r.detail))

  -- The branch of each outcome of the build.
  unfoldable pub on_outcome : RepoConfig → Review → PrMeta → CiOutcome → M (Option Outcome)
  on_outcome repo row meta CiOutcome.waiting = pure none
  on_outcome repo row meta CiOutcome.green = do
    settle row.key CiState.green
    pure (some (row_outcome row "ready" ("green after " <> by_model row)))
  on_outcome repo row meta CiOutcome.red = do report ← report_red repo meta; after_report row report

  abbrev pub note_merged : Review → Bool → M (Unit {0})
  note_merged row merged =
      if not merged || p.mode.dry_run
      then pure tt
      else do store_get (notice_once (merged_key row.repo row.pr)); pure tt

  unfoldable pub on_meta : RepoConfig → Review → PrMeta → M (Option Outcome)
  unfolding ci_outcome
  on_meta repo row meta =
      if not (meta.state == "OPEN")
      then (do settle row.key CiState.gone; note_merged row (meta.state == "MERGED"); pure none)
      else if not (meta.head_sha == row.head_sha)
      then (do settle row.key CiState.stale; pure none)
      else on_outcome repo row meta (ci_outcome meta.checks repo.ignore_checks)

  unfoldable pub on_read : RepoConfig → Review → Option PrMeta → M (Option Outcome)
  on_read repo row none = pure none
  on_read repo row (some meta) = on_meta repo row meta

  -- `_one`; `none` is a pull request that cannot be read.
  unfoldable pub watch_one : RepoConfig → Review → M (Option Outcome)
  watch_one repo row = do
    read ← catch (do meta ← pr_meta p.hub row.repo row.pr; pure (some meta)) (λ why. pure none)
    on_read repo row read

  abbrev pub one_of : Review → Option RepoConfig → M (Option Outcome)
  one_of row none = pure none
  one_of row (some repo) = watch_one repo row

  abbrev add_outcome : Option Outcome → List Outcome → List Outcome
  add_outcome none outs = outs
  add_outcome (some o) outs = o ∷ outs

  unfoldable pub watch_rows : List Review → M (List Outcome)
  watch_rows [] = pure []
  watch_rows (row ∷ rows) = do
    o ← one_of row (repo_for p.cfg.repos row.repo)
    outs ← watch_rows rows
    pure (add_outcome o outs)

  -- `CI_WATCH_HOURS`, in milliseconds.
  abbrev cutoff : World → ℕ
  cutoff w = p.time w.calls - 24 * 3600000

  -- `watch`; the rows one after the other.
  unfoldable pub watch : M (List Outcome)
  watch = do
    before ← gets cutoff
    if is_quiet p.mode then pure tt else (do store_get (expire_ci_watch before); pure tt)
    rows ← gets (λ w. watching_ci before w.db)
    watch_rows rows
