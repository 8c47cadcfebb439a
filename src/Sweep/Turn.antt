-- ===== src/Sweep/Turn.antt =====
-- `_answer`, `_one` and `sweep`: one pull request's replies, and the whole sweep.
use claude_code_reviewer.Prelude.{
  ℕ, ◌-◌, ◌*◌, ◌++◌, String, ◌<>◌, Bool, true, not, ◌&&◌, Option, none, some, List, [], ◌∷◌, ◌==◌,
  nat_eq, string_eq, cat, str, join, lower, has_text, filter, get_or, if◌then◌else◌,
}
use claude_code_reviewer.Config.{RepoConfig}
use claude_code_reviewer.Budget.{Verdict}
use claude_code_reviewer.Github.{PrMeta}
use claude_code_reviewer.Github.Threads.{Thread, answered}
use claude_code_reviewer.Github.Reads.{pr_meta}
use claude_code_reviewer.Db.Tables.{Db}
use claude_code_reviewer.Db.Board.{reviewed_prs}
use claude_code_reviewer.Db.Money.{record_spend}
use claude_code_reviewer.Db.Notices.{notice_seen, notice_once}
use claude_code_reviewer.Contract.Verdicts.{parse_thread_verdicts}
use claude_code_reviewer.Effects.{
  World, M, pure, ask, gets, store_get, catch, catch_all, ensure, ◌>>=◌, ◌>>◌,
}
use claude_code_reviewer.Slack.{dm_owner}
use claude_code_reviewer.Orchestrator.Tick.{Process, Outcome, ReviewRun, stamp}
use claude_code_reviewer.Orchestrator.Slot.{account_slot, leave_slot}
use claude_code_reviewer.Orchestrator.Approve.{titled}
use claude_code_reviewer.Sweep.{
  Done, nothing_done, merged_key, thread_state, by_comment, answer_all,
}

abbrev sweep_outcome : RepoConfig → ℕ → String → String → Outcome
sweep_outcome repo pr action detail = record {
  repo = repo.slug;
  pr = pr;
  action = action;
  detail = detail;
}

abbrev shown : ℕ → String → List String
shown n what = if n == 0 then [] else cat (str n ∷ " " ∷ what ∷ []) ∷ []

-- `", ".join(f"{n} {k}" for k, n in done.items() if n)`, or "nothing to do".
unfoldable pub detail_of : Done → String
unfolding str join
detail_of d =
    let text = join ", " (
      shown d.resolved "resolve"
      ++ shown d.replied "reply"
      ++ shown d.left "leave"
      ++ shown d.unanswered "unanswered"
      ++ shown d.failed "failed") in
    if text == "" then "nothing to do" else text

abbrev is_pending : RepoConfig → ℕ → Db → Thread → Bool
is_pending repo pr db t = answered t && not (notice_seen db (thread_state repo.slug pr t))

module _ (p : Process) (repo : RepoConfig) (pr : ℕ) where
  unfoldable pub mark_merged : M (Unit {0})
  mark_merged =
      if p.mode.dry_run
      then pure tt
      else do store_get (notice_once (merged_key repo.slug pr)); pure tt

  abbrev tell_replies : PrMeta → Done → M (Unit {0})
  tell_replies meta d =
      if d.replied == 0
      then pure tt
      else dm_owner p.slack (
          cat (
            "I answered "
            ∷ str d.replied
            ∷ " of my review threads on "
            ∷ titled meta
            ∷ " and closed "
            ∷ str d.resolved
            ∷ ". The ball is back with "
            ∷ meta.author
            ∷ "."
            ∷ []))

  unfoldable pub answered_run : PrMeta → List Thread → ReviewRun → M Outcome
  answered_run meta pending run =
      if not run.ok
      then (do
        dm_owner p.slack (
            cat (
              "I couldn't work through the replies on "
              ∷ titled meta
              ∷ ": "
              ∷ get_or run.error "None"
              ∷ []))
        pure (sweep_outcome repo pr "failed" (get_or run.error "unknown")))
      else (do
        d ← answer_all p repo pr (parse_thread_verdicts run.text) (by_comment pending) nothing_done
        tell_replies meta d
        pure (sweep_outcome repo pr "threads" (detail_of d)))

  unfoldable pub in_slot : PrMeta → List Thread → Verdict → M Outcome
  in_slot meta pending v =
      if not v.allowed then pure (sweep_outcome repo pr "budget" v.detail) else do
        run ← ensure (ask (p.run_threads repo meta pending)) leave_slot
        stamp p (λ now. record_spend now repo.slug pr "threads" run.cost_usd (some run.duration_s))
        answered_run meta pending run

  unfoldable pub with_state : List Thread → PrMeta → M Outcome
  with_state pending meta =
      if not (meta.state == "OPEN")
      then (do
        if meta.state == "MERGED" then mark_merged else pure tt
        pure (sweep_outcome repo pr "skip" ("pr is " <> lower meta.state)))
      else if p.mode.dry_run
      then pure (sweep_outcome repo pr "threads" "dry run")
      else (do v ← account_slot p; in_slot meta pending v)

  -- `_answer`
  unfoldable pub answer : List Thread → M Outcome
  answer pending = do meta ← pr_meta p.hub repo.slug pr; with_state pending meta

  abbrev answer_pending : List Thread → M (Option Outcome)
  answer_pending [] = pure none
  answer_pending (t ∷ ts) = do o ← answer (t ∷ ts); pure (some o)

  unfoldable pub read_replies : M (Option Outcome)
  read_replies = do
    read ← ask (p.hub.threads repo.slug pr repo.reviewer_login)
    if read.state == "MERGED" then (do mark_merged; pure none) else (do
      pending ← gets (λ w. filter (is_pending repo pr w.db) read.threads)
      answer_pending pending)

-- The outcome of one pull request, and whether the breaker tripped.
abbrev tripped_by : String → Bool
tripped_by why = has_text (lower why) "rate limit"

module _ (p : Process) where
  -- `_one`; `tripped` is the breaker, which the result carries on.
  unfoldable pub sweep_one : RepoConfig → ℕ → Bool → M (Option Outcome × Bool)
  sweep_one repo pr tripped = do
    merged ← gets (λ w. notice_seen w.db (merged_key repo.slug pr))
    if merged
        then pure (none, tripped)
        else if tripped
        then pure (none, true)
        else catch_all
            (catch (do o ← read_replies p repo pr; pure (o, tripped))
              (λ why. pure (none, tripped_by why)))
            (λ why. pure (some (sweep_outcome repo pr "failed" why), tripped))

  abbrev add_outcome : Option Outcome → List Outcome × Bool → List Outcome × Bool
  add_outcome none outs = outs
  add_outcome (some o) (outs, tripped) = (o ∷ outs, tripped)

  unfoldable pub sweep_prs : RepoConfig → List ℕ → Bool → M (List Outcome × Bool)
  sweep_prs repo [] tripped = pure ([], tripped)
  sweep_prs repo (pr ∷ prs) tripped = do
    one ← sweep_one repo pr tripped
    rest ← sweep_prs repo prs one.1
    pure (add_outcome one.0 rest)

  abbrev prs_of : RepoConfig → List ℕ → World → List ℕ
  prs_of repo [] w = reviewed_prs repo.slug (p.time w.calls - 30 * 86400000) w.db
  prs_of repo (pr ∷ prs) w = pr ∷ prs

  -- `sweep`, over the repositories that `slug` names; one pull request after the other.
  unfoldable pub sweep : List RepoConfig → List ℕ → Bool → M (List Outcome × Bool)
  sweep [] only tripped = pure ([], tripped)
  sweep (repo ∷ repos) only tripped = do
    prs ← gets (prs_of repo only)
    here ← sweep_prs repo prs tripped
    rest ← sweep repos only here.1
    pure (here.0 ++ rest.0, rest.1)
