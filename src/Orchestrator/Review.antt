-- ===== src/Orchestrator/Review.antt =====
-- `_review`: the slot, the run, and what it comes to.
use claude_code_reviewer.Prelude.{
  ℕ, suc, String, not, Option, none, some, List, [], ◌∷◌, ◌==◌, string_eq, cat, str, join, map,
  length, find, filter, take_chars, get_or, if◌then◌else◌,
}
use claude_code_reviewer.Config.{RepoConfig}
use claude_code_reviewer.Config.Arms.{Choice}
use claude_code_reviewer.Budget.{Verdict}
use claude_code_reviewer.Github.{PrMeta, summarize_checks}
use claude_code_reviewer.Github.Threads.{Thread}
use claude_code_reviewer.Gates.{State}
use claude_code_reviewer.Db.Tables.{Db, Review}
use claude_code_reviewer.Db.Board.{passes_for}
use claude_code_reviewer.Db.Reviews.{start_review, finish_review}
use claude_code_reviewer.Db.Reviews.Columns.{nothing_given}
use claude_code_reviewer.Db.Money.{record_spend}
use claude_code_reviewer.Effects.{World, M, pure, ask, gets, modify, catch, ensure, ◌>>=◌, ◌>>◌}
use claude_code_reviewer.Orchestrator.Tick.{Process, Prompt, ReviewRun, Outcome, stamp}
use claude_code_reviewer.Orchestrator.Gate.{is_entry}
use claude_code_reviewer.Orchestrator.Act.{outcome}
use claude_code_reviewer.Orchestrator.Slot.{slot, leave_slot}
use claude_code_reviewer.Orchestrator.Notify.{gave_up, tell_props}
use claude_code_reviewer.Orchestrator.Approve.{titled}
use claude_code_reviewer.Orchestrator.Deliver.{deliver, verdict_text}

abbrev threads_in : Option (String × ℕ × List Thread) → Option (List Thread)
threads_in none = none
threads_in (some (repo, pr, ts)) = some ts

abbrev state_text : State → String
state_text State.running = "running"
state_text State.published = "published"
state_text State.held = "held"
state_text State.failed = "failed"

-- `r['verdict'] or r['hold_reason'] or r['state']`
abbrev pass_word : Review → String
pass_word r = elim r.verdict [
  | some v ↦ verdict_text v
  | none ↦ elim r.hold_reason [
    | some why ↦ if why == "" then state_text r.state else why
    | none ↦ state_text r.state
  ]
]

abbrev pass_text : Review → String
pass_text r = cat (take_chars 8 r.head_sha ∷ " → " ∷ pass_word r ∷ [])

unfoldable pub history_of : List Review → String
unfolding str join take_chars
history_of [] = ""
history_of (r ∷ rows) = cat (
    "This is pass "
    ∷ str (suc (length (r ∷ rows)))
    ∷ " on this PR. Earlier passes: "
    ∷ join ", " (map pass_text (r ∷ rows))
    ∷ ".\n"
    ∷ [])

-- `_pass_history`
unfoldable pub pass_history : RepoConfig → PrMeta → Db → String
pass_history repo meta db = history_of (passes_for repo.slug meta.number db)

unfoldable pub drop_threads : String → ℕ → World → World
drop_threads repo pr w = record w { cached = filter (λ e. not (is_entry repo pr e)) w.cached }

module _ (p : Process) where
  abbrev pub fetch_threads : RepoConfig → PrMeta → Option (List Thread) → M (List Thread)
  fetch_threads repo meta (some ts) = pure ts
  fetch_threads repo meta none =
      catch
        (do read ← ask (p.hub.threads repo.slug meta.number repo.reviewer_login); pure read.threads)
        (λ why. pure [])

  unfoldable pub prior_threads : RepoConfig → PrMeta → M (List Thread)
  prior_threads repo meta = do
    cached ← gets (λ w. threads_in (find (is_entry repo.slug meta.number) w.cached))
    modify (drop_threads repo.slug meta.number)
    fetch_threads repo meta cached

  -- What runs in the slot.
  unfoldable pub run_in_slot : RepoConfig → PrMeta → String → String → Prompt → Choice → M ReviewRun
  run_in_slot repo meta key requested_at prompt choice = do
    stamp p (λ now. start_review now key repo.slug meta.number meta.head_sha requested_at)
    tell_props p meta "reviewing"
    ask (p.run repo meta prompt choice)

  abbrev error_text : ReviewRun → String
  error_text run = get_or run.error "None"

  -- The branch of a run that failed.
  unfoldable pub record_failed : RepoConfig → PrMeta → String → ReviewRun → Choice → M (Unit {0})
  record_failed repo meta key run choice = do
    stamp p (λ now.
        record_spend now repo.slug meta.number "failed"
          (if choice.via_endpoint then none else run.cost_usd) (some run.duration_s))
    stamp p (λ now. finish_review now key State.failed (record nothing_given {
      hold_reason = run.error;
      duration_s = some run.duration_s;
      transcript = some (get_or run.transcript "");
      model = choice.model;
    }))

  unfoldable pub reviewed : RepoConfig → PrMeta → String → Choice → ReviewRun → M Outcome
  reviewed repo meta key choice run =
      if run.ok then deliver p repo meta key run choice run.blocks else do
        record_failed repo meta key run choice
        gave_up p repo meta (get_or run.error "unknown") (
            cat (
              "I tried to review "
              ∷ titled meta
              ∷ " but the run failed: "
              ∷ error_text run
              ∷ ". I'll retry next cycle."
              ∷ []))

  unfoldable pub admitted_review :
      RepoConfig → PrMeta → String → String → Prompt → Choice → Verdict → M Outcome
  admitted_review repo meta key requested_at prompt choice verdict =
      if not verdict.allowed then pure (outcome repo meta "budget" verdict.detail) else do
        run ← ensure (run_in_slot repo meta key requested_at prompt choice) leave_slot
        reviewed repo meta key choice run

  unfoldable pub review : RepoConfig → PrMeta → String → String → M Outcome
  unfolding summarize_checks
  review repo meta key requested_at =
      if p.mode.dry_run then pure (outcome repo meta "review" "dry run") else do
        threads ← prior_threads repo meta
        history ← gets (λ w. pass_history repo meta w.db)
        admitted ← slot p key
        admitted_review repo meta key requested_at
            (record {
              author = meta.author;
              ci = summarize_checks meta.checks;
              threads = threads;
              history = history;
            })
            admitted.0 admitted.1
