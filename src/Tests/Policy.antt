-- ===== src/Tests/Policy.antt =====
-- The review policy and the budget at concrete inputs.
use claude_code_reviewer.Prelude.{
  ℕ, ◌+◌, ◌*◌, ◌≤◌, ◌≡◌, ◌≢◌, ◌↔◌, refl, true, false, ◌||◌, some, any, ◌==◌, nat_eq, arith,
}
use claude_code_reviewer.Config.Arms.{Choice, fallback_for, heavier}
use claude_code_reviewer.Config.Arms.Fallback.{others, is_pick, fallback_for_lem}
use claude_code_reviewer.Gates.{evaluate, review, hold}
use claude_code_reviewer.Gates.Order.{is_braked, is_red, evaluate-review_iff, evaluate-recorded_iff}
use claude_code_reviewer.Budget.{check}
use claude_code_reviewer.Budget.Gate.{allowed-check, level, has_room}
use claude_code_reviewer.Budget.Slots.{
  Slots, Limits, Prompt, Reach, Step, admit, leave, bill, bill_aside,
}
use claude_code_reviewer.Budget.Slots.Bounds.{spent-le-daily, overspend}
use claude_code_reviewer.Tests.Data.{page_pr, shop, config, noon, store, models}

abbrev no_threads : ℕ
no_threads = 0

evaluate-review_iff_example : ((evaluate page_pr shop false no_threads).action ≡ review) ↔ (
    (is_braked page_pr shop ≡ false)
    × (page_pr.changed_files ≢ 0)
    × (false ≡ false)
    × (no_threads ≡ 0)
    × (is_red page_pr shop ≡ false))
evaluate-review_iff_example = evaluate-review_iff page_pr shop false no_threads

evaluate-recorded_iff_example :
    (((evaluate page_pr shop true 0).action ≡ hold)
      × ((evaluate page_pr shop true 0).recorded ≡ true))
    ↔ ((is_braked page_pr shop ≡ false) × ((page_pr.changed_files == 0 || true) ≡ true))
evaluate-recorded_iff_example = evaluate-recorded_iff page_pr shop true 0

allowed-check_example :
    (check noon config store 1 false).allowed ≡ has_room (level noon config store false) 1
allowed-check_example = allowed-check noon config store 1 false

abbrev limits : Limits
limits = record { daily = 4; reserve = 3; cap = 1 }

abbrev idle : Slots
idle = record { spent = 0; unbilled = 0; inflight = 0; aside = 0 }

abbrev one_run :
    Prompt limits idle (bill_aside limits 9 (bill limits 2 (leave limits 2 (admit limits idle))))
unfolding admit leave
one_run = Prompt.outside 9 (
    Prompt.billed 2
      (Prompt.left 2 (Prompt.admitted Prompt.here refl refl) (omega arith) (omega arith))
      (omega arith))

spent-le-daily_example :
    (bill_aside limits 9 (bill limits 2 (leave limits 2 (admit limits idle)))).spent
    ≤ 4 + (bill_aside limits 9 (bill limits 2 (leave limits 2 (admit limits idle)))).aside
spent-le-daily_example = spent-le-daily limits one_run refl refl refl (omega arith)

abbrev one_step : Reach limits idle (admit limits idle)
one_step = Reach.next Reach.start (Step.admitted idle refl)

overspend_example : (t : Slots) × Reach limits idle t × (t.spent ≡ 0 + 2 * 3)
overspend_example = overspend limits idle 2 refl (omega arith) (omega arith)

abbrev own : Choice
own = record { model = some "own"; via_endpoint = false }

abbrev near : Choice
near = record { model = some "near"; via_endpoint = true }

fallback_for_lem_example :
    (true ≡ true) × (any (is_pick near (others models own)) (others models own) ≡ true)
unfolding fallback_for heavier
fallback_for_lem_example = fallback_for_lem models own near refl
