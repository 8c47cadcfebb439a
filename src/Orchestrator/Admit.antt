-- ===== src/Orchestrator/Admit.antt =====
-- `_choice` and `_admit`: the arm that reviews a key.
use claude_code_reviewer.Prelude.{
  ℕ, String, Bool, false, not, ◌||◌, Option, none, some, ◌==◌, string_eq, if◌then◌else◌,
}
use claude_code_reviewer.Config.{Config}
use claude_code_reviewer.Config.Arms.{Choice, choose_model, fallback_for, named_model}
use claude_code_reviewer.Budget.{Clock, Verdict, check}
use claude_code_reviewer.Db.Tables.{Db}
use claude_code_reviewer.Orchestrator.Tick.{Mode}

-- `if self.model: …`
abbrev pub is_named : Mode → Bool
is_named m = elim m.model [ none ↦ false | some name ↦ not (name == "") ]

abbrev name_of : Mode → String
name_of m = elim m.model [ none ↦ "" | some name ↦ name ]

unfoldable pub choice_for : (String → ℕ) → Mode → Config → String → Choice
choice_for digest m cfg key =
    if is_named m
    then named_model cfg.review_models (name_of m)
    else choose_model digest cfg.review_models key

-- `_meter` on an arm.
abbrev pub meter : Clock → Config → Db → ℕ → Choice → Verdict
meter clock cfg db inflight c = check clock cfg db inflight c.via_endpoint

-- The arm that covers, if there is one and its meter allows it.
unfoldable pub spare : Clock → Config → Db → ℕ → Choice → Verdict → Option Choice → Choice × Verdict
spare clock cfg db inflight first verdict none = (first, verdict)
spare clock cfg db inflight first verdict (some other) =
    if (meter clock cfg db inflight other).allowed
    then (other, meter clock cfg db inflight other)
    else (first, verdict)

unfoldable pub admit : (String → ℕ) → Clock → Mode → Config → Db → ℕ → String → Choice × Verdict
admit digest clock m cfg db inflight key =
    let first = choice_for digest m cfg key in
    if (meter clock cfg db inflight first).allowed || is_named m
    then (first, meter clock cfg db inflight first)
    else spare clock cfg db inflight first (meter clock cfg db inflight first)
        (fallback_for cfg.review_models first)
