-- ===== src/Orchestrator/Arm.antt =====
-- Which arm a review is admitted on.
use claude_code_reviewer.Prelude.{
  ℕ, String, Bool, false, not, ◌&&◌, ◌||◌, Option, none, some, ◌≡◌, refl, arith,
}
use claude_code_reviewer.Config.{Config}
use claude_code_reviewer.Config.Arms.{Choice, fallback_for}
use claude_code_reviewer.Budget.{Clock}
use claude_code_reviewer.Db.Tables.{Db}
use claude_code_reviewer.Orchestrator.Tick.{Mode}
use claude_code_reviewer.Orchestrator.Admit.{is_named, choice_for, meter, spare, admit}

-- The meter of the fallback, where there is one, has room.
unfoldable pub covers : Clock → Config → Db → ℕ → Option Choice → Bool
covers clock cfg w inflight none = false
covers clock cfg w inflight (some c) = (meter clock cfg w inflight c).allowed

spare_lem :
    (clock : Clock) (cfg : Config) (w : Db) (n : ℕ) (first : Choice) (other : Option Choice)
    → (meter clock cfg w n first).allowed ≡ false
    → ((spare clock cfg w n first (meter clock cfg w n first) other).1
        ≡ meter clock cfg w n (spare clock cfg w n first (meter clock cfg w n first) other).0)
      × ((spare clock cfg w n first (meter clock cfg w n first) other).1.allowed
          ≡ covers clock cfg w n other)
unfolding spare covers
spare_lem clock cfg w n first none h = (refl, h)
spare_lem clock cfg w n first (some c) h = ground arith

-- The verdict on a review is that of the meter of the arm that runs it; and it is allowed exactly
-- when the arm chosen for its key has room, or when no model was named and the fallback has room.
pub admit_lem :
    (digest : String → ℕ) (clock : Clock) (m : Mode) (cfg : Config) (w : Db) (n : ℕ) (key : String)
    → let first = choice_for digest m cfg key in
      let run = admit digest clock m cfg w n key in
      (run.1 ≡ meter clock cfg w n run.0)
      × (run.1.allowed ≡ (
          (meter clock cfg w n first).allowed
          || (not (is_named m) && covers clock cfg w n (fallback_for cfg.review_models first))))
unfolding admit
admit_lem digest clock m cfg w n key =
    let first = choice_for digest m cfg key in
    ground (arith, spare_lem clock cfg w n first (fallback_for cfg.review_models first))
