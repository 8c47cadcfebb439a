-- ===== src/Orchestrator/Tolerance.antt =====
-- What a property of the world must allow to hold all through a quiet turn.
use claude_code_reviewer.Prelude.{ℕ, String, false, Option, List, ◌≡◌}
use claude_code_reviewer.Github.Threads.{Thread}
use claude_code_reviewer.Gates.{State}
use claude_code_reviewer.Db.Board.{settle_done}
use claude_code_reviewer.Db.Notices.{notice_once}
use claude_code_reviewer.Db.Money.{record_spend}
use claude_code_reviewer.Db.Reviews.{start_review, finish_review}
use claude_code_reviewer.Db.Reviews.Columns.{Given}
use claude_code_reviewer.Effects.{World}
use claude_code_reviewer.Orchestrator.Tick.{Process}
use claude_code_reviewer.Orchestrator.Gate.{keep_threads}
use claude_code_reviewer.Orchestrator.Slot.{enter_slot, leave_slot}
use claude_code_reviewer.Orchestrator.Deliver.{keep_login}
use claude_code_reviewer.Orchestrator.Review.{drop_threads}

-- What holds all through a quiet turn: it needs no message and no call that changes GitHub. A dry
-- run does not come to the review, so what only the review does may assume that it is none.
pub record Tolerates (p : Process) (P : World → Type 0) : Type 0 where
  pub keeps_threads :
      (repo : String) (pr : ℕ) (ts : List Thread) (w : World) → P w → P (keep_threads repo pr ts w)
  pub settles :
      p.mode.dry_run ≡ false
      → (repo : String) (pr : ℕ) (w : World) → P w
      → P (record w { db = (settle_done repo pr w.db).1 })
  pub drops :
      p.mode.dry_run ≡ false
      → (repo : String) (pr : ℕ) (w : World) → P w
      → P (drop_threads repo pr w)
  pub logs_in : p.mode.dry_run ≡ false → (login : String) (w : World) → P w → P (keep_login login w)
  pub enters : p.mode.dry_run ≡ false → (w : World) → P w → P (enter_slot w)
  pub leaves : p.mode.dry_run ≡ false → (w : World) → P w → P (leave_slot w)
  pub notices :
      p.mode.dry_run ≡ false
      → (key : String) (w : World) → P w
      → P (record w { db = (notice_once key w.db).1 })
  pub starts :
      p.mode.dry_run ≡ false
      → (now : ℕ) (key repo : String) (pr : ℕ) (sha requested_at : String) (w : World) → P w
      → P (record w { db = start_review now key repo pr sha requested_at w.db })
  pub spends :
      p.mode.dry_run ≡ false
      → (now : ℕ) (repo : String) (pr : ℕ) (kind : String) (cost duration : Option ℕ) (w : World)
      → P w
      → P (record w { db = record_spend now repo pr kind cost duration w.db })
  pub fails :
      p.mode.dry_run ≡ false
      → (now : ℕ) (key : String) (g : Given) (w : World) → P w
      → P (record w { db = finish_review now key State.failed g w.db })
