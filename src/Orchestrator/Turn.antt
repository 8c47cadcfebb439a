-- ===== src/Orchestrator/Turn.antt =====
-- `_handle` and `_handle_inner`: the gate, then what follows from it.
use claude_code_reviewer.Prelude.{ℕ, String}
use claude_code_reviewer.Config.{RepoConfig}
use claude_code_reviewer.Effects.{M, pure, catch, catch_all, ◌>>=◌}
use claude_code_reviewer.Orchestrator.Tick.{Process, Outcome}
use claude_code_reviewer.Orchestrator.Gate.{gate}
use claude_code_reviewer.Orchestrator.Act.{act}
use claude_code_reviewer.Orchestrator.Review.{review}

abbrev ended : RepoConfig → ℕ → String → String → Outcome
ended repo pr action detail = record { repo = repo.slug; pr = pr; action = action; detail = detail }

module _ (p : Process) where
  unfoldable pub handle_inner : RepoConfig → ℕ → M Outcome
  handle_inner repo pr = do
    g ← gate p repo pr
    act p (review p repo g.meta g.key g.requested_at) repo g.meta g.key g.requested_at g.decision

  -- A `GhError`, or another exception, ends the turn of this pull request alone.
  unfoldable pub handle : RepoConfig → ℕ → M Outcome
  handle repo pr =
      catch_all
        (catch (handle_inner repo pr) (λ why. pure (ended repo pr "skip" "github unreachable")))
        (λ why. pure (ended repo pr "failed" why))
