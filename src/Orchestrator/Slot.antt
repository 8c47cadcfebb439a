-- ===== src/Orchestrator/Slot.antt =====
-- `_slot` and `_tell_owner`: the spend gate, asked once for a review.
use claude_code_reviewer.Prelude.{
  suc, ◌-◌, String, ◌<>◌, false, not, Option, none, some, has_text, if◌then◌else◌,
}
use claude_code_reviewer.Config.Arms.{Choice}
use claude_code_reviewer.Budget.{Verdict, check}
use claude_code_reviewer.Effects.{World, M, pure, gets, modify, ◌>>=◌, ◌>>◌}
use claude_code_reviewer.Orchestrator.Tick.{Process, dm_owner_once}
use claude_code_reviewer.Orchestrator.Admit.{admit}

unfoldable pub enter_slot : World → World
enter_slot w = record w { inflight = suc w.inflight }

unfoldable pub leave_slot : World → World
leave_slot w = record w { inflight = w.inflight - 1 }

module _ (p : Process) where
  abbrev pub tell_key : Verdict → String → M (Unit {0})
  tell_key v key =
      if not v.allowed
      then dm_owner_once p key
          ("Holding off on reviews — " <> v.detail <> ". I'll start again on my own.")
      else if has_text key "unreadable"
      then dm_owner_once p key ("I can't read the spend budget: " <> v.detail)
      else pure tt

  abbrev pub tell_about : Verdict → Option String → M (Unit {0})
  tell_about v none = pure tt
  tell_about v (some key) = tell_key v key

  -- `_tell_owner`
  unfoldable pub tell_owner : Verdict → M (Unit {0})
  tell_owner v = tell_about v v.notice_key

  -- `_slot` up to its `yield`; an allowed one is left by `leave_slot`.
  unfoldable pub slot : String → M (Choice × Verdict)
  slot key = do
    admitted ← gets (λ w. admit p.digest (p.clock w.calls) p.mode p.cfg w.db w.inflight key)
    if admitted.1.allowed then modify enter_slot else pure tt
    tell_owner admitted.1
    pure admitted

  -- `_slot` without a key: a run that is no review goes on the account's meter.
  unfoldable pub account_slot : M Verdict
  account_slot = do
    verdict ← gets (λ w. check (p.clock w.calls) p.cfg w.db w.inflight false)
    if verdict.allowed then modify enter_slot else pure tt
    tell_owner verdict
    pure verdict
