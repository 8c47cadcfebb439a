-- ===== src/Sweep.antt =====
-- robbie/threads.py: the answers to replies on the reviewer's own threads.
pub mod Turn
pub mod Once
use claude_code_reviewer.Prelude.{
  ℕ, suc, ◌+◌, ◌*◌, String, ◌<>◌, Bool, true, false, not, ◌&&◌, Option, none, some, List, [], ◌∷◌,
  ◌==◌, string_eq, nat_eq, cat, str, lower, has_text, filter, length, is_empty, find, contains,
  get_or, if◌then◌else◌,
}
use claude_code_reviewer.Config.{Config, RepoConfig}
use claude_code_reviewer.Github.{PrMeta, PrThreads}
use claude_code_reviewer.Github.Threads.{Thread, answered}
use claude_code_reviewer.Github.Reads.{pr_meta}
use claude_code_reviewer.Db.Tables.{Db}
use claude_code_reviewer.Db.Board.{reviewed_prs}
use claude_code_reviewer.Db.Money.{record_spend}
use claude_code_reviewer.Db.Notices.{notice_seen, notice_once}
use claude_code_reviewer.Contract.Verdicts.{ThreadVerdict, ThreadAction, resolve, reply, leave}
use claude_code_reviewer.Effects.{
  World, M, pure, ask, gets, store, store_get, catch, catch_all, ◌>>=◌, ◌>>◌,
}
use claude_code_reviewer.Publish.{PublishResult, resolve_thread, reply_to_thread}
use claude_code_reviewer.Slack.{Slack, dm_owner}
use claude_code_reviewer.Orchestrator.Tick.{Process, Outcome, ReviewRun, stamp}

unfoldable pub merged_key : String → ℕ → String
unfolding str
merged_key slug pr = cat ("merged:" ∷ slug ∷ ":" ∷ str pr ∷ [])

unfoldable pub thread_state : String → ℕ → Thread → String
unfolding str
thread_state slug pr t =
    cat
      ("thread:" ∷ slug ∷ ":" ∷ str pr ∷ ":" ∷ str t.comment_id ∷ ":" ∷ str (length t.replies) ∷ [])

-- `done`
pub record Done : Type 0 where
  pub resolved : ℕ
  pub replied : ℕ
  pub left : ℕ
  pub unanswered : ℕ
  pub failed : ℕ

abbrev pub nothing_done : Done
nothing_done = record { resolved = 0; replied = 0; left = 0; unanswered = 0; failed = 0 }

-- The last verdict on a comment, as the dict keeps it.
unfoldable pub verdict_for : List ThreadVerdict → ℕ → Option ThreadVerdict
verdict_for [] cid = none
verdict_for (v ∷ vs) cid = elim (verdict_for vs cid) [
  | some later ↦ some later
  | none ↦ if v.comment_id == cid then some v else none
]

-- A reply on an outdated thread is left.
unfoldable pub action_on : ThreadAction → Bool → ThreadAction
action_on reply true = leave
action_on a outdated = a

-- `by_comment`: the last thread of each comment, at the place of the first.
unfoldable pub by_comment : List Thread → List Thread
by_comment [] = []
by_comment (t ∷ ts) =
    let rest = by_comment ts in
    elim (find (λ u. u.comment_id == t.comment_id) rest) [
      | none ↦ t ∷ rest
      | some later ↦ later ∷ filter (λ u. not (u.comment_id == t.comment_id)) rest
    ]

abbrev pub count_action : ThreadAction → Done → Done
count_action resolve d = record d { resolved = suc d.resolved }
count_action reply d = record d { replied = suc d.replied }
count_action leave d = record d { left = suc d.left }

module _ (p : Process) (repo : RepoConfig) (pr : ℕ) where
  -- `_settled`
  unfoldable pub settled : Thread → M (Unit {0})
  settled t =
      if p.mode.no_publish
      then pure tt
      else do store_get (notice_once (thread_state repo.slug pr t)); pure tt

  unfoldable pub carry_out : ThreadAction → Thread → ThreadVerdict → M (Unit {0})
  carry_out resolve t v = do resolve_thread p.hub t.node_id p.mode.no_publish; pure tt
  carry_out reply t v = do
    reply_to_thread p.hub p.name repo pr t.comment_id v.body p.mode.no_publish
    pure tt
  carry_out leave t v = settled t

  -- One thread: what is added to `done`.
  unfoldable pub answer_thread : Thread → Option ThreadVerdict → M (Done → Done)
  answer_thread t none = do settled t; pure (λ d. record d { unanswered = suc d.unanswered })
  answer_thread t (some v) =
      catch
        (do
          carry_out (action_on v.action t.outdated) t v
          pure (count_action (action_on v.action t.outdated)))
        (λ why. do settled t; pure (λ d. record d { failed = suc d.failed }))

  -- The loop.
  unfoldable pub answer_all : List ThreadVerdict → List Thread → Done → M Done
  answer_all verdicts [] d = pure d
  answer_all verdicts (t ∷ ts) d = do
    add ← answer_thread t (verdict_for verdicts t.comment_id)
    answer_all verdicts ts (add d)
