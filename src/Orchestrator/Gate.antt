-- ===== src/Orchestrator/Gate.antt =====
-- `_gate`: the reads in the order of their cost, each skipped when an earlier one settles.
use claude_code_reviewer.Prelude.{
  ℕ, String, ◌<>◌, Bool, Option, none, some, List, ◌∷◌, ◌&&◌, ◌==◌, not, nat_eq, string_eq, count,
  filter, if◌then◌else◌,
}
use claude_code_reviewer.Config.{RepoConfig}
use claude_code_reviewer.Github.{PrMeta}
use claude_code_reviewer.Github.Threads.{Thread, awaiting_author}
use claude_code_reviewer.Github.Reads.{pr_meta, last_review_request}
use claude_code_reviewer.Gates.{
  State, Decision, decide, skip, label_hold, done_label, already_judged, evaluate, dedup_key,
}
use claude_code_reviewer.Db.Tables.{Review}
use claude_code_reviewer.Db.Reviews.{get_review, sha_was_judged}
use claude_code_reviewer.Db.Board.{settle_done}
use claude_code_reviewer.Effects.{World, M, pure, ask, gets, modify, store, ◌>>=◌, ◌>>◌}
use claude_code_reviewer.Orchestrator.Tick.{Process}

-- What `_gate` returns.
pub record Gated : Type 0 where
  pub meta : PrMeta
  pub key : String
  pub requested_at : String
  pub decision : Decision

abbrev pub gated : PrMeta → String → String → Decision → Gated
gated meta key requested_at d = record {
  meta = meta;
  key = key;
  requested_at = requested_at;
  decision = d;
}

abbrev pub state_of_row : Option Review → Option State
state_of_row none = none
state_of_row (some r) = some r.state

abbrev pub is_entry : String → ℕ → String × ℕ × List Thread → Bool
is_entry repo pr (r, n, ts) = (r == repo) && (n == pr)

-- `self._threads[repo.slug, pr] = threads`
unfoldable pub keep_threads : String → ℕ → List Thread → World → World
keep_threads repo pr ts w = record w {
  cached = (repo, pr, ts) ∷ filter (λ e. not (is_entry repo pr e)) w.cached;
}

module _ (p : Process) where
  -- The part after the read of the threads.
  unfoldable pub with_threads : RepoConfig → ℕ → PrMeta → String → String → M Gated
  with_threads repo pr meta key requested_at = do
    read ← ask (p.hub.threads repo.slug pr repo.reviewer_login)
    modify (keep_threads repo.slug pr read.threads)
    judged ← gets (λ w. sha_was_judged w.db repo.slug pr meta.head_sha)
    pure (
        gated meta key requested_at
          (evaluate meta repo judged (count awaiting_author read.threads)))

  unfoldable pub with_row : RepoConfig → ℕ → PrMeta → String → String → Option Decision → M Gated
  with_row repo pr meta key requested_at (some judged) = pure (gated meta key requested_at judged)
  with_row repo pr meta key requested_at none = with_threads repo pr meta key requested_at

  -- The part after the read of the request.
  unfoldable pub with_request : RepoConfig → ℕ → PrMeta → String → M Gated
  with_request repo pr meta requested_at = do
    let key = dedup_key repo.slug pr meta.head_sha requested_at
    prior ← gets (λ w. get_review w.db key)
    with_row repo pr meta key requested_at (already_judged (state_of_row prior))

  unfoldable pub with_done : RepoConfig → ℕ → PrMeta → Option String → M Gated
  with_done repo pr meta none = do
    requested_at ← last_review_request p.hub repo.slug pr repo.reviewer_login
    with_request repo pr meta requested_at
  with_done repo pr meta (some done) = do
    if p.mode.dry_run then pure tt else store (λ db. (settle_done repo.slug pr db).1)
    pure (gated meta "" "" (decide skip (done <> " — a human has it")))

  unfoldable pub with_meta : RepoConfig → ℕ → PrMeta → Option Decision → M Gated
  with_meta repo pr meta (some held) = pure (gated meta "" "" held)
  with_meta repo pr meta none = with_done repo pr meta (done_label meta repo)

  unfoldable pub gate : RepoConfig → ℕ → M Gated
  gate repo pr = do meta ← pr_meta p.hub repo.slug pr; with_meta repo pr meta (label_hold meta repo)
