-- ===== src/Orchestrator/Act.antt =====
-- `_act`: what follows from a decision; the review is an argument.
use claude_code_reviewer.Prelude.{
  String, ◌<>◌, not, ◌&&◌, Option, none, some, ◌==◌, string_eq, take_chars, if◌then◌else◌,
}
use claude_code_reviewer.Config.{RepoConfig}
use claude_code_reviewer.Github.{PrMeta}
use claude_code_reviewer.Gates.{Decision, Action, review, skip, hold, ci_note}
use claude_code_reviewer.Db.Reviews.{record_hold}
use claude_code_reviewer.Effects.{M, pure, ◌>>=◌, ◌>>◌}
use claude_code_reviewer.Publish.{PublishResult, once_per, posted_key, post_ci_note}
use claude_code_reviewer.Orchestrator.Tick.{Process, Outcome, is_quiet, dm_owner_once, stamp}

abbrev pub outcome : RepoConfig → PrMeta → String → String → Outcome
outcome repo meta action detail = record {
  repo = repo.slug;
  pr = meta.number;
  action = action;
  detail = detail;
}

unfoldable pub noted : PrMeta → Option PublishResult → String
noted meta none = "already noted the red build for " <> take_chars 8 meta.head_sha
noted meta (some r) = r.detail

module _ (p : Process) where
  -- `if decision.dm: …`
  unfoldable pub tell : String → Option String → M (Unit {0})
  tell key none = pure tt
  tell key (some text) = if text == "" then pure tt else dm_owner_once p ("hold:" <> key) text

  unfoldable pub record_if : RepoConfig → PrMeta → String → String → Decision → M (Unit {0})
  record_if repo meta key requested_at d =
      if d.recorded && not (is_quiet p.mode)
      then stamp p
          (λ now. record_hold now key repo.slug meta.number meta.head_sha requested_at d.reason)
      else pure tt

  -- The branch of a hold.
  unfoldable pub act_hold : RepoConfig → PrMeta → String → String → Decision → M Outcome
  act_hold repo meta key requested_at d = do
    tell key d.dm
    record_if repo meta key requested_at d
    pure (outcome repo meta "hold" d.reason)

  -- The branch of each action.
  unfoldable pub act_on :
      M Outcome → Action → RepoConfig → PrMeta → String → String → Decision → M Outcome
  act_on reviewed skip repo meta key requested_at d = pure (outcome repo meta "skip" d.reason)
  act_on reviewed hold repo meta key requested_at d = act_hold repo meta key requested_at d
  act_on reviewed ci_note repo meta key requested_at d = do
    r ←
        once_per (posted_key "ci-red" repo meta)
          (post_ci_note p.hub p.name repo meta d.checks (is_quiet p.mode)) (is_quiet p.mode)
    pure (outcome repo meta "ci-note" (noted meta r))
  act_on reviewed review repo meta key requested_at d = reviewed

  unfoldable pub act : M Outcome → RepoConfig → PrMeta → String → String → Decision → M Outcome
  act reviewed repo meta key requested_at d = act_on reviewed d.action repo meta key requested_at d
