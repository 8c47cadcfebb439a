-- ===== src/Orchestrator/Notify.antt =====
-- What is told of a review: `_gave_up`, `_tell_props`, `_dm_author`, `_notify`.
use claude_code_reviewer.Prelude.{
  String, ◌<>◌, true, false, not, ◌||◌, Option, none, some, List, ◌==◌, string_eq, if◌then◌else◌,
}
use claude_code_reviewer.Config.{RepoConfig}
use claude_code_reviewer.Github.{PrMeta}
use claude_code_reviewer.Db.Tables.{Verdict}
use claude_code_reviewer.Db.Notices.{notice_once}
use claude_code_reviewer.Anchor.Json.{Finding}
use claude_code_reviewer.Anchor.Render.{severity_count}
use claude_code_reviewer.Effects.{M, pure, say, store_get, ◌>>=◌, ◌>>◌, board}
use claude_code_reviewer.Slack.{dm_owner, dm_author, post_to}
use claude_code_reviewer.Slack.Texts.{verdict_phrase, channel_note, author_note, unmapped_note}
use claude_code_reviewer.Orchestrator.Tick.{Process, Outcome, is_quiet}
use claude_code_reviewer.Orchestrator.Act.{outcome}

module _ (p : Process) where
  -- `_tell_props`, with the guard of `props_bridge.report`.
  unfoldable pub tell_props : PrMeta → String → M (Unit {0})
  tell_props meta status =
      if is_quiet p.mode || p.props_url == ""
      then pure tt
      else say (board meta.number meta.head_sha status)

  unfoldable pub gave_up : RepoConfig → PrMeta → String → String → M Outcome
  gave_up repo meta detail told = do
    dm_owner p.slack told
    tell_props meta "skipped"
    pure (outcome repo meta "failed" detail)

  -- `state == "unmapped" and notice_once(…)`, which is asked only for an unmapped one.
  unfoldable pub tell_unmapped : PrMeta → String → M (Unit {0})
  tell_unmapped meta state = if not (state == "unmapped") then pure tt else do
    first ← store_get (notice_once ("nomap:" <> meta.author))
    if first then dm_owner p.slack (unmapped_note meta.author p.slack.users_file) else pure tt

  -- `_dm_author`
  unfoldable pub dm_pr_author : PrMeta → String → M (Unit {0})
  dm_pr_author meta text = do state ← dm_author p.slack meta.author text; tell_unmapped meta state

  -- `if repo.slack_channel: …`
  unfoldable pub to_channel : Option String → String → M (Unit {0})
  to_channel none text = pure tt
  to_channel (some channel) text = if channel == "" then pure tt else post_to p.slack channel text

  unfoldable pub notify : RepoConfig → PrMeta → Verdict → List Finding → M (Unit {0})
  unfolding severity_count verdict_phrase channel_note author_note
  notify repo meta verdict findings = do
    let phrase =
        verdict_phrase verdict (severity_count true findings) (severity_count false findings)
    to_channel repo.slack_channel (channel_note meta.number meta.title meta.url meta.author phrase)
    dm_pr_author meta (author_note meta.number meta.title meta.url phrase)
