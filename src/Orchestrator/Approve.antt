-- ===== src/Orchestrator/Approve.antt =====
-- What an `ok` does on GitHub: the retraction of a veto, the build, and the announcement.
use claude_code_reviewer.Prelude.{
  ℕ, String, ◌<>◌, Bool, not, Option, none, some, [], ◌∷◌, ◌==◌, string_eq, nat_eq, cat, str,
  take_chars, if◌then◌else◌,
}
use claude_code_reviewer.Config.{RepoConfig}
use claude_code_reviewer.Github.{PrMeta, ci_started}
use claude_code_reviewer.Github.Reads.{pr_meta, ci_already_asked, standing_rejection}
use claude_code_reviewer.Effects.{M, pure, catch, ◌>>=◌, ◌>>◌}
use claude_code_reviewer.Publish.{
  PublishResult, once_per, posted_key, dismiss_own_rejection, request_ci, post_approval,
}
use claude_code_reviewer.Slack.{dm_owner, dm_reviewers}
use claude_code_reviewer.Slack.Texts.{approved_channel_note, approved_note, approved_author_note}
use claude_code_reviewer.Orchestrator.Tick.{Process, is_quiet, dm_owner_once}
use claude_code_reviewer.Orchestrator.Notify.{dm_pr_author, to_channel}

-- `f"CI … for {meta.head_sha[:8]}"`
abbrev for_commit : String → PrMeta → String
for_commit what meta = what <> take_chars 8 meta.head_sha

abbrev some_if : Bool → String → Option String
some_if b text = if b then some text else none

-- `*{meta.title}* ({meta.url})`
abbrev pub titled : PrMeta → String
titled meta = cat ("*" ∷ meta.title ∷ "* (" ∷ meta.url ∷ ")" ∷ [])

module _ (p : Process) where
  unfoldable pub dismiss_node : Option String → M (Option String)
  dismiss_node none = pure none
  dismiss_node (some node_id) = do
    r ← dismiss_own_rejection p.hub node_id (is_quiet p.mode)
    pure (some r.detail)

  unfoldable pub dismiss_if_vetoed : RepoConfig → ℕ → M (Option String)
  dismiss_if_vetoed repo pr = do
    node_id ← standing_rejection p.hub repo.slug pr repo.reviewer_login
    dismiss_node node_id

  unfoldable pub retract_rejection : RepoConfig → PrMeta → M (Unit {0})
  unfolding str
  retract_rejection repo meta =
      catch (do dismiss_if_vetoed repo meta.number; pure tt)
        (λ why. dm_owner_once p (cat ("dismiss:" ∷ repo.slug ∷ ":" ∷ str meta.number ∷ [])) (
          cat (
            "I approved "
            ∷ titled meta
            ∷ " but couldn't retract my earlier changes-requested review, so GitHub still reads the PR as blocked by me: "
            ∷ why
            ∷ [])))

  unfoldable pub asked_before : RepoConfig → PrMeta → M (Option String)
  asked_before repo meta =
      catch
        (do
          asked ← ci_already_asked p.hub repo.slug meta.number repo.ci_phrase meta.head_sha
          pure (some_if asked (for_commit "CI already asked for " meta)))
        (λ why. pure none)

  unfoldable pub started_on : RepoConfig → PrMeta → Option PrMeta → M (Option String)
  started_on repo meta none = pure none
  started_on repo meta (some fresh) =
      if not (fresh.head_sha == meta.head_sha)
      then pure none
      else if ci_started fresh.checks repo.ignore_checks
      then pure (some (for_commit "CI already running for " meta))
      else asked_before repo meta

  unfoldable pub ci_already_started : RepoConfig → PrMeta → M (Option String)
  ci_already_started repo meta = do
    fresh ←
        catch (do fresh ← pr_meta p.hub repo.slug meta.number; pure (some fresh)) (λ why. pure none)
    started_on repo meta fresh

  unfoldable pub run_ci_key : RepoConfig → PrMeta → String
  unfolding str
  run_ci_key repo meta =
      cat ("run-ci:" ∷ repo.slug ∷ ":" ∷ str meta.number ∷ ":" ∷ meta.head_sha ∷ [])

  abbrev ci_told : PrMeta → Option PublishResult → String
  ci_told meta none = for_commit "CI already asked for " meta
  ci_told meta (some r) = r.detail

  unfoldable pub ask_ci : RepoConfig → PrMeta → Option String → M String
  ask_ci repo meta (some started) = pure started
  ask_ci repo meta none =
      catch
        (do
          r ←
              once_per (run_ci_key repo meta) (request_ci p.hub repo meta p.mode.no_publish)
                p.mode.no_publish
          pure (ci_told meta r))
        (λ why. do
          dm_owner p.slack (
              cat (
                "I approved "
                ∷ titled meta
                ∷ " but couldn't post `"
                ∷ repo.ci_phrase
                ∷ "`, so CI has not started: "
                ∷ why
                ∷ []))
          pure "CI request failed")

  -- `_request_ci`
  unfoldable pub request_build : RepoConfig → PrMeta → M String
  request_build repo meta = do started ← ci_already_started repo meta; ask_ci repo meta started

  unfoldable pub announce_approval : RepoConfig → PrMeta → String → M (Unit {0})
  unfolding approved_channel_note approved_note approved_author_note
  announce_approval repo meta ci = do
    catch
        (do
          once_per (posted_key "approved" repo meta)
              (post_approval p.hub p.name repo meta p.mode.no_publish) p.mode.no_publish
          pure tt)
        (λ why. pure tt)
    to_channel p repo.slack_channel
        (approved_channel_note p.name meta.number meta.title meta.url meta.author)
    dm_reviewers p.slack (approved_note meta.number meta.title meta.url ci)
    dm_pr_author p meta (approved_author_note meta.number meta.title meta.url)
