-- ===== src/Publish.antt =====
-- robbie/publish.py: what reaches GitHub, each function with its dry run.
pub mod Texts
pub mod Review
pub mod Issue
pub mod Size
pub mod Dry
use claude_code_reviewer.Prelude.{
  ℕ, String, ◌<>◌, Bool, true, false, not, ◌&&◌, Option, none, some, List, [], ◌∷◌, ◌==◌, string_eq,
  cat, str, join, strip, rstrip, take_chars, contains, get_or, is_empty, if◌then◌else◌,
}
use claude_code_reviewer.Config.{RepoConfig}
use claude_code_reviewer.Github.{PrMeta}
use claude_code_reviewer.Db.Notices.{notice_seen, notice_once}
use claude_code_reviewer.Anchor.Render.{signature_sub}
use claude_code_reviewer.Effects.{
  World, M, pure, ask, gets, store_get, send, ◌>>=◌, ◌>>◌, Write, comment, add_labels, remove_label,
  dismiss, resolve, reply, assign,
}
use claude_code_reviewer.Effects.Hub.{Hub}
use Texts.{signature, ci_note_body, red_build_body, approval_body, or_red}

pub record PublishResult : Type 0 where
  pub posted : Bool
  pub detail : String
  pub inline : ℕ
  pub url : Option String

abbrev pub result : Bool → String → PublishResult
result posted detail = record { posted = posted; detail = detail; inline = 0; url = none }

unfoldable pub posted_key : String → RepoConfig → PrMeta → String
unfolding str
posted_key kind repo meta =
    cat ("posted:" ∷ kind ∷ ":" ∷ repo.slug ∷ ":" ∷ str meta.number ∷ ":" ∷ meta.head_sha ∷ [])

-- `if result.posted: db.notice_once(key)`
unfoldable pub spend_key : String → PublishResult → M (Option PublishResult)
spend_key key r =
    if not r.posted then pure (some r) else do store_get (notice_once key); pure (some r)

-- `none` says that it already went out.
unfoldable pub once_per : String → M PublishResult → Bool → M (Option PublishResult)
once_per key send_it quiet = do
  seen ← gets (λ w. notice_seen w.db key)
  if not quiet && seen then pure none else do r ← send_it; spend_key key r

module _ (hub : Hub) where
  unfoldable pub post_ci_note : String → RepoConfig → PrMeta → List String → Bool → M PublishResult
  unfolding join
  post_ci_note name repo meta checks dry_run = if dry_run then pure (result false "dry run") else do
    send hub.takes (comment repo.slug meta.number (ci_note_body name meta checks))
    pure (result true (cat ("posted the CI note (" ∷ or_red checks ∷ ")" ∷ [])))

  unfoldable pub report_red_build :
      String → RepoConfig → PrMeta → List String → Bool → M PublishResult
  unfolding join
  report_red_build name repo meta checks dry_run =
      if dry_run then pure (result false "dry run") else do
        send hub.takes (comment repo.slug meta.number (red_build_body name meta checks))
        pure (result true (cat ("reported the red build (" ∷ or_red checks ∷ ")" ∷ [])))

  unfoldable pub post_approval : String → RepoConfig → PrMeta → Bool → M PublishResult
  post_approval name repo meta dry_run = if dry_run then pure (result false "dry run") else do
    send hub.takes (comment repo.slug meta.number (approval_body name meta))
    pure (result true "posted the approval note")

  unfoldable pub request_ci : RepoConfig → PrMeta → Bool → M PublishResult
  request_ci repo meta dry_run = if dry_run then pure (result false "dry run") else do
    send hub.takes (comment repo.slug meta.number repo.ci_phrase)
    pure (result true (cat ("asked CI to run (" ∷ repo.ci_phrase ∷ ")" ∷ [])))

  -- `_set_label`
  unfoldable pub set_label : RepoConfig → ℕ → Bool → M String
  set_label repo pr true = send hub.takes (add_labels repo.slug pr (repo.needs_work_label ∷ []))
  set_label repo pr false = send hub.takes (remove_label repo.slug pr repo.needs_work_label)

  unfoldable pub clear_needs_work : RepoConfig → ℕ → Bool → M PublishResult
  clear_needs_work repo pr dry_run = do
    labels ← ask (hub.labels repo.slug pr)
    if not (contains (get_or labels []) repo.needs_work_label)
        then pure (result false "no needs-work label to clear")
        else if dry_run
        then pure (result false "dry run: would clear the needs-work label")
        else do
          set_label repo pr false
          pure (result true (cat ("cleared '" ∷ repo.needs_work_label ∷ "'" ∷ [])))

  unfoldable pub dismiss_own_rejection : String → Bool → M PublishResult
  dismiss_own_rejection node_id dry_run =
      if node_id == ""
      then pure (result false "no standing rejection of ours")
      else if dry_run
      then pure (result false ("dry run: would dismiss " <> node_id))
      else do
        send hub.takes (dismiss node_id)
        pure (result true "dismissed my own changes-requested")

  unfoldable pub resolve_thread : String → Bool → M PublishResult
  resolve_thread node_id dry_run =
      if node_id == ""
      then pure (result false "no thread id")
      else if dry_run
      then pure (result false ("dry run: would resolve " <> node_id))
      else do send hub.takes (resolve node_id); pure (result true "resolved")

  abbrev some_url : String → Option String
  some_url url = if url == "" then none else some url

  unfoldable pub reply_to_thread : String → RepoConfig → ℕ → ℕ → String → Bool → M PublishResult
  unfolding strip rstrip signature_sub
  reply_to_thread name repo pr comment_id body dry_run =
      if strip body == ""
      then pure (result false "empty reply")
      else if dry_run
      then pure (result false "dry run")
      else do
        url ←
            send hub.takes
              (reply repo.slug pr comment_id (rstrip body <> "\n\n" <> signature_sub name))
        pure (record (result true "replied") { url = some_url (strip url) })
