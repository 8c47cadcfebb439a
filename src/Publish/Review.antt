-- ===== src/Publish/Review.antt =====
-- `publish_review`: the review or the comment, the notes, and the label.
use claude_code_reviewer.Prelude.{
  ℕ, suc, ◌-◌, String, Bool, true, false, not, ◌&&◌, Option, none, some, List, [], ◌∷◌, map, length,
  ◌==◌, nat_eq, string_eq, cat, str, strip, get_or, if◌then◌else◌,
}
use claude_code_reviewer.Config.{RepoConfig}
use claude_code_reviewer.Github.{PrMeta}
use claude_code_reviewer.Db.Tables.{Verdict, needs_work}
use claude_code_reviewer.Anchor.Json.{Finding}
use claude_code_reviewer.Anchor.Lines.{commentable}
use claude_code_reviewer.Anchor.Place.{Inline, Anchored, anchor}
use claude_code_reviewer.Effects.{
  M, pure, ask, send, catch, raise_exception, ◌>>=◌, ◌>>◌, comment, review, inline_comment,
}
use claude_code_reviewer.Effects.Hub.{Hub}
use claude_code_reviewer.Publish.{PublishResult, result, set_label}
use claude_code_reviewer.Publish.Texts.{assemble, own_body}

abbrev patch_lines : String × Option String → String × List ℕ
patch_lines (name, patch) = (name, commentable (get_or patch ""))

abbrev pub is_own : Option String → PrMeta → Bool
is_own none meta = false
is_own (some login) meta = if login == "" then false else meta.author == login

abbrev pub is_needs_work : Verdict → Bool
is_needs_work needs_work = true
is_needs_work _ = false

abbrev pub handled_verdict : Verdict → Bool
handled_verdict Verdict.ok = false
handled_verdict _ = true

unfoldable pub or_raise : Option Anchored → M Anchored
or_raise none = raise_exception "anchor"
or_raise (some a) = pure a

abbrev rejected_note : ℕ → String
rejected_note n = if n == 0 then "" else cat (" (" ∷ str n ∷ " rejected)" ∷ [])

abbrev folded_note : ℕ → String
folded_note n = if n == 0 then "" else cat (" + " ∷ str n ∷ " folded" ∷ [])

unfoldable pub detail_of : Bool → ℕ → ℕ → ℕ → String → String
unfolding str
detail_of as_review posted missed folded label = cat (
    (if as_review then "requested changes" else "commented")
    ∷ " + "
    ∷ str posted
    ∷ " inline"
    ∷ rejected_note missed
    ∷ folded_note folded
    ∷ " + set '"
    ∷ label
    ∷ "'"
    ∷ [])

module _ (hub : Hub) where
  unfoldable pub diff_lines : String → ℕ → M (List (String × List ℕ))
  unfolding commentable
  diff_lines repo pr = do files ← ask (hub.files repo pr); pure (map patch_lines files)

  -- One inline note: whether GitHub took it.
  unfoldable pub post_note : RepoConfig → PrMeta → Inline → M Bool
  post_note repo meta c =
      catch (do send hub.takes (inline_comment repo.slug meta.number meta.head_sha c); pure true)
        (λ why. pure false)

  -- The notes one at a time, and how many of them landed.
  unfoldable pub post_notes : RepoConfig → PrMeta → List Inline → M ℕ
  post_notes repo meta [] = pure 0
  post_notes repo meta (c ∷ rest) = do
    took ← post_note repo meta c
    n ← post_notes repo meta rest
    pure (if took then suc n else n)

  -- The url, and how many inline comments are up.
  unfoldable pub post_body : Bool → RepoConfig → PrMeta → String → List Inline → M (String × ℕ)
  unfolding strip
  post_body true repo meta full comments = do
    url ← send hub.takes (review repo.slug meta.number full meta.head_sha comments)
    pure (strip url, length comments)
  post_body false repo meta full comments = do
    url ← send hub.takes (comment repo.slug meta.number full)
    posted ← post_notes repo meta comments
    pure (strip url, posted)

  unfoldable pub post_full : Bool → RepoConfig → PrMeta → String → Anchored → Bool → M PublishResult
  post_full as_review repo meta full anchored dry_run =
      if dry_run
      then pure (record (result false "dry run") { inline = length anchored.comments })
      else do
        sent ← post_body as_review repo meta full anchored.comments
        set_label hub repo meta.number true
        pure (record {
          posted = true;
          detail =
              detail_of as_review sent.1 (length anchored.comments - sent.1) anchored.folded_count
                repo.needs_work_label;
          inline = sent.1;
          url = if sent.0 == "" then none else some sent.0;
        })

  unfoldable pub publish_review :
      String
      → Verdict
      → RepoConfig
      → PrMeta
      → String
      → List Finding
      → Bool
      → Option String
      → M PublishResult
  unfolding strip
  publish_review name verdict repo meta body findings dry_run self_login =
      if not (handled_verdict verdict)
      then raise_exception "publish_review does not handle verdict 'ok'"
      else if strip body == ""
      then pure (result false "summary body was empty; posting nothing")
      else do
        let own = is_own self_login meta && is_needs_work verdict
        let full_body = if own then own_body body else body
        valid ← diff_lines repo.slug meta.number
        anchored ← or_raise (anchor name findings valid repo.inline_min_severity)
        post_full (is_needs_work verdict && not own) repo meta
            (assemble name (cat ("<!-- robbie-review sha=" ∷ meta.head_sha ∷ " -->" ∷ []))
              repo.needs_work_label full_body anchored)
            anchored dry_run
