-- ===== src/Orchestrator/Cold.antt =====
-- `_retire_unlabeled`, `_seed` and `retract_stale_rejections`: what is done for a whole repository.
use claude_code_reviewer.Prelude.{
  ℕ, String, Bool, true, false, not, Option, none, some, List, [], ◌∷◌, ◌==◌, nat_eq, string_eq,
  cat, str, length, map, filter, any, contains, get_or, take_chars, is_empty, ltb, if◌then◌else◌,
}
use claude_code_reviewer.Config.{RepoConfig, brake_labels}
use claude_code_reviewer.Github.{PrMeta}
use claude_code_reviewer.Github.Reads.{
  LabeledPr, pr_meta, last_review_request, labeled_heads, stale_changes_requested,
}
use claude_code_reviewer.Gates.{dedup_key}
use claude_code_reviewer.Db.Tables.{Db}
use claude_code_reviewer.Db.Board.{
  settle_unlabeled, settle_stale, unrequest, approved_prs, distinct,
}
use claude_code_reviewer.Db.Reviews.{record_hold, sort_by}
use claude_code_reviewer.Db.Notices.{mark_seeded}
use claude_code_reviewer.Effects.{M, pure, gets, store, catch, ◌>>=◌, ◌>>◌}
use claude_code_reviewer.Slack.{dm_owner}
use claude_code_reviewer.Orchestrator.Tick.{Process, Outcome, stamp}
use claude_code_reviewer.Orchestrator.Approve.{dismiss_if_vetoed}

abbrev is_braked : RepoConfig → LabeledPr → Bool
is_braked repo row = any (λ l. contains (brake_labels repo) l) row.labels

-- What a read of the labelled pull requests settles.
unfoldable pub retire : RepoConfig → List LabeledPr → Db → Db
unfolding brake_labels
retire repo heads db =
    let unlabeled = (settle_unlabeled repo.slug (map (λ r. r.number) heads) db).1 in
    let stale = (settle_stale repo.slug (map (λ r. (r.number, r.head)) heads) unlabeled).1 in
    (unrequest repo.slug (map (λ r. r.number) (filter (is_braked repo) heads)) stale).1

abbrev first_chars : String → String
first_chars why = take_chars 120 why

abbrev retracted : RepoConfig → ℕ → String → String → Outcome
retracted repo pr action detail = record {
  repo = repo.slug;
  pr = pr;
  action = action;
  detail = detail;
}

-- `detail or "nothing of mine standing"`
abbrev or_nothing : Option String → String
or_nothing o = let s = get_or o "" in if s == "" then "nothing of mine standing" else s

module _ (p : Process) (repo : RepoConfig) where
  -- A full page may be a truncated one, and settles nothing.
  unfoldable pub retire_heads : Option (List LabeledPr) → M (Unit {0})
  retire_heads none = pure tt
  retire_heads (some heads) =
      if length heads == 200
      then pure tt
      else if p.mode.dry_run
      then pure tt
      else store (retire repo heads)

  unfoldable pub retire_unlabeled : M (Unit {0})
  retire_unlabeled = do
    heads ←
        catch (do heads ← labeled_heads p.hub repo.slug repo.label; pure (some heads))
          (λ why. pure none)
    retire_heads heads

  unfoldable pub read_backlog : ℕ → M (Option (PrMeta × String))
  read_backlog pr =
      catch
        (do
          meta ← pr_meta p.hub repo.slug pr
          requested_at ← last_review_request p.hub repo.slug pr repo.reviewer_login
          pure (some (meta, requested_at)))
        (λ why. pure none)

  unfoldable pub hold_backlog : ℕ → PrMeta → String → M (Unit {0})
  hold_backlog pr meta requested_at =
      if p.mode.dry_run
      then pure tt
      else stamp p (λ now.
        record_hold now (dedup_key repo.slug pr meta.head_sha requested_at) repo.slug pr
          meta.head_sha requested_at "backlog at cold start")

  unfoldable pub seed_one : ℕ → M Bool → Option (PrMeta × String) → M Bool
  seed_one pr rest none = pure false
  seed_one pr rest (some (meta, requested_at)) = do hold_backlog pr meta requested_at; rest

  -- The loop; it answers whether every pull request could be read.
  unfoldable pub seed_each : List ℕ → M Bool
  seed_each [] = pure true
  seed_each (pr ∷ prs) = do read ← read_backlog pr; seed_one pr (seed_each prs) read

  -- What is left to do when every pull request was read.
  unfoldable pub finish_seed : List ℕ → M (Unit {0})
  unfolding str
  finish_seed prs = do
    store (mark_seeded repo.slug)
    dm_owner p.slack (
        cat (
          "robbie is on for *"
          ∷ repo.slug
          ∷ "*. "
          ∷ str (length prs)
          ∷ " PR(s) currently request "
          ∷ repo.reviewer_login
          ∷ "'s review with the \""
          ∷ repo.label
          ∷ "\" label; I've noted them and will review *new* requests from here on. Run `robbie once --repo "
          ∷ repo.slug
          ∷ " --pr <n>` to go through one from the backlog."
          ∷ []))

  unfoldable pub seed : List ℕ → M (Unit {0})
  seed prs = do
    whole ← seed_each prs
    if not whole then pure tt else if p.mode.dry_run then pure tt else finish_seed prs

  unfoldable pub retract_one : ℕ → M Outcome
  unfolding take_chars
  retract_one pr =
      catch
        (do
          detail ← dismiss_if_vetoed p repo pr
          pure (retracted repo pr "retract" (or_nothing detail)))
        (λ why. pure (retracted repo pr "failed" (first_chars why)))

  unfoldable pub retract_each : List ℕ → M (List Outcome)
  retract_each [] = pure []
  retract_each (pr ∷ prs) = do o ← retract_one pr; os ← retract_each prs; pure (o ∷ os)

  -- `sorted(vetoed & set(approved))`, cut down to `only` where that names any.
  unfoldable pub contradicted : List ℕ → List ℕ → Db → List ℕ
  unfolding approved_prs
  contradicted vetoed only db =
      let both =
        sort_by ltb (filter (λ pr. contains (approved_prs repo.slug db) pr) (distinct vetoed)) in
      if is_empty only then both else filter (λ pr. contains only pr) both

  unfoldable pub retract_named : List ℕ → Option (List ℕ) → M (List Outcome)
  retract_named only none = pure []
  retract_named only (some vetoed) = do
    prs ← gets (λ w. contradicted vetoed only w.db)
    retract_each prs

  unfoldable pub retract_stale_rejections : List ℕ → M (List Outcome)
  retract_stale_rejections only = do
    vetoed ←
        catch
          (do
            vetoed ← stale_changes_requested p.hub repo.slug repo.reviewer_login repo.label
            pure (some vetoed))
          (λ why. pure none)
    retract_named only vetoed
