-- ===== src/Tests/Cold.antt =====
-- The cold start, at a concrete input.
use claude_code_reviewer.Prelude.{[], ◌∷◌, refl, All, splitlines, strip}
use claude_code_reviewer.Github.Reads.{pr_meta, found_meta, to_meta, last_review_request, last_line}
use claude_code_reviewer.Db.Notices.{is_seeded, mark_seeded}
use claude_code_reviewer.Db.Reviews.{insert_or_replace, record_hold}
use claude_code_reviewer.Effects.{store, say, modify, catch, ask, pure, ◌>>=◌}
use claude_code_reviewer.Slack.{dm_owner, post_to}
use claude_code_reviewer.Orchestrator.Tick.{stamp}
use claude_code_reviewer.Orchestrator.Cold.{
  seed, seed_each, read_backlog, seed_one, hold_backlog, finish_seed,
}
use claude_code_reviewer.Orchestrator.Seeded.{IsNoted, IsNoted-seed}
use claude_code_reviewer.Tests.Data.{shop}
use claude_code_reviewer.Tests.Turns.{process, world}

IsNoted-seed_example :
    All (IsNoted process shop (seed process shop (7 ∷ 8 ∷ []) world).1.db.reviews) (7 ∷ 8 ∷ [])
unfolding is_seeded seed seed_each read_backlog seed_one hold_backlog finish_seed mark_seeded store
    catch pr_meta ask found_meta to_meta pure last_review_request last_line stamp modify say
    dm_owner post_to insert_or_replace record_hold splitlines strip ◌>>=◌
IsNoted-seed_example = IsNoted-seed process shop (7 ∷ 8 ∷ []) world refl refl refl
