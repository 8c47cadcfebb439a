-- ===== src/Orchestrator/Tick.antt =====
-- What a tick works on: the flags of the process, what it stands on, and its messages.
use claude_code_reviewer.Prelude.{
  ℕ, String, Bool, not, ◌||◌, Option, some, List, ◌++◌, nat_eq, string_eq, contains, filter,
  if◌then◌else◌,
}
use claude_code_reviewer.Config.{Config, RepoConfig}
use claude_code_reviewer.Config.Arms.{Choice}
use claude_code_reviewer.Github.{PrMeta, CheckSummary}
use claude_code_reviewer.Github.Threads.{Thread}
use claude_code_reviewer.Gates.{State}
use claude_code_reviewer.Budget.{Clock}
use claude_code_reviewer.Contract.Blocks.{Blocks}
use claude_code_reviewer.Anchor.Json.{Finding}
use claude_code_reviewer.Db.Tables.{Db}
use claude_code_reviewer.Db.Notices.{notice_seen, notice_once}
use claude_code_reviewer.Slack.{Slack, dm_owner}
use claude_code_reviewer.Effects.{Answer, M, pure, gets, modify, store_get, ◌>>=◌}
use claude_code_reviewer.Effects.Hub.{Hub}

-- The flags of the process.
pub record Mode : Type 0 where
  pub dry_run : Bool
  pub no_publish : Bool
  pub model : Option String

-- `_quiet`
unfoldable pub is_quiet : Mode → Bool
is_quiet m = m.dry_run || m.no_publish

-- `_pass_state`: the state of the row and its `hold_reason`.
unfoldable pub pass_state : Mode → State → Option String → State × Option String
pass_state m state reason =
    if m.no_publish
    then (State.failed, some "--no-publish: nothing was posted")
    else (state, reason)

-- What the prompt of a review is made of.
pub record Prompt : Type 0 where
  pub author : String
  pub ci : CheckSummary
  pub threads : List Thread
  pub history : String

-- `ReviewRun`, its dollars in millionths and its seconds in thousandths.
pub record ReviewRun : Type 0 where
  pub ok : Bool
  pub blocks : Option Blocks
  pub text : String
  pub cost_usd : Option ℕ
  pub tokens_in : Option ℕ
  pub tokens_out : Option ℕ
  pub duration_s : ℕ
  pub transcript : Option String
  pub error : Option String

-- `Outcome`
pub record Outcome : Type 0 where
  pub repo : String
  pub pr : ℕ
  pub action : String
  pub detail : String

-- What a process stands on. `name` is the byline; `time` and `clock` read the clock after so many
-- calls; `digest` is that of `choose_model`; `parse_findings` reads the INLINE block; `run` and
-- `run_threads` are the container in its two modes.
pub record Process : Type 0 where
  pub name : String
  pub mode : Mode
  pub cfg : Config
  pub props_url : String
  pub slack : Slack
  pub hub : Hub
  pub time : ℕ → ℕ
  pub clock : ℕ → Clock
  pub digest : String → ℕ
  pub parse_findings : String → List Finding
  pub run : RepoConfig → PrMeta → Prompt → Choice → ℕ → Answer ReviewRun
  pub run_threads : RepoConfig → PrMeta → List Thread → ℕ → Answer ReviewRun

-- A change of the store that reads the clock.
unfoldable pub stamp : Process → (ℕ → Db → Db) → M (Unit {0})
stamp p f = modify λ w. record w { db = f (p.time w.calls) w.db }

module _ (p : Process) where
  abbrev pub tell_if : Bool → String → M (Unit {0})
  tell_if says text = if says then dm_owner p.slack text else pure tt

  -- `_dm_owner_once`; a quiet run spends no key.
  unfoldable pub dm_owner_once : String → String → M (Unit {0})
  dm_owner_once key text =
      if is_quiet p.mode
      then (do seen ← gets (λ w. notice_seen w.db key); tell_if (not seen) text)
      else (do first ← store_get (notice_once key); tell_if first text)

-- `candidates`: the queue, and the reviewer's own pull requests that are not in it.
unfoldable pub candidates : RepoConfig → List ℕ → List ℕ → List ℕ
candidates repo queue own =
    if repo.self_review then queue ++ filter (λ p. not (contains queue p)) own else queue
