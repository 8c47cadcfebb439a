-- ===== src/Orchestrator/Untouched.antt =====
-- What a quiet turn leaves as it was.
use claude_code_reviewer.Prelude.{
  ℕ, String, true, false, List, ◌≡◌, refl, arith, Bool-cases, inl, inr,
}
use claude_code_reviewer.Config.{RepoConfig}
use claude_code_reviewer.Db.Tables.{Db}
use claude_code_reviewer.Db.Notices.{notice_once}
use claude_code_reviewer.Db.Money.{record_spend}
use claude_code_reviewer.Db.Reviews.{sha_was_judged}
use claude_code_reviewer.Db.Reviews.Unjudged.{
  Unjudged, Unjudged-settle_done_row, Unjudged-finish_review_row, Unjudged-start_review_row,
}
use claude_code_reviewer.Effects.{World, Write, Message}
use claude_code_reviewer.Effects.Silent.{Silent, Silent_uncounted}
use claude_code_reviewer.Effects.Stored.{OnDb, OnDb_uncounted}
use claude_code_reviewer.Orchestrator.Tick.{Process, is_quiet}
use claude_code_reviewer.Orchestrator.Gate.{keep_threads}
use claude_code_reviewer.Orchestrator.Slot.{enter_slot, leave_slot}
use claude_code_reviewer.Orchestrator.Deliver.{keep_login}
use claude_code_reviewer.Orchestrator.Review.{drop_threads}
use claude_code_reviewer.Orchestrator.Tolerance.{Tolerates}
use claude_code_reviewer.Orchestrator.Turn.{handle}
use claude_code_reviewer.Orchestrator.Quiet.Review.{Keeps-handle}

-- What was sent does not depend on the store and on what the process remembers.
Silent-tolerated : (p : Process) (ws : List Write) (ms : List Message) → Tolerates p (Silent ws ms)
unfolding keep_threads drop_threads keep_login enter_slot leave_slot
Silent-tolerated p ws ms = record {
  keeps_threads = λ repo pr ts w h. record { writes = h.writes; messages = h.messages };
  settles = λ d repo pr w h. record { writes = h.writes; messages = h.messages };
  drops = λ d repo pr w h. record { writes = h.writes; messages = h.messages };
  logs_in = λ d login w h. record { writes = h.writes; messages = h.messages };
  enters = λ d w h. record { writes = h.writes; messages = h.messages };
  leaves = λ d w h. record { writes = h.writes; messages = h.messages };
  notices = λ d key w h. record { writes = h.writes; messages = h.messages };
  starts =
      λ d now key repo pr sha requested_at w h. record { writes = h.writes; messages = h.messages };
  spends =
      λ d now repo pr kind cost duration w h. record { writes = h.writes; messages = h.messages };
  fails = λ d now key g w h. record { writes = h.writes; messages = h.messages };
}

-- The whole turn of a pull request, the review and its delivery included, changes nothing on
-- GitHub and sends no message, when the run is a dry one or publishes nothing and its Slack only
-- logs, whatever GitHub and the container answer and wherever an exception ends it.
pub handle_quiet :
    (p : Process) (repo : RepoConfig) (pr : ℕ) (w : World)
    → is_quiet p.mode ≡ true
    → p.slack.dry_run ≡ true
    → ((handle p repo pr w).1.writes ≡ w.writes) × ((handle p repo pr w).1.messages ≡ w.messages)
handle_quiet p repo pr w q e =
    let t = Silent-tolerated p w.writes w.messages in
    let kept = (Keeps-handle p q e t repo pr).at w (record { writes = refl; messages = refl }) in
    (kept.writes, kept.messages)

is_dry : (p : Process) → p.mode.dry_run ≡ true → is_quiet p.mode ≡ true
unfolding is_quiet
is_dry p h = ground arith

abbrev SameDb : Db → World → Type 0
SameDb db = OnDb (λ now. now ≡ db)

SameDb-tolerated : (p : Process) (db : Db) → p.mode.dry_run ≡ true → Tolerates p (SameDb db)
unfolding keep_threads drop_threads keep_login enter_slot leave_slot
SameDb-tolerated p db h = record {
  keeps_threads = λ repo pr ts w k. record { on = k.on };
  settles = λ d. ground arith;
  drops = λ d repo pr w k. record { on = k.on };
  logs_in = λ d login w k. record { on = k.on };
  enters = λ d w k. record { on = k.on };
  leaves = λ d w k. record { on = k.on };
  notices = λ d. ground arith;
  starts = λ d. ground arith;
  spends = λ d. ground arith;
  fails = λ d. ground arith;
}

-- On a dry run the whole turn of a pull request leaves the store as it was, whatever GitHub
-- answers or refuses, where its Slack only logs.
pub handle_dry :
    (p : Process) (repo : RepoConfig) (pr : ℕ) (w : World)
    → p.mode.dry_run ≡ true
    → p.slack.dry_run ≡ true
    → (handle p repo pr w).1.db ≡ w.db
handle_dry p repo pr w h e =
    ((Keeps-handle p (is_dry p h) e (SameDb-tolerated p w.db h) repo pr).at w
      (record { on = refl })).on

posts_nothing : (p : Process) → p.mode.no_publish ≡ true → is_quiet p.mode ≡ true
unfolding is_quiet
posts_nothing p h = ground arith

Unjudged-notice_once :
    (old : Db) (key : String) (db : Db) → Unjudged old db → Unjudged old (notice_once key db).1
unfolding notice_once sha_was_judged
Unjudged-notice_once old key db h = record {
  judged_before = λ repo pr sha k. h.judged_before repo pr sha (ground arith);
}

Unjudged-tolerated : (p : Process) (old : Db) → Tolerates p (OnDb (Unjudged old))
unfolding keep_threads drop_threads keep_login enter_slot leave_slot record_spend sha_was_judged
Unjudged-tolerated p old = record {
  keeps_threads = λ repo pr ts w k. record { on = k.on };
  settles = λ d repo pr w k. record {
    on = record {
      judged_before = λ repo' pr' sha j.
          k.on.judged_before repo' pr' sha (Unjudged-settle_done_row repo pr repo' pr' sha w.db j);
    };
  };
  drops = λ d repo pr w k. record { on = k.on };
  logs_in = λ d login w k. record { on = k.on };
  enters = λ d w k. record { on = k.on };
  leaves = λ d w k. record { on = k.on };
  notices = λ d key w k. record { on = Unjudged-notice_once old key w.db k.on };
  starts = λ d now key repo pr sha requested_at w k. record {
    on = record {
      judged_before = λ repo' pr' sha' j.
          k.on.judged_before repo' pr' sha'
            (Unjudged-start_review_row now key repo pr sha requested_at repo' pr' sha' w.db j);
    };
  };
  spends = λ d now repo pr kind cost duration w k. record {
    on = record { judged_before = λ repo' pr' sha' j. k.on.judged_before repo' pr' sha' j };
  };
  fails = λ d now key g w k. record {
    on = record {
      judged_before = λ repo pr sha j.
          k.on.judged_before repo pr sha (Unjudged-finish_review_row now key g repo pr sha w.db j);
    };
  };
}

-- A run that publishes nothing never makes a commit count as judged: one that does not count as
-- judged before the turn of a pull request does not after it either, whatever the review said and
-- however it ended, where the Slack of the run only logs.
pub handle_unjudged :
    (p : Process) (repo : RepoConfig) (pr : ℕ) (w : World) (slug sha : String) (n : ℕ)
    → p.mode.no_publish ≡ true
    → p.slack.dry_run ≡ true
    → sha_was_judged w.db slug n sha ≡ false
    → sha_was_judged (handle p repo pr w).1.db slug n sha ≡ false
handle_unjudged p repo pr w slug sha n h e j =
    let start : OnDb (Unjudged w.db) w = record {
      on = record { judged_before = λ repo' pr' sha' k. k };
    } in
    let kept =
      (Keeps-handle p (posts_nothing p h) e (Unjudged-tolerated p w.db) repo pr).at w start in
    elim (Bool-cases (sha_was_judged (handle p repo pr w).1.db slug n sha)) [
      | inl y ↦ ground (arith, kept.on.judged_before slug n sha y)
      | inr y ↦ y
    ]
