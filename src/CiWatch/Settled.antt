-- ===== src/CiWatch/Settled.antt =====
-- What a quiet watch leaves, and what settles an approval.
use claude_code_reviewer.Prelude.{
  String, Bool, true, Option, none, some, List, [], ◌∷◌, ◌≡◌, refl, arith,
}
use claude_code_reviewer.Config.{RepoConfig}
use claude_code_reviewer.Github.{PrMeta, CiOutcome}
use claude_code_reviewer.Github.Reads.Keeps.{reads_rules}
use claude_code_reviewer.Db.Tables.{Review, CiState}
use claude_code_reviewer.Db.Notices.{notice_once}
use claude_code_reviewer.Effects.{World, M, Write, store_get}
use claude_code_reviewer.Effects.Keeps.{Keeps, Uncounted, Keeps-bind, keeps_rules}
use claude_code_reviewer.Publish.{PublishResult, once_per, spend_key}
use claude_code_reviewer.Publish.Dry.{dry_rules}
use claude_code_reviewer.Orchestrator.Tick.{Process, is_quiet}
use claude_code_reviewer.Orchestrator.Quiet.{Keeps-store_get}
use claude_code_reviewer.CiWatch.{
  settle, report_red, Report, reported, unreachable, broken, after_report, on_outcome, note_merged,
  on_meta, on_read, watch_one, one_of, watch_rows, watch,
}

-- No row changed, and nothing was sent to GitHub.
record Unsettled (rows : List Review) (ws : List Write) (w : World) : Type 0 where
  pub rows_same : w.db.reviews ≡ rows
  pub writes_same : w.writes ≡ ws

module _ {rows : List Review} {ws : List Write} where
  instance Unsettled_uncounted : Uncounted (Unsettled rows ws)
  Unsettled_uncounted = record {
    next = λ w h. record { rows_same = h.rows_same; writes_same = h.writes_same };
  }

  Unsettled-notice_once : (key : String) → Keeps (Unsettled rows ws) (store_get (notice_once key))
  unfolding notice_once
  Unsettled-notice_once key =
      Keeps-store_get _
        λ w h. record { rows_same = ground (arith, h.rows_same); writes_same = h.writes_same }

  Unsettled-spend_key :
      (key : String) (r : PublishResult) → Keeps (Unsettled rows ws) (spend_key key r)
  unfolding spend_key
  Unsettled-spend_key key r = search (keeps_rules, Unsettled-notice_once)

  Unsettled-once_per :
      (key : String) (m : M PublishResult) (quiet : Bool)
      → Keeps (Unsettled rows ws) m
      → Keeps (Unsettled rows ws) (once_per key m quiet)
  unfolding once_per
  Unsettled-once_per key m quiet k = search (keeps_rules, Unsettled-spend_key)

module _ (p : Process) (q : is_quiet p.mode ≡ true) {rows : List Review} {ws : List Write} where
  Unsettled-settle : (key : String) (s : CiState) → Keeps (Unsettled rows ws) (settle p key s)
  unfolding settle
  Unsettled-settle key s = search keeps_rules

  Unsettled-report_red :
      (repo : RepoConfig) (meta : PrMeta) → Keeps (Unsettled rows ws) (report_red p repo meta)
  unfolding report_red
  Unsettled-report_red repo meta = search (keeps_rules, dry_rules, Unsettled-once_per)

  Unsettled-after_report :
      (row : Review) (r : Report) → Keeps (Unsettled rows ws) (after_report p row r)
  unfolding after_report
  Unsettled-after_report row unreachable = search keeps_rules
  Unsettled-after_report row (broken why) = search keeps_rules
  Unsettled-after_report row (reported none) = search (keeps_rules, Unsettled-settle)
  Unsettled-after_report row (reported (some r)) = search (keeps_rules, Unsettled-settle)

  Unsettled-on_outcome :
      (repo : RepoConfig) (row : Review) (meta : PrMeta) (o : CiOutcome)
      → Keeps (Unsettled rows ws) (on_outcome p repo row meta o)
  unfolding on_outcome
  Unsettled-on_outcome repo row meta CiOutcome.waiting = search keeps_rules
  Unsettled-on_outcome repo row meta CiOutcome.green = search (keeps_rules, Unsettled-settle)
  Unsettled-on_outcome repo row meta CiOutcome.red =
      search (keeps_rules, Unsettled-report_red, Unsettled-after_report)

  Unsettled-note_merged :
      (row : Review) (merged : Bool) → Keeps (Unsettled rows ws) (note_merged p row merged)
  Unsettled-note_merged row merged = search (keeps_rules, Unsettled-notice_once)

  Unsettled-on_meta :
      (repo : RepoConfig) (row : Review) (meta : PrMeta)
      → Keeps (Unsettled rows ws) (on_meta p repo row meta)
  unfolding on_meta
  Unsettled-on_meta repo row meta =
      search (keeps_rules, Unsettled-settle, Unsettled-note_merged, Unsettled-on_outcome) depth 9

  Unsettled-on_read :
      (repo : RepoConfig) (row : Review) (o : Option PrMeta)
      → Keeps (Unsettled rows ws) (on_read p repo row o)
  unfolding on_read
  Unsettled-on_read repo row none = search keeps_rules
  Unsettled-on_read repo row (some meta) = Unsettled-on_meta repo row meta

  Unsettled-watch_one :
      (repo : RepoConfig) (row : Review) → Keeps (Unsettled rows ws) (watch_one p repo row)
  unfolding watch_one
  Unsettled-watch_one repo row = search (keeps_rules, reads_rules, Unsettled-on_read)

  Unsettled-one_of :
      (row : Review) (o : Option RepoConfig) → Keeps (Unsettled rows ws) (one_of p row o)
  Unsettled-one_of row none = search keeps_rules
  Unsettled-one_of row (some repo) = Unsettled-watch_one repo row

  Unsettled-watch_rows : (due : List Review) → Keeps (Unsettled rows ws) (watch_rows p due)
  unfolding watch_rows
  Unsettled-watch_rows [] = search keeps_rules
  Unsettled-watch_rows (row ∷ due) =
      Keeps-bind _ _ (Unsettled-one_of row _)
        λ o. Keeps-bind _ _ (Unsettled-watch_rows due) λ outs. search keeps_rules

  Unsettled-watch : Keeps (Unsettled rows ws) (watch p)
  unfolding watch
  Unsettled-watch = search (keeps_rules, Unsettled-watch_rows) depth 9

-- A dry watch, and one that publishes nothing, settles no approval and posts no note: every row
-- of the reviews and all that was sent to GitHub stay as they were.
pub watch_quiet :
    (p : Process) (w : World)
    → is_quiet p.mode ≡ true
    → ((watch p w).1.db.reviews ≡ w.db.reviews) × ((watch p w).1.writes ≡ w.writes)
watch_quiet p w q =
    let kept = (Unsettled-watch p q).at w (record { rows_same = refl; writes_same = refl }) in
    (kept.rows_same, kept.writes_same)
