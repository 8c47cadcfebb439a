-- ===== src/Tests/Turns.antt =====
-- A turn through a tick at concrete inputs.
use claude_code_reviewer.Prelude.{
  ℕ, String, true, false, not, ◌&&◌, ◌||◌, none, some, [], ◌∷◌, ◌≡◌, refl, strip,
}
use claude_code_reviewer.Github.{PrThreads, has_label}
use claude_code_reviewer.Github.Reads.{pr_meta, found_meta, to_meta, last_review_request, last_line}
use claude_code_reviewer.Gates.{Decision, decide, skip, hold, label_hold, done_label, dedup_key}
use claude_code_reviewer.Config.{brake_labels}
use claude_code_reviewer.Config.Arms.{fallback_for}
use claude_code_reviewer.Db.Notices.{notice_seen, notice_once}
use claude_code_reviewer.Db.Reviews.{sha_was_judged}
use claude_code_reviewer.Slack.{Slack}
use claude_code_reviewer.Effects.{ok, World, M, pure, gets, ask, catch, modify, store_get, ◌>>=◌}
use claude_code_reviewer.Effects.Hub.{Hub, PrView}
use claude_code_reviewer.Publish.{PublishResult, result, once_per, spend_key}
use claude_code_reviewer.Orchestrator.Tick.{Mode, Process, ReviewRun, is_quiet, stamp}
use claude_code_reviewer.Orchestrator.Gate.{gate, gated}
use claude_code_reviewer.Orchestrator.Turn.{handle}
use claude_code_reviewer.Orchestrator.Act.{act_hold, tell, record_if, outcome}
use claude_code_reviewer.Orchestrator.Admit.{admit, meter, choice_for, is_named}
use claude_code_reviewer.Orchestrator.Untouched.{handle_quiet, handle_dry, handle_unjudged}
use claude_code_reviewer.Orchestrator.Once.{once_per_again, gate-act_hold}
use claude_code_reviewer.Orchestrator.Arm.{covers, admit_lem}
use claude_code_reviewer.Tests.Data.{page_pr, shop, config, noon, store, checks}

abbrev mode : Mode
mode = record { dry_run = false; no_publish = false; model = none }

abbrev page_view : PrView
page_view = record {
  number = 7;
  title = some "Add a page";
  url = some "https://github.com/acme/shop/pull/7";
  author = some "ann";
  head_ref_oid = some "abc";
  changed_files = some 2;
  labels = "robbie" ∷ [];
  status_check_rollup = some checks;
  base_ref_name = some "main";
  state = some "OPEN";
}

abbrev no_threads : PrThreads
no_threads = record { state = "OPEN"; threads = [] }

abbrev hub : Hub
hub = record {
  pr_view = λ with_checks repo pr n. ok (some page_view);
  statuses = λ repo sha n. ok none;
  timeline = λ repo pr reviewer n. ok "t";
  threads = λ repo pr reviewer n. ok no_threads;
  files = λ repo pr n. ok [];
  labels = λ repo pr n. ok none;
  opinionated = λ repo pr n. ok [];
  commit_date = λ repo sha n. ok "";
  comments_since = λ repo pr since n. ok none;
  labeled = λ repo label n. ok none;
  changes_requested = λ repo reviewer label n. ok [];
  login = λ n. ok "robbie";
  takes = λ n call. (ok "https://github.com/acme/shop/pull/7#c1", true);
}

abbrev slack : Slack
slack = record {
  owner_id = "U1";
  users_file = "users.tsv";
  users = none;
  approved_ids = [];
  dry_run = true;
  relays = none;
}

abbrev run : ReviewRun
run = record {
  ok = false;
  blocks = none;
  text = "";
  cost_usd = some 100000;
  tokens_in = none;
  tokens_out = none;
  duration_s = 60000;
  transcript = none;
  error = some "timed out";
}

abbrev loud : Process
loud = record {
  name = "robbie";
  mode = mode;
  cfg = config;
  props_url = "";
  slack = slack;
  hub = hub;
  time = λ n. 6000;
  clock = λ n. noon;
  digest = λ key. 4;
  parse_findings = λ raw. [];
  run = λ repo meta prompt choice n. ok run;
  run_threads = λ repo meta threads n. ok run;
}

abbrev pub dry : Process
dry = record loud { mode = record mode { dry_run = true } }

abbrev unposted : Process
unposted = record loud { mode = record mode { no_publish = true } }

abbrev pub world : World
world = record {
  db = store;
  calls = 0;
  writes = [];
  messages = [];
  cached = [];
  self_login = none;
  inflight = 0;
}

abbrev pub process : Process
process = loud

handle_quiet_example :
    ((handle unposted shop 7 world).1.writes ≡ [])
    × ((handle unposted shop 7 world).1.messages ≡ [])
unfolding is_quiet
handle_quiet_example = handle_quiet unposted shop 7 world refl refl

handle_dry_example : (handle dry shop 7 world).1.db ≡ store
handle_dry_example = handle_dry dry shop 7 world refl refl

handle_unjudged_example :
    sha_was_judged (handle unposted shop 7 world).1.db "acme/shop" 9 "eee" ≡ false
unfolding sha_was_judged
handle_unjudged_example = handle_unjudged unposted shop 7 world "acme/shop" "eee" 9 refl refl refl

abbrev post : M PublishResult
post = pure (result true "posted")

abbrev after : World
after = record world { db = (notice_once "k" store).1 }

once_per_again_example : once_per "k" post false after ≡ (ok none, after)
unfolding once_per spend_key notice_seen notice_once ◌>>=◌ gets pure store_get
once_per_again_example =
    once_per_again "k" post post false world after after (result true "posted") refl refl refl

abbrev no_files : Decision
no_files = decide hold "changes no files"

abbrev held_key : String
held_key = dedup_key "acme/shop" 7 "abc" "t"

abbrev held : World
held = (act_hold loud shop page_pr held_key "t" no_files world).1

abbrev between : World
between = (pr_meta hub "acme/shop" 7 held).1

abbrev asked : World
asked = (last_review_request hub "acme/shop" 7 "robbie" between).1

gate-act_hold_example : gate loud shop 7 held ≡ (
  ok (gated page_pr held_key "t" (decide skip "already judged at this commit and request")),
  asked,
)
unfolding is_quiet label_hold done_label has_label brake_labels act_hold tell record_if stamp modify
    pr_meta catch ask found_meta to_meta last_review_request last_line ◌>>=◌ pure strip
gate-act_hold_example =
    gate-act_hold loud shop 7 page_pr page_pr "t" no_files world held between asked
      (outcome shop page_pr "hold" "changes no files") refl refl refl refl refl refl refl refl

abbrev digest : String → ℕ
digest key = 4

admit_lem_example :
    ((admit digest noon mode config store 0 "k").1
      ≡ meter noon config store 0 (admit digest noon mode config store 0 "k").0)
    × ((admit digest noon mode config store 0 "k").1.allowed ≡ (
        (meter noon config store 0 (choice_for digest mode config "k")).allowed
        || (not (is_named mode)
            && covers noon config store 0
                (fallback_for config.review_models (choice_for digest mode config "k")))))
admit_lem_example = admit_lem digest noon mode config store 0 "k"
