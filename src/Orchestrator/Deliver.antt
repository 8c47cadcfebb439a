-- ===== src/Orchestrator/Deliver.antt =====
-- `_deliver`: what a finished run comes to.
use claude_code_reviewer.Prelude.{
  String, ◌<>◌, Bool, true, false, not, ◌&&◌, Option, none, some, List, [], ◌∷◌, ◌==◌, string_eq,
  cat, length, take_chars, get_or, if◌then◌else◌,
}
use claude_code_reviewer.Config.{RepoConfig}
use claude_code_reviewer.Config.Arms.{Choice}
use claude_code_reviewer.Github.{PrMeta}
use claude_code_reviewer.Github.Reads.{whoami}
use claude_code_reviewer.Gates.{State}
use claude_code_reviewer.Contract.Blocks.{Blocks, publishable}
use claude_code_reviewer.Db.Tables.{Verdict, CiState}
use claude_code_reviewer.Db.Reviews.{finish_review}
use claude_code_reviewer.Db.Reviews.Columns.{Given, nothing_given}
use claude_code_reviewer.Anchor.Json.{Finding}
use claude_code_reviewer.Anchor.Render.{severity_count, summary_findings}
use claude_code_reviewer.Effects.{World, M, pure, gets, modify, catch, catch_all, ◌>>=◌, ◌>>◌}
use claude_code_reviewer.Publish.{PublishResult, once_per, posted_key, clear_needs_work}
use claude_code_reviewer.Publish.Review.{publish_review}
use claude_code_reviewer.Orchestrator.Tick.{Process, ReviewRun, Outcome, pass_state, stamp}
use claude_code_reviewer.Orchestrator.Act.{outcome}
use claude_code_reviewer.Orchestrator.Notify.{gave_up, tell_props, notify}
use claude_code_reviewer.Orchestrator.Approve.{
  titled, retract_rejection, request_build, announce_approval,
}

-- `_Unusable`
pub record Unusable : Type 0 where
  pub reason : String
  pub told : String
  pub detail : String

abbrev pub verdict_text : Verdict → String
verdict_text Verdict.needs_work = "needs-work"
verdict_text Verdict.comment = "comment"
verdict_text Verdict.ok = "ok"

abbrev is_ok_verdict : Verdict → Bool
is_ok_verdict Verdict.ok = true
is_ok_verdict _ = false

-- `_unusable`; past it the verdict is there.
pub data Usable : Type 0 where
  unusable : Unusable → Usable
  usable : Verdict → Usable

unfoldable pub usable_of : Option Verdict → Bool → Usable
usable_of none may_publish = unusable (record {
  reason = "run gave no verdict";
  told = "couldn't parse a verdict";
  detail = "no verdict";
})
usable_of (some v) may_publish =
    if not (is_ok_verdict v) && not may_publish
    then unusable (record {
      reason = "verdict without a summary body";
      told = cat ("got a " ∷ verdict_text v ∷ " verdict with no summary body" ∷ []);
      detail = "no summary body";
    })
    else usable v

-- What `once_per` came to.
pub data Delivery : Type 0 where
  delivered : Option PublishResult → Delivery
  lost : String → Delivery

-- `common`
unfoldable pub common : ReviewRun → Choice → Blocks → List Finding → Given
common run choice blocks findings = record nothing_given {
  cost_usd = run.cost_usd;
  tokens_in = run.tokens_in;
  tokens_out = run.tokens_out;
  duration_s = some run.duration_s;
  transcript = some (get_or run.transcript "");
  model = choice.model;
  findings = some (length findings);
  blocking = some (severity_count true findings);
  should_fix = some (severity_count false findings);
  summary_findings = some (summary_findings blocks.github);
}

-- `{run.transcript}`
abbrev pub transcript_text : ReviewRun → String
transcript_text run = get_or run.transcript "None"

abbrev some_login : Option String → Option String
some_login none = none
some_login (some s) = if s == "" then none else some s

unfoldable pub keep_login : String → World → World
keep_login login w = record w { self_login = some login }

module _ (p : Process) where
  -- `finish_review(key, verdict=…, **self._pass_state(state, reason), **given)`
  unfoldable pub finish : String → Option Verdict → State → Option String → Given → M (Unit {0})
  finish key verdict state reason given =
      let (s, why) = pass_state p.mode state reason in
      stamp p
        (λ now. finish_review now key s (record given { verdict = verdict; hold_reason = why }))

  unfoldable pub resolve_login : Option String → M (Option String)
  resolve_login (some login) = pure (some_login (some login))
  resolve_login none = do
    login ← catch (whoami p.hub) (λ why. pure "")
    modify (keep_login login)
    pure (some_login (some login))

  unfoldable pub token_login : M (Option String)
  token_login = do cached ← gets (λ w. w.self_login); resolve_login cached

  -- The branch of an `ok`.
  unfoldable pub deliver_ok : RepoConfig → PrMeta → String → Given → M Outcome
  deliver_ok repo meta key given = do
    clear_needs_work p.hub repo meta.number p.mode.no_publish
    retract_rejection p repo meta
    ci ← request_build p repo meta
    finish key (some Verdict.ok) State.published none (record given {
      ci_state = if p.mode.no_publish then none else some CiState.waiting;
      inline = some 0;
    })
    announce_approval p repo meta ci
    tell_props p meta "posted"
    pure (outcome repo meta "review" ("ok — " <> ci))

  -- What is left to do once `publish_review` has returned.
  unfoldable pub published :
      RepoConfig
      → PrMeta
      → String
      → Verdict
      → List Finding
      → Given
      → Option PublishResult
      → M Outcome
  published repo meta key verdict findings given none =
      pure (outcome repo meta "review" ("already published for " <> take_chars 8 meta.head_sha))
  published repo meta key verdict findings given (some r) = do
    if not r.posted then pure tt else do
      finish key (some verdict) State.published none (record given { inline = some r.inline })
      notify p repo meta verdict findings
      tell_props p meta "posted"
    pure (outcome repo meta "review" (cat (verdict_text verdict ∷ ": " ∷ r.detail ∷ [])))

  unfoldable pub post_review :
      RepoConfig
      → PrMeta
      → Verdict
      → Blocks
      → List Finding
      → Option String
      → M (Option PublishResult)
  post_review repo meta verdict blocks findings self_login =
      once_per (posted_key "review" repo meta)
        (publish_review p.hub p.name verdict repo meta blocks.github findings p.mode.no_publish
          self_login)
        p.mode.no_publish

  -- `lost` is an exception; the review is done, only its delivery failed.
  unfoldable pub after_post :
      RepoConfig
      → PrMeta
      → String
      → ReviewRun
      → Verdict
      → List Finding
      → Given
      → Delivery
      → M Outcome
  after_post repo meta key run verdict findings given (delivered r) =
      published repo meta key verdict findings given r
  after_post repo meta key run verdict findings given (lost why) =
      gave_up p repo meta ("publish: " <> why) (
        cat (
          "I couldn't publish my "
          ∷ verdict_text verdict
          ∷ " review of "
          ∷ titled meta
          ∷ ": "
          ∷ why
          ∷ ". It's ready to post by hand: "
          ∷ transcript_text run
          ∷ []))

  unfoldable pub deliver_verdict :
      RepoConfig → PrMeta → String → ReviewRun → Verdict → Blocks → List Finding → Given → M Outcome
  deliver_verdict repo meta key run verdict blocks findings given = do
    finish key (some verdict) State.published none given
    self_login ← token_login
    landed ←
        catch_all
          (do r ← post_review repo meta verdict blocks findings self_login; pure (delivered r))
          (λ why. pure (lost why))
    after_post repo meta key run verdict findings given landed

  unfoldable pub deliver_usable :
      RepoConfig → PrMeta → String → ReviewRun → Blocks → List Finding → Given → Usable → M Outcome
  deliver_usable repo meta key run blocks findings given (unusable bad) = do
    finish key blocks.verdict State.held (some bad.reason) given
    gave_up p repo meta bad.detail (
        cat (
          "I reviewed "
          ∷ titled meta
          ∷ " but "
          ∷ bad.told
          ∷ ", so I posted nothing. Transcript: "
          ∷ transcript_text run
          ∷ []))
  deliver_usable repo meta key run blocks findings given (usable Verdict.ok) =
      deliver_ok repo meta key given
  deliver_usable repo meta key run blocks findings given (usable v) =
      deliver_verdict repo meta key run v blocks findings given

  unfoldable pub deliver :
      RepoConfig → PrMeta → String → ReviewRun → Choice → Option Blocks → M Outcome
  deliver repo meta key run choice none = gave_up p repo meta "no blocks" (
      cat (
        "I ran a review of "
        ∷ titled meta
        ∷ " that parsed no blocks at all. Transcript: "
        ∷ transcript_text run
        ∷ []))
  deliver repo meta key run choice (some blocks) = do
    let findings = p.parse_findings blocks.inline
    deliver_usable repo meta key run blocks findings (common run choice blocks findings)
        (usable_of blocks.verdict (publishable blocks))
