-- ===== src/Orchestrator/Quiet/Review.antt =====
-- The review itself, and with it the whole turn, on a dry run or one that publishes nothing.
use claude_code_reviewer.Prelude.{
  ℕ, String, true, false, Option, none, some, List, ◌≡◌, arith, Bool-cases, inl, inr,
}
use claude_code_reviewer.Config.{RepoConfig}
use claude_code_reviewer.Config.Arms.{Choice}
use claude_code_reviewer.Github.{PrMeta}
use claude_code_reviewer.Github.Threads.{Thread}
use claude_code_reviewer.Github.Reads.Keeps.{reads_rules}
use claude_code_reviewer.Gates.{State}
use claude_code_reviewer.Budget.{Verdict as SpendVerdict}
use claude_code_reviewer.Contract.Blocks.{Blocks}
use claude_code_reviewer.Db.Tables.{Verdict}
use claude_code_reviewer.Db.Reviews.Columns.{Given}
use claude_code_reviewer.Anchor.Json.{Finding}
use claude_code_reviewer.Effects.{World}
use claude_code_reviewer.Effects.Keeps.{Keeps, Uncounted, keeps_rules, Keeps-modify, Keeps-ensure}
use claude_code_reviewer.Orchestrator.Tolerance.{Tolerates}
use claude_code_reviewer.Publish.{PublishResult}
use claude_code_reviewer.Publish.Dry.{dry_rules}
use claude_code_reviewer.Orchestrator.Tick.{Process, ReviewRun, Prompt, Mode, is_quiet, pass_state}
use claude_code_reviewer.Orchestrator.Slot.{tell_key, tell_about, tell_owner, slot}
use claude_code_reviewer.Orchestrator.Deliver.{
  Usable, unusable, usable, finish, resolve_login, token_login, deliver_ok, published, post_review,
  Delivery, delivered, lost, after_post, deliver_verdict, deliver_usable, deliver,
}
use claude_code_reviewer.Orchestrator.Review.{
  fetch_threads, prior_threads, run_in_slot, record_failed, reviewed, admitted_review, review,
}
use claude_code_reviewer.Orchestrator.Quiet.Approve.{
  Keeps-tell_props, Keeps-gave_up, Keeps-notify, Keeps-retract_rejection, Keeps-request_build,
  Keeps-announce_approval, Keeps-once_per,
}
use claude_code_reviewer.Orchestrator.Turn.{handle_inner, handle}
use claude_code_reviewer.Orchestrator.Quiet.{
  slack_rules, Keeps-gate, Keeps-act, Keeps-dm_owner_once, Keeps-stamp,
}

-- A process that publishes nothing, whose Slack only logs.
module _ (p : Process) (n : p.mode.no_publish ≡ true) (d : p.mode.dry_run ≡ false)
    (q : is_quiet p.mode ≡ true) (e : p.slack.dry_run ≡ true) {P : World → Type 0} ⦃u : Uncounted P⦄
    (t : Tolerates p P) where
  Keeps-finish :
      (key : String) (v : Option Verdict) (s : State) (why : Option String) (g : Given)
      → Keeps P (finish p key v s why g)
  unfolding finish pass_state
  Keeps-finish key v s why g = rw n (search (Keeps-stamp, t.fails))

  Keeps-resolve_login : (o : Option String) → Keeps P (resolve_login p o)
  unfolding resolve_login
  Keeps-resolve_login (some login) = search keeps_rules
  Keeps-resolve_login none = search (keeps_rules, reads_rules, Keeps-modify, t.logs_in)

  Keeps-token_login : Keeps P (token_login p)
  unfolding token_login
  Keeps-token_login = search (keeps_rules, Keeps-resolve_login)

  Keeps-deliver_ok :
      (repo : RepoConfig) (meta : PrMeta) (key : String) (g : Given)
      → Keeps P (deliver_ok p repo meta key g)
  unfolding deliver_ok
  Keeps-deliver_ok repo meta key g =
      search
        (
          keeps_rules, dry_rules, Keeps-retract_rejection, Keeps-request_build, Keeps-finish,
          Keeps-announce_approval, Keeps-tell_props,
        )
        depth 12

  Keeps-published :
      (repo : RepoConfig) (meta : PrMeta) (key : String) (v : Verdict) (fs : List Finding)
      (g : Given) (o : Option PublishResult)
      → Keeps P (published p repo meta key v fs g o)
  unfolding published
  Keeps-published repo meta key v fs g none = search keeps_rules
  Keeps-published repo meta key v fs g (some r) =
      search (keeps_rules, Keeps-finish, Keeps-notify, Keeps-tell_props) depth 9

  Keeps-post_review :
      (repo : RepoConfig) (meta : PrMeta) (v : Verdict) (b : Blocks) (fs : List Finding)
      (login : Option String)
      → Keeps P (post_review p repo meta v b fs login)
  unfolding post_review
  Keeps-post_review repo meta v b fs login = search (slack_rules, dry_rules, Keeps-once_per)

  Keeps-after_post :
      (repo : RepoConfig) (meta : PrMeta) (key : String) (run : ReviewRun) (v : Verdict)
      (fs : List Finding) (g : Given) (d : Delivery)
      → Keeps P (after_post p repo meta key run v fs g d)
  unfolding after_post
  Keeps-after_post repo meta key run v fs g (delivered r) = Keeps-published repo meta key v fs g r
  Keeps-after_post repo meta key run v fs g (lost why) = search Keeps-gave_up

  Keeps-deliver_verdict :
      (repo : RepoConfig) (meta : PrMeta) (key : String) (run : ReviewRun) (v : Verdict)
      (b : Blocks) (fs : List Finding) (g : Given)
      → Keeps P (deliver_verdict p repo meta key run v b fs g)
  unfolding deliver_verdict
  Keeps-deliver_verdict repo meta key run v b fs g =
      search (keeps_rules, Keeps-finish, Keeps-token_login, Keeps-post_review, Keeps-after_post)
        depth 9

  Keeps-deliver_usable :
      (repo : RepoConfig) (meta : PrMeta) (key : String) (run : ReviewRun) (b : Blocks)
      (fs : List Finding) (g : Given) (u : Usable)
      → Keeps P (deliver_usable p repo meta key run b fs g u)
  unfolding deliver_usable
  Keeps-deliver_usable repo meta key run b fs g (unusable bad) =
      search (keeps_rules, Keeps-finish, Keeps-gave_up)
  Keeps-deliver_usable repo meta key run b fs g (usable Verdict.ok) =
      Keeps-deliver_ok repo meta key g
  Keeps-deliver_usable repo meta key run b fs g (usable Verdict.needs_work) =
      Keeps-deliver_verdict repo meta key run Verdict.needs_work b fs g
  Keeps-deliver_usable repo meta key run b fs g (usable Verdict.comment) =
      Keeps-deliver_verdict repo meta key run Verdict.comment b fs g

  Keeps-deliver :
      (repo : RepoConfig) (meta : PrMeta) (key : String) (run : ReviewRun) (c : Choice)
      (o : Option Blocks)
      → Keeps P (deliver p repo meta key run c o)
  unfolding deliver
  Keeps-deliver repo meta key run c none = search Keeps-gave_up
  Keeps-deliver repo meta key run c (some b) = search Keeps-deliver_usable

  Keeps-tell_key : (v : SpendVerdict) (key : String) → Keeps P (tell_key p v key)
  Keeps-tell_key v key = search (keeps_rules, Keeps-dm_owner_once)

  Keeps-tell_about : (v : SpendVerdict) (o : Option String) → Keeps P (tell_about p v o)
  Keeps-tell_about v none = search keeps_rules
  Keeps-tell_about v (some key) = Keeps-tell_key v key

  Keeps-tell_owner : (v : SpendVerdict) → Keeps P (tell_owner p v)
  unfolding tell_owner
  Keeps-tell_owner v = Keeps-tell_about v v.notice_key

  Keeps-slot : (key : String) → Keeps P (slot p key)
  unfolding slot
  Keeps-slot key = search (keeps_rules, Keeps-modify, t.enters, Keeps-tell_owner) depth 9

  Keeps-fetch_threads :
      (repo : RepoConfig) (meta : PrMeta) (o : Option (List Thread))
      → Keeps P (fetch_threads p repo meta o)
  Keeps-fetch_threads repo meta none = search keeps_rules
  Keeps-fetch_threads repo meta (some ts) = search keeps_rules

  Keeps-prior_threads : (repo : RepoConfig) (meta : PrMeta) → Keeps P (prior_threads p repo meta)
  unfolding prior_threads
  Keeps-prior_threads repo meta =
      search (keeps_rules, Keeps-modify, t.drops, Keeps-fetch_threads) depth 9

  Keeps-run_in_slot :
      (repo : RepoConfig) (meta : PrMeta) (key requested_at : String) (prompt : Prompt) (c : Choice)
      → Keeps P (run_in_slot p repo meta key requested_at prompt c)
  unfolding run_in_slot
  Keeps-run_in_slot repo meta key requested_at prompt c =
      search (keeps_rules, Keeps-stamp, t.starts, Keeps-tell_props)

  Keeps-record_failed :
      (repo : RepoConfig) (meta : PrMeta) (key : String) (run : ReviewRun) (c : Choice)
      → Keeps P (record_failed p repo meta key run c)
  unfolding record_failed
  Keeps-record_failed repo meta key run c = search (keeps_rules, Keeps-stamp, t.spends, t.fails)

  Keeps-reviewed :
      (repo : RepoConfig) (meta : PrMeta) (key : String) (c : Choice) (run : ReviewRun)
      → Keeps P (reviewed p repo meta key c run)
  unfolding reviewed
  Keeps-reviewed repo meta key c run =
      search (keeps_rules, Keeps-deliver, Keeps-record_failed, Keeps-gave_up)

  Keeps-admitted_review :
      (repo : RepoConfig) (meta : PrMeta) (key requested_at : String) (prompt : Prompt) (c : Choice)
      (v : SpendVerdict)
      → Keeps P (admitted_review p repo meta key requested_at prompt c v)
  unfolding admitted_review
  Keeps-admitted_review repo meta key requested_at prompt c v =
      search (keeps_rules, Keeps-ensure, Keeps-run_in_slot, t.leaves, Keeps-reviewed) depth 9

  Keeps-review_posting :
      (repo : RepoConfig) (meta : PrMeta) (key requested_at : String)
      → Keeps P (review p repo meta key requested_at)
  unfolding review
  Keeps-review_posting repo meta key requested_at =
      search (keeps_rules, Keeps-prior_threads, Keeps-slot, Keeps-admitted_review) depth 9

posts_nothing : (m : Mode) → is_quiet m ≡ true → m.dry_run ≡ false → m.no_publish ≡ true
unfolding is_quiet
posts_nothing m q h = ground arith

-- A quiet process: its review ends at once on a dry run, and else publishes nothing.
module _ (p : Process) (q : is_quiet p.mode ≡ true) (e : p.slack.dry_run ≡ true)
    {P : World → Type 0} ⦃u : Uncounted P⦄ (t : Tolerates p P) where
  dry_review :
      (repo : RepoConfig) (meta : PrMeta) (key requested_at : String)
      → p.mode.dry_run ≡ true
      → Keeps P (review p repo meta key requested_at)
  unfolding review
  dry_review repo meta key requested_at d = search keeps_rules

  Keeps-review :
      (repo : RepoConfig) (meta : PrMeta) (key requested_at : String)
      → Keeps P (review p repo meta key requested_at)
  Keeps-review repo meta key requested_at = elim (Bool-cases p.mode.dry_run) [
    | inl d ↦ dry_review repo meta key requested_at d
    | inr d ↦ Keeps-review_posting p (posts_nothing p.mode q d) d q e t repo meta key requested_at
  ]

  Keeps-handle_inner : (repo : RepoConfig) (pr : ℕ) → Keeps P (handle_inner p repo pr)
  unfolding handle_inner
  Keeps-handle_inner repo pr = search (keeps_rules, Keeps-gate, Keeps-act, Keeps-review)

  pub Keeps-handle : (repo : RepoConfig) (pr : ℕ) → Keeps P (handle p repo pr)
  unfolding handle
  Keeps-handle repo pr = search (keeps_rules, Keeps-handle_inner)
