-- ===== src/Orchestrator/Quiet.antt =====
-- The gates, and what follows from a decision, on a dry run or one that publishes nothing.

pub mod Approve
pub mod Review
use claude_code_reviewer.Prelude.{
  ℕ, String, Bool, true, false, Option, none, some, not, ◌&&◌, List, [], ◌∷◌, ◌≡◌, refl, arith,
  Bool-cases, inl, inr,
}
use claude_code_reviewer.Config.{RepoConfig}
use claude_code_reviewer.Github.{PrMeta}
use claude_code_reviewer.Github.Threads.{Thread}
use claude_code_reviewer.Github.Reads.Keeps.{reads_rules}
use claude_code_reviewer.Gates.{Decision, Action, skip, hold, ci_note, review, done_label}
use claude_code_reviewer.Db.Tables.{Db}
use claude_code_reviewer.Effects.{World, M, pure, gets, store, store_get, ◌>>=◌}
use claude_code_reviewer.Db.Notices.{notice_seen}
use claude_code_reviewer.Effects.Keeps.{Keeps, Uncounted, Keeps-modify, keeps_rules}
use claude_code_reviewer.Slack.{Slack}
use claude_code_reviewer.Slack.Dry.{
  Keeps-post_to, Keeps-dm_owner, Keeps-dm_reviewers, Keeps-dm_author,
}
use claude_code_reviewer.Publish.{PublishResult, spend_key, once_per, post_ci_note}
use claude_code_reviewer.Orchestrator.Tick.{
  Process, Outcome, is_quiet, tell_if, dm_owner_once, stamp,
}
use claude_code_reviewer.Orchestrator.Tolerance.{Tolerates}
use claude_code_reviewer.Orchestrator.Act.{tell, record_if, act_hold, act_on, act}
use claude_code_reviewer.Orchestrator.Gate.{
  gate, with_meta, with_done, with_request, with_row, with_threads, keep_threads,
}

module _ {A : Type 0} {P : World → Type 0} where
  pub Keeps-store_get :
      (f : Db → A × Db)
      → ((w : World) → P w → P (record w { db = (f w.db).1 }))
      → Keeps P (store_get f)
  unfolding store_get
  Keeps-store_get f k = record { at = k }

module _ {P : World → Type 0} where
  pub Keeps-store :
      (f : Db → Db) → ((w : World) → P w → P (record w { db = f w.db })) → Keeps P (store f)
  unfolding store
  Keeps-store f k = record { at = k }

  pub Keeps-stamp :
      (p : Process) (f : ℕ → Db → Db)
      → ((now : ℕ) (w : World) → P w → P (record w { db = f now w.db }))
      → Keeps P (stamp p f)
  unfolding stamp
  Keeps-stamp p f k = Keeps-modify _ (λ w. k (p.time w.calls) w)

  -- What does not post spends no key.
  Keeps-once_per_dry :
      (key : String) (r : PublishResult) (quiet : Bool)
      → r.posted ≡ false
      → Keeps P (once_per key (pure r) quiet)
  unfolding once_per spend_key ◌>>=◌ gets pure
  Keeps-once_per_dry key r quiet h = record {
    at = λ w k. elim (Bool-cases (not quiet && notice_seen w.db key)) [
      | inl y ↦ rw y k
      | inr y ↦ rw (y, h) k
    ];
  }

pub ruleset slack_rules =
    (keeps_rules, Keeps-post_to, Keeps-dm_owner, Keeps-dm_reviewers, Keeps-dm_author)

-- A quiet process, whose Slack only logs.
module _ (p : Process) (q : is_quiet p.mode ≡ true) (e : p.slack.dry_run ≡ true)
    {P : World → Type 0} ⦃u : Uncounted P⦄ (t : Tolerates p P) where
  pub Keeps-dm_owner_once : (key text : String) → Keeps P (dm_owner_once p key text)
  unfolding dm_owner_once
  Keeps-dm_owner_once key text = search slack_rules

  Keeps-with_threads :
      (repo : RepoConfig) (pr : ℕ) (meta : PrMeta) (key requested_at : String)
      → Keeps P (with_threads p repo pr meta key requested_at)
  unfolding with_threads
  Keeps-with_threads repo pr meta key requested_at =
      search (keeps_rules, Keeps-modify, t.keeps_threads)

  Keeps-with_row :
      (repo : RepoConfig) (pr : ℕ) (meta : PrMeta) (key requested_at : String) (o : Option Decision)
      → Keeps P (with_row p repo pr meta key requested_at o)
  unfolding with_row
  Keeps-with_row repo pr meta key requested_at none =
      Keeps-with_threads repo pr meta key requested_at
  Keeps-with_row repo pr meta key requested_at (some d) = search keeps_rules

  Keeps-with_request :
      (repo : RepoConfig) (pr : ℕ) (meta : PrMeta) (requested_at : String)
      → Keeps P (with_request p repo pr meta requested_at)
  unfolding with_request
  Keeps-with_request repo pr meta requested_at = search (keeps_rules, Keeps-with_row)

  Keeps-with_done :
      (repo : RepoConfig) (pr : ℕ) (meta : PrMeta) (o : Option String)
      → Keeps P (with_done p repo pr meta o)
  unfolding with_done
  Keeps-with_done repo pr meta none = search (keeps_rules, reads_rules, Keeps-with_request)
  Keeps-with_done repo pr meta (some done) = search (keeps_rules, Keeps-store, t.settles)

  Keeps-with_meta :
      (repo : RepoConfig) (pr : ℕ) (meta : PrMeta) (o : Option Decision)
      → Keeps P (with_meta p repo pr meta o)
  unfolding with_meta
  Keeps-with_meta repo pr meta none = Keeps-with_done repo pr meta (done_label meta repo)
  Keeps-with_meta repo pr meta (some held) = search keeps_rules

  pub Keeps-gate : (repo : RepoConfig) (pr : ℕ) → Keeps P (gate p repo pr)
  unfolding gate
  Keeps-gate repo pr = search (keeps_rules, reads_rules, Keeps-with_meta)

  Keeps-tell : (key : String) (dm : Option String) → Keeps P (tell p key dm)
  unfolding tell
  Keeps-tell key none = search keeps_rules
  Keeps-tell key (some text) = search (keeps_rules, Keeps-dm_owner_once)

  Keeps-record_if :
      (repo : RepoConfig) (meta : PrMeta) (key requested_at : String) (d : Decision)
      → Keeps P (record_if p repo meta key requested_at d)
  unfolding record_if
  Keeps-record_if repo meta key requested_at d = elim (Bool-cases d.recorded) [
    | inl y ↦ rw (y, q) (search keeps_rules)
    | inr y ↦ rw y (search keeps_rules)
  ]

  Keeps-act_hold :
      (repo : RepoConfig) (meta : PrMeta) (key requested_at : String) (d : Decision)
      → Keeps P (act_hold p repo meta key requested_at d)
  unfolding act_hold
  Keeps-act_hold repo meta key requested_at d = search (keeps_rules, Keeps-tell, Keeps-record_if)

  Keeps-act_on :
      (reviewed : M Outcome) (a : Action) (repo : RepoConfig) (meta : PrMeta)
      (key requested_at : String) (d : Decision)
      → Keeps P reviewed
      → Keeps P (act_on p reviewed a repo meta key requested_at d)
  unfolding act_on post_ci_note
  Keeps-act_on reviewed skip repo meta key requested_at d k = search keeps_rules
  Keeps-act_on reviewed hold repo meta key requested_at d k =
      Keeps-act_hold repo meta key requested_at d
  Keeps-act_on reviewed ci_note repo meta key requested_at d k =
      rw q (search (keeps_rules, Keeps-once_per_dry))
  Keeps-act_on reviewed review repo meta key requested_at d k = k

  pub Keeps-act :
      (reviewed : M Outcome) (repo : RepoConfig) (meta : PrMeta) (key requested_at : String)
      (d : Decision)
      → Keeps P reviewed
      → Keeps P (act p reviewed repo meta key requested_at d)
  unfolding act
  Keeps-act reviewed repo meta key requested_at d k =
      Keeps-act_on reviewed d.action repo meta key requested_at d k
