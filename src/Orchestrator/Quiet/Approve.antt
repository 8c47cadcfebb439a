-- ===== src/Orchestrator/Quiet/Approve.antt =====
-- What is told of a review and what an `ok` does, by a process that publishes nothing.
use claude_code_reviewer.Prelude.{ℕ, String, Bool, true, false, Option, none, some, List, ◌≡◌}
use claude_code_reviewer.Config.{RepoConfig}
use claude_code_reviewer.Github.{PrMeta}
use claude_code_reviewer.Github.Reads.Keeps.{reads_rules}
use claude_code_reviewer.Db.Tables.{Verdict}
use claude_code_reviewer.Anchor.Json.{Finding}
use claude_code_reviewer.Effects.{World, M}
use claude_code_reviewer.Effects.Keeps.{Keeps, Uncounted, keeps_rules}
use claude_code_reviewer.Orchestrator.Tolerance.{Tolerates}
use claude_code_reviewer.Publish.{PublishResult, spend_key, once_per}
use claude_code_reviewer.Publish.Dry.{dry_rules}
use claude_code_reviewer.Orchestrator.Tick.{Process, is_quiet}
use claude_code_reviewer.Orchestrator.Notify.{
  tell_props, gave_up, tell_unmapped, dm_pr_author, to_channel, notify,
}
use claude_code_reviewer.Orchestrator.Approve.{
  dismiss_node, dismiss_if_vetoed, retract_rejection, asked_before, started_on, ci_already_started,
  ask_ci, request_build, announce_approval,
}
use claude_code_reviewer.Orchestrator.Quiet.{slack_rules, Keeps-dm_owner_once, Keeps-store_get}

-- A process that publishes nothing, whose Slack only logs.
module _ (p : Process) (n : p.mode.no_publish ≡ true) (d : p.mode.dry_run ≡ false)
    (q : is_quiet p.mode ≡ true) (e : p.slack.dry_run ≡ true) {P : World → Type 0} ⦃u : Uncounted P⦄
    (t : Tolerates p P) where
  pub Keeps-tell_props : (meta : PrMeta) (status : String) → Keeps P (tell_props p meta status)
  unfolding tell_props
  Keeps-tell_props meta status = rw q (search keeps_rules)

  pub Keeps-gave_up :
      (repo : RepoConfig) (meta : PrMeta) (detail told : String)
      → Keeps P (gave_up p repo meta detail told)
  unfolding gave_up
  Keeps-gave_up repo meta detail told = search (slack_rules, Keeps-tell_props)

  Keeps-spend_key : (key : String) (r : PublishResult) → Keeps P (spend_key key r)
  unfolding spend_key
  Keeps-spend_key key r = search (keeps_rules, Keeps-store_get, t.notices)

  pub Keeps-once_per :
      (key : String) (m : M PublishResult) (quiet : Bool)
      → Keeps P m
      → Keeps P (once_per key m quiet)
  unfolding once_per
  Keeps-once_per key m quiet k = search (keeps_rules, Keeps-spend_key)

  Keeps-tell_unmapped : (meta : PrMeta) (state : String) → Keeps P (tell_unmapped p meta state)
  unfolding tell_unmapped
  Keeps-tell_unmapped meta state = search (slack_rules, Keeps-store_get, t.notices)

  Keeps-dm_pr_author : (meta : PrMeta) (text : String) → Keeps P (dm_pr_author p meta text)
  unfolding dm_pr_author
  Keeps-dm_pr_author meta text = search (slack_rules, Keeps-tell_unmapped)

  Keeps-to_channel : (channel : Option String) (text : String) → Keeps P (to_channel p channel text)
  unfolding to_channel
  Keeps-to_channel none text = search keeps_rules
  Keeps-to_channel (some channel) text = search slack_rules

  pub Keeps-notify :
      (repo : RepoConfig) (meta : PrMeta) (verdict : Verdict) (findings : List Finding)
      → Keeps P (notify p repo meta verdict findings)
  unfolding notify
  Keeps-notify repo meta verdict findings =
      search (keeps_rules, Keeps-to_channel, Keeps-dm_pr_author)

  Keeps-dismiss_node : (o : Option String) → Keeps P (dismiss_node p o)
  unfolding dismiss_node
  Keeps-dismiss_node none = search keeps_rules
  Keeps-dismiss_node (some node_id) = search (keeps_rules, dry_rules)

  Keeps-dismiss_if_vetoed : (repo : RepoConfig) (pr : ℕ) → Keeps P (dismiss_if_vetoed p repo pr)
  unfolding dismiss_if_vetoed
  Keeps-dismiss_if_vetoed repo pr = search (keeps_rules, reads_rules, Keeps-dismiss_node)

  pub Keeps-retract_rejection :
      (repo : RepoConfig) (meta : PrMeta) → Keeps P (retract_rejection p repo meta)
  unfolding retract_rejection
  Keeps-retract_rejection repo meta =
      search (keeps_rules, Keeps-dismiss_if_vetoed, Keeps-dm_owner_once)

  Keeps-asked_before : (repo : RepoConfig) (meta : PrMeta) → Keeps P (asked_before p repo meta)
  unfolding asked_before
  Keeps-asked_before repo meta = search (keeps_rules, reads_rules)

  Keeps-started_on :
      (repo : RepoConfig) (meta : PrMeta) (fresh : Option PrMeta)
      → Keeps P (started_on p repo meta fresh)
  unfolding started_on
  Keeps-started_on repo meta none = search keeps_rules
  Keeps-started_on repo meta (some fresh) = search (keeps_rules, Keeps-asked_before)

  Keeps-ci_already_started :
      (repo : RepoConfig) (meta : PrMeta) → Keeps P (ci_already_started p repo meta)
  unfolding ci_already_started
  Keeps-ci_already_started repo meta = search (keeps_rules, reads_rules, Keeps-started_on)

  Keeps-ask_ci :
      (repo : RepoConfig) (meta : PrMeta) (o : Option String) → Keeps P (ask_ci p repo meta o)
  unfolding ask_ci
  Keeps-ask_ci repo meta (some started) = search keeps_rules
  Keeps-ask_ci repo meta none = search (slack_rules, dry_rules, Keeps-once_per)

  pub Keeps-request_build :
      (repo : RepoConfig) (meta : PrMeta) → Keeps P (request_build p repo meta)
  unfolding request_build
  Keeps-request_build repo meta = search (keeps_rules, Keeps-ci_already_started, Keeps-ask_ci)

  pub Keeps-announce_approval :
      (repo : RepoConfig) (meta : PrMeta) (ci : String) → Keeps P (announce_approval p repo meta ci)
  unfolding announce_approval
  Keeps-announce_approval repo meta ci =
      search (slack_rules, dry_rules, Keeps-once_per, Keeps-to_channel, Keeps-dm_pr_author) depth 9
