-- ===== src/Slack/Dry.antt =====
-- A Slack that only logs keeps everything.
use claude_code_reviewer.Prelude.{String, true, Option, none, some, List, [], ◌∷◌, ◌≡◌}
use claude_code_reviewer.Effects.{World}
use claude_code_reviewer.Effects.Keeps.{Keeps, Keeps-bind, keeps_rules}
use claude_code_reviewer.Slack.{
  Slack, dm_owner, post_to, post_each, dm_reviewers, to_member, dm_author,
}

module _ (s : Slack) (e : s.dry_run ≡ true) {P : World → Type 0} where
  pub Keeps-post_to : (channel text : String) → Keeps P (post_to s channel text)
  unfolding post_to
  Keeps-post_to channel text = search keeps_rules

  pub Keeps-dm_owner : (text : String) → Keeps P (dm_owner s text)
  unfolding dm_owner
  Keeps-dm_owner text = search (keeps_rules, Keeps-post_to)

  Keeps-post_each : (members : List String) (text : String) → Keeps P (post_each s members text)
  unfolding post_each
  Keeps-post_each [] text = search keeps_rules
  Keeps-post_each (member ∷ rest) text =
      Keeps-bind (post_to s member text) (λ _. post_each s rest text) (Keeps-post_to member text)
        (λ _. Keeps-post_each rest text)

  pub Keeps-dm_reviewers : (text : String) → Keeps P (dm_reviewers s text)
  unfolding dm_reviewers
  Keeps-dm_reviewers text = search (keeps_rules, Keeps-dm_owner, Keeps-post_each)

  Keeps-to_member : (member : Option String) (text : String) → Keeps P (to_member s member text)
  Keeps-to_member none text = search keeps_rules
  Keeps-to_member (some member) text = search (keeps_rules, Keeps-post_to)

  pub Keeps-dm_author : (login text : String) → Keeps P (dm_author s login text)
  unfolding dm_author
  Keeps-dm_author login text = search (keeps_rules, Keeps-to_member)
