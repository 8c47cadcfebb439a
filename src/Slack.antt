-- ===== src/Slack.antt =====
-- robbie/slack.py: who a message goes to, and what it says.
pub mod Texts
pub mod Dry
use claude_code_reviewer.Prelude.{
  ℕ, String, ◌<>◌, Bool, true, false, not, ◌||◌, Option, none, some, List, [], ◌∷◌, ◌==◌, string_eq,
  strip, lstrip, lower, words, splitlines, has_prefix, after_prefix, is_empty, if◌then◌else◌,
}
use claude_code_reviewer.Effects.{World, M, pure, gets, say, ◌>>=◌, ◌>>◌, Message, relay, post}

-- `Slack`; `users` is the text of the users file, where there is one, and `relays` answers whether
-- the relay took the message that follows so many calls.
pub record Slack : Type 0 where
  pub owner_id : String
  pub users_file : String
  pub users : Option String
  pub approved_ids : List String
  pub dry_run : Bool
  pub relays : Option (String → ℕ → Bool)

-- `s.endswith(t)`
abbrev ends_with : String → String → Bool
ends_with t String.[] = String.[] == t
ends_with t (String.◌∷◌ c s) = let later = ends_with t s in (String.◌∷◌ c s == t) || later

-- The row of the users file, if it is that of the login.
unfoldable pub member_in : String → List String → Option String
member_in wanted (login ∷ member ∷ rest) = if lower login == wanted then some member else none
member_in wanted _ = none

unfoldable pub lookup_in : String → List String → Option String
unfolding strip lstrip words member_in lower
lookup_in wanted [] = none
lookup_in wanted (line ∷ rest) =
    let later = lookup_in wanted rest in
    if strip line == "" || has_prefix "#" (lstrip line)
    then later
    else elim (member_in wanted (words line)) [ none ↦ later | some member ↦ some member ]

module _ (slack : Slack) where
  -- `Slack.lookup`
  unfoldable pub lookup : String → Option String
  unfolding strip lower splitlines
  lookup login = elim slack.users [
    | none ↦ none
    | some text ↦ lookup_in (lower (strip login)) (splitlines text)
  ]

  -- `Slack.post`; dry, it only logs.
  unfoldable pub post_to : String → String → M (Unit {0})
  post_to channel text = if slack.dry_run then pure tt else say (post channel text)

  abbrev pub relayed : Option (String → ℕ → Bool) → String → M Bool
  relayed none text = pure false
  relayed (some takes) text = do say (relay text); gets (λ w. takes text w.calls)

  -- `Slack.dm_owner`
  unfoldable pub dm_owner : String → M (Unit {0})
  dm_owner text = if slack.dry_run then post_to slack.owner_id text else do
    taken ← relayed slack.relays text
    if taken then pure tt else post_to slack.owner_id text

  unfoldable pub post_each : List String → String → M (Unit {0})
  post_each [] text = pure tt
  post_each (member ∷ rest) text = do post_to member text; post_each rest text

  -- `Slack.dm_reviewers`
  unfoldable pub dm_reviewers : String → M (Unit {0})
  dm_reviewers text =
      if is_empty slack.approved_ids then dm_owner text else post_each slack.approved_ids text

  abbrev pub to_member : Option String → String → M String
  to_member none text = pure "unmapped"
  to_member (some member) text =
      if member == "" then pure "unmapped" else do post_to member text; pure "sent"

  -- `Slack.dm_author`
  unfoldable pub dm_author : String → String → M String
  unfolding after_prefix
  dm_author login text =
      if has_prefix "app/" login || ends_with "[bot]" login
      then pure "bot"
      else to_member (lookup login) text
