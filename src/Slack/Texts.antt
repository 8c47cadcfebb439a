-- ===== src/Slack/Texts.antt =====
-- The texts of robbie/slack.py.
use claude_code_reviewer.Prelude.{
  ℕ, String, ◌<>◌, ◌∷◌, [], ◌==◌, nat_eq, string_eq, cat, str, take_chars, if◌then◌else◌,
}
use claude_code_reviewer.Db.Tables.{Verdict, needs_work}

-- `_things`
abbrev things : ℕ → String
things n = if n == 1 then "thing" else "things"

abbrev some_things : ℕ → String → String → String
some_things n before after =
    if n == 0 then "" else cat (before ∷ str n ∷ " " ∷ things n ∷ after ∷ [])

unfoldable pub verdict_phrase : Verdict → ℕ → ℕ → String
unfolding str
verdict_phrase needs_work blocking should_fix =
    "*changes requested*" <> some_things blocking " — " " to fix before this can merge"
verdict_phrase _ blocking should_fix =
    "*reviewed, nothing blocking*" <> some_things should_fix " — but " " should be fixed"

-- `<{url}|*#{pr}*> {title[:70]}`
abbrev link : ℕ → String → String → String
link pr title url = cat ("<" ∷ url ∷ "|*#" ∷ str pr ∷ "*> " ∷ take_chars 70 title ∷ [])

unfoldable pub channel_note : ℕ → String → String → String → String → String
unfolding str take_chars
channel_note pr title url author phrase = cat (
    "🔍 "
    ∷ link pr title url
    ∷ " — "
    ∷ phrase
    ∷ ". Over to "
    ∷ author
    ∷ ", findings are on the PR."
    ∷ [])

unfoldable pub approved_note : ℕ → String → String → String → String
unfolding str take_chars
approved_note pr title url ci =
    cat ("✅ " ∷ link pr title url ∷ " — nothing to fix, " ∷ ci ∷ "." ∷ [])

unfoldable pub approved_channel_note : String → ℕ → String → String → String → String
unfolding str take_chars
approved_channel_note name pr title url author = cat (
    "✅ "
    ∷ link pr title url
    ∷ " by "
    ∷ author
    ∷ " — *"
    ∷ name
    ∷ " approved it for human review*, nothing blocking. Over to the reviewers."
    ∷ [])

unfoldable pub author_note : ℕ → String → String → String → String
unfolding str take_chars
author_note pr title url phrase = cat (
    "🔍 "
    ∷ link pr title url
    ∷ " — my pre-review is done: "
    ∷ phrase
    ∷ ". The findings are on the PR. 🙏"
    ∷ [])

unfoldable pub approved_author_note : ℕ → String → String → String
unfolding str take_chars
approved_author_note pr title url = cat (
    "✅ "
    ∷ link pr title url
    ∷ " — my pre-review is done: nothing blocking. It's approved for human review, so it's over to a reviewer now. 🙏"
    ∷ [])

unfoldable pub unmapped_note : String → String → String
unmapped_note login users_file = cat (
    "I reviewed a PR by *" ∷ login
    ∷ "* and posted the findings, but I have no Slack id for them so they got no DM. Add a line to `"
    ∷ users_file ∷ "` (`" ∷ login
    ∷ "` + tab + their Slack member id) and I'll write to them from the next one on." ∷ [])
