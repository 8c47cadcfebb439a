-- ===== src/Gates.antt =====
-- robbie/gates.py: the review policy, one pure function of what was fetched.
pub mod Order
use claude_code_reviewer.Prelude.{
  ℕ, String, ◌<>◌, Bool, true, false, Option, none, some, List, [], ◌∷◌, find, is_empty, ◌==◌,
  nat_eq, ltb, cat, str, take_chars, join, if◌then◌else◌,
}
use claude_code_reviewer.Config.{RepoConfig, brake_labels}
use claude_code_reviewer.Github.{PrMeta, has_label, failing_checks}

pub data Action : Type 0 where
  review skip hold ci_note : Action

pub record Decision : Type 0 where
  pub action : Action
  pub reason : String
  pub dm : Option String
  pub recorded : Bool
  pub checks : List String

-- `Decision(action, reason)`: no message, recorded, no checks.
abbrev pub decide : Action → String → Decision
decide a reason = record { action = a; reason = reason; dm = none; recorded = true; checks = [] }

unfoldable pub label_hold : PrMeta → RepoConfig → Option Decision
unfolding brake_labels has_label
label_hold meta repo = elim (find (has_label meta) (brake_labels repo)) [
  | none ↦ none
  | some name ↦ some (record (decide hold (name <> " still on")) { recorded = false })
]

unfoldable pub done_label : PrMeta → RepoConfig → Option String
unfolding has_label
done_label meta repo = find (has_label meta) repo.done_labels

-- The states of a row of `reviews`.
pub data State : Type 0 where
  running published held failed : State

unfoldable pub is_judged : State → Bool
is_judged published = true
is_judged held = true
is_judged running = false
is_judged failed = false

unfoldable pub already_judged : Option State → Option Decision
unfolding is_judged
already_judged none = none
already_judged (some s) =
    if is_judged s then some (decide skip "already judged at this commit and request") else none

-- `f"{repo.slug}#{meta.number}"`
unfoldable pub where_is : PrMeta → RepoConfig → String
unfolding str
where_is meta repo = cat (repo.slug ∷ "#" ∷ str meta.number ∷ [])

nothing_new_why : ℕ → String
unfolding str
nothing_new_why unanswered =
    if ltb 0 unanswered
    then cat (
        str unanswered
        ∷ " of my comments there are still open with no reply — my read is they want to talk one of them through."
        ∷ [])
    else "nothing of mine is left open there either, so I can't tell what changed for them."

nothing_new_dm : PrMeta → RepoConfig → ℕ → String
unfolding nothing_new_why where_is take_chars
nothing_new_dm meta repo unanswered = cat (
    "*"
    ∷ meta.author
    ∷ "* asked for a review again on <"
    ∷ meta.url
    ∷ "|"
    ∷ where_is meta repo
    ∷ "> — "
    ∷ take_chars 70 meta.title
    ∷ " — but the head commit hasn't moved since my last pass, so there's no new code for me to judge. "
    ∷ nothing_new_why unanswered
    ∷ " Over to you."
    ∷ [])

open_threads_dm : PrMeta → RepoConfig → ℕ → String
unfolding where_is take_chars str
open_threads_dm meta repo unanswered = cat (
    "*"
    ∷ meta.author
    ∷ "* pushed to <"
    ∷ meta.url
    ∷ "|"
    ∷ where_is meta repo
    ∷ "> — "
    ∷ take_chars 70 meta.title
    ∷ " — but "
    ∷ str unanswered
    ∷ " of my review comments are still open there with no reply, fix or resolve. I'm holding my pass while the ball is in their court; it comes back on its own the moment they answer. (`robbie once --repo "
    ∷ repo.slug
    ∷ " --pr "
    ∷ str meta.number
    ∷ "` to force it.)"
    ∷ [])

-- The part of `evaluate` after gate 3.
unfoldable pub after_labels : PrMeta → RepoConfig → Bool → ℕ → Decision
unfolding nothing_new_dm open_threads_dm failing_checks str join
after_labels meta repo sha_judged unanswered =
    if meta.changed_files == 0
    then decide hold "changes no files"
    else if sha_judged
    then record (decide hold "nothing new pushed") {
      dm = some (nothing_new_dm meta repo unanswered);
    }
    else if ltb 0 unanswered
    then record (decide hold (str unanswered <> " of my comments unanswered")) {
      dm = some (open_threads_dm meta repo unanswered);
      recorded = false;
    }
    else let red = failing_checks meta.checks repo.ignore_checks in
      if is_empty red
      then decide review ""
      else record (decide ci_note (cat ("ci red (" ∷ join ", " red ∷ ")" ∷ []))) {
        recorded = false;
        checks = red;
      }

unfoldable pub evaluate : PrMeta → RepoConfig → Bool → ℕ → Decision
unfolding label_hold after_labels
evaluate meta repo sha_judged unanswered = elim (label_hold meta repo) [
  | none ↦ after_labels meta repo sha_judged unanswered
  | some stop ↦ stop
]

unfoldable pub dedup_key : String → ℕ → String → String → String
unfolding str
dedup_key repo pr head_sha requested_at =
    cat (repo ∷ ":" ∷ str pr ∷ ":" ∷ head_sha ∷ ":" ∷ requested_at ∷ [])
