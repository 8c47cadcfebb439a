-- ===== src/Triage.antt =====
-- robbie/triage.py: the verdict that an issue form settles by itself.
pub mod Form
pub mod Money
pub mod Prompt
pub mod Sentry
pub mod Loops
pub mod Settled
use mathlib.Core.Option
use claude_code_reviewer.Prelude.{
  String, ◌<>◌, Bool, false, not, ◌||◌, Option, none, some, List, [], ◌∷◌, ◌==◌, string_eq,
  contains, is_empty, if◌then◌else◌,
}

-- A `Mapping` in insertion order.
abbrev pub Mapping : Type 0 → Type 0
Mapping V = List (String × V)

-- `m.get(key)`
unfoldable pub get {ℓ} : {V : Type ℓ} → List (String × V) → String → Option V
get [] key = none
get ((k, v) ∷ m) key = if k == key then some v else get m key

-- `answers.get(field, "")`
unfoldable pub answer : Mapping String → String → String
unfolding get
answer answers field = elim (get answers field) [ none ↦ "" | some v ↦ v ]

pub record Rules : Type 0 where
  pub require : Mapping (List String)
  pub needs : List String
  pub block_if : Mapping (List String)
  pub ask_if : Mapping (List String)

-- `Rules.__bool__`
unfoldable pub has_rules : Rules → Bool
has_rules r = not (is_empty r.require) || not (is_empty r.needs) || not (is_empty r.block_if)

pub data Action : Type 0 where
  attempt ask assign : Action

pub record Verdict : Type 0 where
  pub action : Action
  pub reason : String

abbrev pub said : Action → String → String → Verdict
said a field value = record { action = a; reason = field <> ": " <> value }

-- `value or "unanswered"`
unfoldable pub or_unanswered : String → String
or_unanswered value = if value == "" then "unanswered" else value

-- `rules.ask_if.get(field, ())`
unfoldable pub asks_if : Rules → String → String → Bool
unfolding get
asks_if rules field value = elim (get rules.ask_if field) [
  | none ↦ false
  | some listed ↦ contains listed value
]

-- What one loop leaves: an early return, or the pending question.
pub data Loop : Type 0 where
  stop : Verdict → Loop
  go_on : Option Verdict → Loop

-- `ask = ask or Verdict(ASK, …)`
abbrev pub or_ask : Option Verdict → Verdict → Option Verdict
or_ask none v = some v
or_ask (some old) v = some old

-- The loop over `rules.require`.
unfoldable pub require_loop : Rules → Mapping String → Mapping (List String) → Option Verdict → Loop
require_loop rules answers [] pending = go_on pending
require_loop rules answers ((field, allowed) ∷ rest) pending =
    let value = answer answers field in
    let skip = require_loop rules answers rest pending in
    let note =
      require_loop rules answers rest (or_ask pending (said ask field (or_unanswered value))) in
    if contains allowed value
    then skip
    else if asks_if rules field value
    then note
    else stop (said assign field (or_unanswered value))

-- The loop over `rules.needs`.
unfoldable pub needs_loop : Mapping String → List String → Option Verdict
needs_loop answers [] = none
needs_loop answers (field ∷ rest) =
    let later = needs_loop answers rest in
    if answer answers field == "" then some (said assign field "unanswered") else later

-- The loop over `rules.block_if`; `some none` is the `KeyError` of `answers[field]`, raised when a
-- blocked answer is the empty one of a field that the form lacks.
unfoldable pub block_loop : Mapping String → Mapping (List String) → Option (Option Verdict)
block_loop answers [] = none
block_loop answers ((field, blocked) ∷ rest) =
    let later = block_loop answers rest in
    if contains blocked (answer answers field)
    then some (Option.map (said assign field) (get answers field))
    else later

-- The returns after the loop over `rules.require`, first match, by what the two later loops find.
unfoldable pub settle : Option Verdict → Option (Option Verdict) → Option Verdict → Option Verdict
settle (some v) blocked pending = some v
settle none (some v) pending = v
settle none none (some v) = some v
settle none none none = some (record { action = attempt; reason = "no answer forbids an attempt" })

unfoldable pub after_require : Mapping String → Rules → Bool → Loop → Option Verdict
after_require answers rules sentry (stop v) = some v
after_require answers rules sentry (go_on pending) =
    settle (needs_loop answers (if sentry then [] else rules.needs))
      (block_loop answers rules.block_if) pending

-- `none` is the `KeyError`.
unfoldable pub verdict : Mapping String → Rules → Bool → Option Verdict
verdict answers rules sentry =
    if has_rules rules
    then after_require answers rules sentry (require_loop rules answers rules.require none)
    else some (record { action = assign; reason = "no triage rules configured" })
