-- ===== src/Budget.antt =====
-- robbie/budget.py: the spend gate, and the poller that leaves it its numbers.
pub mod Gate
pub mod Slots
use claude_code_reviewer.Prelude.{
  ℕ, suc, ◌+◌, ◌-◌, ◌*◌, String, ◌<>◌, Bool, true, false, not, ◌||◌, Option, none, some, List, [],
  ◌∷◌, ◌==◌, nat_eq, string_eq, ltb, leb, cat, str, decimal, if◌then◌else◌,
}
use claude_code_reviewer.Config.{Config, Backend, BudgetConfig, api, oauth}
use claude_code_reviewer.Config.Arms.{endpoint_models}
use claude_code_reviewer.Db.Tables.{Db, Meter}
use claude_code_reviewer.Db.Money.{read_meter, spend_since}

-- The clock as the gate reads it: milliseconds, today's midnight, and the forms of the date that
-- stand in notice keys.
pub record Clock : Type 0 where
  pub now_ms : ℕ
  pub midnight_ms : ℕ
  pub day : String
  pub hour : String
  pub minute_key : String → String

-- A float that counts in millionths: the whole number n.
abbrev pub million : ℕ
million = 1000000

abbrev pub usage_stale_s : ℕ
usage_stale_s = 900

abbrev pub plan : String
plan = "plan"

abbrev pub endpoint : String
endpoint = "endpoint"

pub data Reading : Type 0 where
  number : ℕ → String → Reading
  blind : String → Reading

abbrev number_or_zero : Option ℕ → ℕ
number_or_zero none = 0
number_or_zero (some n) = n

-- `str(row["note"])`
abbrev note_text : Option String → String
note_text none = "None"
note_text (some s) = s

-- `error or text`
abbrev error_or : Option String → String → String
error_or none text = text
error_or (some e) text = if e == "" then text else e

-- A row whose number was read at `read_at`.
stored_at : Clock → Meter → ℕ → Reading
stored_at clock m read_at =
    let age_ms = clock.now_ms - read_at in
    if leb (usage_stale_s * 1000) age_ms
    then blind (error_or m.error (cat ("last reading is " ∷ decimal 0 age_ms 60000 ∷ "m old" ∷ [])))
    else number (number_or_zero m.pct) (note_text m.note)

stored_row : Clock → Meter → Option ℕ → Reading
unfolding stored_at
stored_row clock m none = blind (error_or m.error "not polled yet")
stored_row clock m (some read_at) =
    if read_at == 0 then blind (error_or m.error "not polled yet") else stored_at clock m read_at

unfoldable pub stored : Clock → Db → String → Reading
unfolding stored_row
stored clock db name = elim (read_meter db name) [
  | none ↦ blind "not polled yet"
  | some m ↦ stored_row clock m m.read_at
]

pub record Verdict : Type 0 where
  pub allowed : Bool
  pub detail : String
  pub notice_key : Option String

abbrev pub allow : String → Option String → Verdict
allow detail key = record { allowed = true; detail = detail; notice_key = key }

abbrev pub refuse : String → String → Verdict
refuse detail key = record { allowed = false; detail = detail; notice_key = some key }

usd : ℕ → String
unfolding decimal
usd n = "$" <> decimal 2 n million

unfoldable pub check_api : Clock → Config → Db → ℕ → Verdict
unfolding usd str
check_api clock cfg db inflight =
    let spent = spend_since clock.midnight_ms (endpoint_models cfg.review_models) db in
    let limit = cfg.budget.daily_usd in
    let held = (inflight + 1) * cfg.budget.reserve_usd in
    if leb (spent + held) limit
    then allow (cat (usd spent ∷ " of " ∷ usd limit ∷ " spent today" ∷ [])) none
    else refuse
        (cat ("daily budget reached: " ∷ usd spent ∷ " of " ∷ usd limit ∷ [])
          <> (if not (inflight == 0) || not (held == 0)
              then cat (", " ∷ usd held ∷ " held for " ∷ str inflight ∷ " running + 1" ∷ [])
              else ""))
        ("budget:" <> clock.day)

-- The gate on a reading of the account's five-hour window.
unfoldable pub gate_oauth : Clock → BudgetConfig → ℕ → Reading → Verdict
unfolding decimal str
gate_oauth clock b inflight (blind why) =
    allow (cat ("usage unreadable (" ∷ why ∷ "); running unguarded" ∷ []))
      (some ("budget:unreadable:" <> clock.day))
gate_oauth clock b inflight (number pct resets_at) =
    let held = (inflight + 1) * b.reserve_pct in
    if leb (pct + held) (b.stop_pct * million)
    then allow
        (cat (
          "5h window at "
          ∷ decimal 0 pct million
          ∷ "% (+"
          ∷ decimal 0 held million
          ∷ "% held back)"
          ∷ []))
        none
    else refuse
        (cat (
          "5h window at "
          ∷ decimal 0 pct million
          ∷ "% +"
          ∷ decimal 0 held million
          ∷ "% held for "
          ∷ str inflight
          ∷ " running + 1 (cutoff "
          ∷ str b.stop_pct
          ∷ "%); resumes around "
          ∷ resets_at
          ∷ []))
        ("budget:" <> clock.minute_key resets_at)

-- The gate on a reading of the review endpoint's own limits.
unfoldable pub gate_endpoint : Clock → BudgetConfig → ℕ → Reading → Verdict
unfolding decimal str
gate_endpoint clock b inflight (blind why) =
    allow (cat ("endpoint usage unreadable (" ∷ why ∷ "); running unguarded" ∷ []))
      (some ("budget:endpoint-unreadable:" <> clock.day))
gate_endpoint clock b inflight (number pct note) =
    let held = (inflight + 1) * b.endpoint_reserve_pct in
    if leb (pct + held) (b.endpoint_stop_pct * million)
    then allow
        (cat (
          "endpoint at "
          ∷ decimal 1 pct million
          ∷ "% ("
          ∷ note
          ∷ ", +"
          ∷ decimal 0 held million
          ∷ "% held)"
          ∷ []))
        none
    else refuse
        (cat (
          "endpoint limit reached: "
          ∷ decimal 1 pct million
          ∷ "% +"
          ∷ decimal 0 held million
          ∷ "% held for "
          ∷ str inflight
          ∷ " running + 1 (cutoff "
          ∷ str b.endpoint_stop_pct
          ∷ "%; "
          ∷ note
          ∷ ")"
          ∷ []))
        ("budget:endpoint:" <> clock.hour)

unfoldable pub check_oauth : Clock → Config → Db → ℕ → Verdict
unfolding gate_oauth
check_oauth clock cfg db inflight = gate_oauth clock cfg.budget inflight (stored clock db plan)

unfoldable pub check_endpoint : Clock → Config → Db → ℕ → Verdict
unfolding gate_endpoint
check_endpoint clock cfg db inflight =
    gate_endpoint clock cfg.budget inflight (stored clock db endpoint)

unfoldable pub check_backend : Clock → Backend → Config → Db → ℕ → Verdict
unfolding check_api check_oauth
check_backend clock api cfg db inflight = check_api clock cfg db inflight
check_backend clock oauth cfg db inflight = check_oauth clock cfg db inflight

unfoldable pub check : Clock → Config → Db → ℕ → Bool → Verdict
unfolding check_backend check_endpoint
check clock cfg db inflight via_endpoint =
    if via_endpoint
    then check_endpoint clock cfg db inflight
    else check_backend clock cfg.backend cfg db inflight
