-- ===== src/Db/Tables.antt =====
-- The tables of SCHEMA. A nullable column is an `Option`; rows stand in the order of their ids.
use claude_code_reviewer.Prelude.{ℕ, String, Bool, true, false, Option, some, List, []}
use claude_code_reviewer.Gates.{State}

pub data Verdict : Type 0 where
  needs_work comment ok : Verdict

pub data CiState : Type 0 where
  waiting green red stale gone done unlabeled expired : CiState

-- A row of `reviews`. Dollars are counted in millionths, times in milliseconds.
pub record Review : Type 0 where
  pub id : ℕ
  pub key : String
  pub repo : String
  pub pr : ℕ
  pub head_sha : String
  pub requested_at : String
  pub state : State
  pub verdict : Option Verdict
  pub hold_reason : Option String
  pub cost_usd : Option ℕ
  pub tokens_in : Option ℕ
  pub tokens_out : Option ℕ
  pub duration_s : Option ℕ
  pub transcript : Option String
  pub model : Option String
  pub findings : Option ℕ
  pub blocking : Option ℕ
  pub should_fix : Option ℕ
  pub inline : Option ℕ
  pub summary_findings : Option ℕ
  pub ci_state : Option CiState
  pub ci_seen_at : Option ℕ
  pub created_at : ℕ
  pub finished_at : Option ℕ

pub record Spend : Type 0 where
  pub repo : String
  pub pr : ℕ
  pub kind : String
  pub cost_usd : Option ℕ
  pub duration_s : Option ℕ
  pub created_at : ℕ

pub record Meter : Type 0 where
  pub name : String
  pub pct : Option ℕ
  pub note : Option String
  pub read_at : Option ℕ
  pub error : Option String
  pub error_at : Option ℕ

pub record Requested : Type 0 where
  pub repo : String
  pub pr : ℕ
  pub seen_at : ℕ

-- `next_id` is the AUTOINCREMENT of `reviews`.
pub record Db : Type 0 where
  pub reviews : List Review
  pub next_id : ℕ
  pub notices : List String
  pub spend : List Spend
  pub meters : List Meter
  pub requested : List Requested
  pub seeded : List String

abbrev pub empty_db : Db
empty_db = record {
  reviews = [];
  next_id = 1;
  notices = [];
  spend = [];
  meters = [];
  requested = [];
  seeded = [];
}

-- `column = 'value'`, which is false on NULL.
abbrev pub is_state : State → State → Bool
is_state State.running State.running = true
is_state State.published State.published = true
is_state State.held State.held = true
is_state State.failed State.failed = true
is_state _ _ = false

abbrev pub is_ok : Option Verdict → Bool
is_ok (some ok) = true
is_ok _ = false

abbrev pub is_waiting : Option CiState → Bool
is_waiting (some waiting) = true
is_waiting _ = false

abbrev pub is_green : Option CiState → Bool
is_green (some green) = true
is_green _ = false

-- `ci_state IN ('green','waiting','red')`
abbrev pub is_on_board : Option CiState → Bool
is_on_board (some green) = true
is_on_board (some waiting) = true
is_on_board (some red) = true
is_on_board _ = false

-- `COALESCE(ci_state,'') = 'done'`
abbrev pub is_done : Option CiState → Bool
is_done (some done) = true
is_done _ = false

-- `COALESCE(ci_state,'') IN ('done','unlabeled')`
abbrev pub is_retired : Option CiState → Bool
is_retired (some done) = true
is_retired (some unlabeled) = true
is_retired _ = false
