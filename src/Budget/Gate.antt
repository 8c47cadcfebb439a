-- ===== src/Budget/Gate.antt =====
-- When the spend gate opens.
use claude_code_reviewer.Prelude.{
  ℕ, ◌+◌, ◌*◌, ◌≤◌, Bool, true, false, Option, none, some, ◌≡◌, refl, arith, leb, leb→le, le→leb,
  nat_eq, if◌then◌else◌, inl, inr, Bool-cases,
}
use claude_code_reviewer.Config.{Config, Backend, BudgetConfig, api, oauth}
use claude_code_reviewer.Config.Arms.{endpoint_models}
use claude_code_reviewer.Db.Tables.{Db}
use claude_code_reviewer.Db.Money.{spend_since}
use claude_code_reviewer.Budget.{
  Clock, Reading, number, blind, million, plan, endpoint, stored, check_api, gate_oauth,
  gate_endpoint, check_oauth, check_endpoint, check_backend, check,
}

-- What a meter has read so far and what it may reach; `none` where no number can be trusted.
pub record Level : Type 0 where
  pub used : ℕ
  pub reserve : ℕ
  pub cutoff : ℕ

abbrev level_of : ℕ → ℕ → Reading → Option Level
level_of reserve stop (number pct note) =
    some (record { used = pct; reserve = reserve; cutoff = stop * million })
level_of reserve stop (blind why) = none

abbrev account_level : Clock → Backend → Config → Db → Option Level
account_level clock api cfg db = some (record {
  used = spend_since clock.midnight_ms (endpoint_models cfg.review_models) db;
  reserve = cfg.budget.reserve_usd;
  cutoff = cfg.budget.daily_usd;
})
account_level clock oauth cfg db =
    level_of cfg.budget.reserve_pct cfg.budget.stop_pct (stored clock db plan)

-- The meter that a run will be billed on.
abbrev pub level : Clock → Config → Db → Bool → Option Level
level clock cfg db via_endpoint =
    if via_endpoint
    then level_of cfg.budget.endpoint_reserve_pct cfg.budget.endpoint_stop_pct
        (stored clock db endpoint)
    else account_level clock cfg.backend cfg db

abbrev pub has_room : Option Level → ℕ → Bool
has_room none inflight = true
has_room (some l) inflight = leb (l.used + (inflight + 1) * l.reserve) l.cutoff

allowed-oauth :
    (clock : Clock) (b : BudgetConfig) (inflight : ℕ) (r : Reading)
    → (gate_oauth clock b inflight r).allowed
      ≡ has_room (level_of b.reserve_pct b.stop_pct r) inflight
unfolding gate_oauth
allowed-oauth clock b inflight (blind why) = refl
allowed-oauth clock b inflight (number pct note) =
    elim (Bool-cases (leb (pct + (inflight + 1) * b.reserve_pct) (b.stop_pct * million))) [
      | inl y ↦ rw y refl
      | inr n ↦ rw n refl
    ]

allowed-endpoint :
    (clock : Clock) (b : BudgetConfig) (inflight : ℕ) (r : Reading)
    → (gate_endpoint clock b inflight r).allowed
      ≡ has_room (level_of b.endpoint_reserve_pct b.endpoint_stop_pct r) inflight
unfolding gate_endpoint
allowed-endpoint clock b inflight (blind why) = refl
allowed-endpoint clock b inflight (number pct note) =
    elim (Bool-cases
      (leb (pct + (inflight + 1) * b.endpoint_reserve_pct) (b.endpoint_stop_pct * million))) [
        | inl y ↦ rw y refl
        | inr n ↦ rw n refl
      ]

allowed-api :
    (clock : Clock) (cfg : Config) (db : Db) (inflight : ℕ)
    → (check_api clock cfg db inflight).allowed ≡ has_room (account_level clock api cfg db) inflight
unfolding check_api
allowed-api clock cfg db inflight =
    elim (Bool-cases (
      leb
        (spend_since clock.midnight_ms (endpoint_models cfg.review_models) db
          + (inflight + 1) * cfg.budget.reserve_usd)
        cfg.budget.daily_usd)) [ inl y ↦ rw y refl | inr n ↦ rw n refl ]

allowed-backend :
    (clock : Clock) (b : Backend) (cfg : Config) (db : Db) (inflight : ℕ)
    → (check_backend clock b cfg db inflight).allowed
      ≡ has_room (account_level clock b cfg db) inflight
unfolding check_backend
allowed-backend clock api cfg db inflight = allowed-api clock cfg db inflight
allowed-backend clock oauth cfg db inflight =
    unfold check_oauth in allowed-oauth clock cfg.budget inflight (stored clock db plan)

-- A review may start exactly when its meter has no number that can be trusted, or when what was
-- used, with a reserve for each run in flight and for the one that asks, stays within the cutoff.
pub allowed-check :
    (clock : Clock) (cfg : Config) (db : Db) (inflight : ℕ) (via_endpoint : Bool)
    → (check clock cfg db inflight via_endpoint).allowed
      ≡ has_room (level clock cfg db via_endpoint) inflight
unfolding check
allowed-check clock cfg db inflight true =
    unfold check_endpoint in allowed-endpoint clock cfg.budget inflight (stored clock db endpoint)
allowed-check clock cfg db inflight false = allowed-backend clock cfg.backend cfg db inflight

mul_mono : (m n r : ℕ) → m ≤ n → (m + 1) * r ≤ (n + 1) * r
mul_mono m n r h = grind arith

has_room_mono : (l : Option Level) (m n : ℕ) → m ≤ n → has_room l n ≡ true → has_room l m ≡ true
has_room_mono none m n h k = refl
has_room_mono (some l) m n h k =
    le→leb _ _
      (omega (arith, mul_mono m n l.reserve h, leb→le (l.used + (n + 1) * l.reserve) l.cutoff k))

-- With fewer runs in flight the gate is open wherever it was.
pub allowed_mono :
    (clock : Clock) (cfg : Config) (db : Db) (m n : ℕ) (via_endpoint : Bool)
    → m ≤ n
    → (check clock cfg db n via_endpoint).allowed ≡ true
    → (check clock cfg db m via_endpoint).allowed ≡ true
allowed_mono clock cfg db m n via h k =
    rw allowed-check (has_room_mono (level clock cfg db via) m n h (rw allowed-check at k))
