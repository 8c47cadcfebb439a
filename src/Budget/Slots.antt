-- ===== src/Budget/Slots.antt =====
-- `Orchestrator._slot`, as the steps of concurrent reviews on the account's dollars: admission and
-- reservation under one lock, the end of a container, and the row that records its cost. The money
-- question and the fixes spend from the same dollars outside of it.
pub mod Bounds
use claude_code_reviewer.Prelude.{
  ℕ, zero, suc, ◌+◌, ◌-◌, ◌*◌, ◌≤◌, ◌<◌, ◌≡◌, ◌≢◌, refl, Bool, true, false, arith, leb, ltb, ◌&&◌,
  ◌↔◌,
}

-- `spent` is what `spend_since` sums, `unbilled` the cost of runs that ended and have no row yet;
-- `aside` is how much of `spent` the runs outside `_slot` have recorded.
pub record Slots : Type 0 where
  pub spent : ℕ
  pub unbilled : ℕ
  pub inflight : ℕ
  pub aside : ℕ

-- The limits: `daily_usd`, `reserve_usd` and `max_concurrent_reviews`.
pub record Limits : Type 0 where
  pub daily : ℕ
  pub reserve : ℕ
  pub cap : ℕ

module _ (l : Limits) where
  -- `_sem` and the gate of `_check_api`.
  abbrev pub admits : Slots → Bool
  admits s = ltb s.inflight l.cap && leb (s.spent + (s.inflight + 1) * l.reserve) l.daily

  unfoldable pub admit : Slots → Slots
  admit s = record s { inflight = s.inflight + 1 }

  -- The `finally` of `_slot`: the run's reserve is given back before its cost is written.
  unfoldable pub leave : ℕ → Slots → Slots
  leave cost s = record s { inflight = s.inflight - 1; unbilled = s.unbilled + cost }

  -- `finish_review` or `record_spend`.
  unfoldable pub bill : ℕ → Slots → Slots
  bill cost s = record s { spent = s.spent + cost; unbilled = s.unbilled - cost }

  -- `record_spend` of a money question or of a fix. Its gate, `check` with 1 in place of the runs in
  -- flight, holds nothing back for it, so a schedule may have this step at any time.
  unfoldable pub bill_aside : ℕ → Slots → Slots
  bill_aside cost s = record s { spent = s.spent + cost; aside = s.aside + cost }

  -- A run costs its reserve at most; nothing is said of the cost of one outside `_slot`.
  pub data Step : Slots → Slots → Type 0 where
    admitted : (s : Slots) → admits s ≡ true → Step s (admit s)
    left : (s : Slots) (cost : ℕ) → 0 < s.inflight → cost ≤ l.reserve → Step s (leave cost s)
    billed : (s : Slots) (cost : ℕ) → cost ≤ s.unbilled → Step s (bill cost s)
    outside : (s : Slots) (cost : ℕ) → Step s (bill_aside cost s)

  -- A schedule in which every admission finds all ended runs billed.
  pub data Prompt : Slots → Slots → Type 0 where
    here : {s : Slots} → Prompt s s
    admitted : {s t : Slots} → Prompt s t → t.unbilled ≡ 0 → admits t ≡ true → Prompt s (admit t)
    left :
        {s t : Slots} (cost : ℕ)
        → Prompt s t
        → 0 < t.inflight
        → cost ≤ l.reserve
        → Prompt s (leave cost t)
    billed : {s t : Slots} (cost : ℕ) → Prompt s t → cost ≤ t.unbilled → Prompt s (bill cost t)
    outside : {s t : Slots} (cost : ℕ) → Prompt s t → Prompt s (bill_aside cost t)

  pub data Reach (s : Slots) : Slots → Type 0 where
    start : Reach s s
    next : {t u : Slots} → Reach s t → Step t u → Reach s u
