-- ===== src/Db/Money/Laws.antt =====
-- What the spend gate reads back.
use claude_code_reviewer.Prelude.{
  ℕ, ◌+◌, String, Option, none, some, List, [], ◌∷◌, ◌++◌, find, ◌≡◌, refl, arith, eq_iff,
  string_eq, ◌==◌, leb, if◌then◌else◌,
}
use claude_code_reviewer.Db.Tables.{Db, Spend, Meter}
use claude_code_reviewer.Db.Money.{
  record_spend, dollars, spend_dollars, spend_since, read_meter, upsert, meter_failed,
}

spend_dollars-append :
    (since : ℕ) (xs : List Spend) (s : Spend)
    → spend_dollars since (xs ++ (s ∷ []))
      ≡ spend_dollars since xs + (if leb since s.created_at then dollars s.cost_usd else 0)
unfolding spend_dollars
spend_dollars-append since [] s = ground arith
spend_dollars-append since (x ∷ xs) s = ground (arith, spend_dollars-append since xs s)

-- Recording a cost raises the day's spend by exactly that cost if it falls in the window, and by
-- nothing otherwise, whatever models are left out of the reviews' sum.
pub spend_since-record_spend :
    (now : ℕ) (repo : String) (pr : ℕ) (kind : String) (cost duration : Option ℕ) (since : ℕ)
    (excluded : List String) (db : Db)
    → spend_since since excluded (record_spend now repo pr kind cost duration db)
      ≡ spend_since since excluded db + (if leb since now then dollars cost else 0)
unfolding spend_since record_spend
spend_since-record_spend now repo pr kind cost duration since excluded db = omega (
  arith,
  spend_dollars-append since db.spend (record {
    repo = repo;
    pr = pr;
    kind = kind;
    cost_usd = cost;
    duration_s = duration;
    created_at = now;
  }),
)

abbrev pub failed_row : ℕ → String → String → Meter
failed_row now name error = record {
  name = name;
  pct = none;
  note = none;
  read_at = none;
  error = some error;
  error_at = some now;
}

find-upsert :
    (f : Meter → Meter) (new : Meter) (name : String) (meters : List Meter)
    → ((m : Meter) → (f m).name ≡ m.name)
    → find (λ m. m.name == name) (upsert f new meters) ≡ (
        if new.name == name
        then some (elim (find (λ m. m.name == name) meters) [ none ↦ new | some m ↦ f m ])
        else find (λ m. m.name == name) meters)
unfolding upsert
find-upsert f new name [] h = ground arith
find-upsert f new name (m ∷ meters) h = ground (
  arith,
  h m,
  find-upsert f new name meters h,
  eq_iff m.name new.name,
  eq_iff m.name name,
  eq_iff new.name name,
)

-- A failed read is not a reading: it sets the error of its meter, keeps the last number and its
-- age, and leaves every other meter alone.
pub read_meter-meter_failed :
    (now : ℕ) (name error other : String) (db : Db)
    → read_meter (meter_failed now name error db) other ≡ (
        if name == other
        then some (elim (read_meter db other) [
          | none ↦ failed_row now name error
          | some m ↦ record m { error = some error; error_at = some now }
        ])
        else read_meter db other)
unfolding read_meter meter_failed
read_meter-meter_failed now name error other db =
    find-upsert (λ m. record m { error = some error; error_at = some now })
      (failed_row now name error) other db.meters (λ m. refl)
