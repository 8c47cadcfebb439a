-- ===== src/Db/Money.antt =====
-- Spend and meters.
pub mod Laws
use claude_code_reviewer.Prelude.{
  ℕ, ◌+◌, String, not, ◌&&◌, Option, none, some, List, [], ◌∷◌, ◌++◌, find, contains, ◌==◌,
  string_eq, leb, if◌then◌else◌,
}
use claude_code_reviewer.Db.Tables.{Db, Review, Spend, Meter}

unfoldable pub record_spend : ℕ → String → ℕ → String → Option ℕ → Option ℕ → Db → Db
record_spend now repo pr kind cost duration db = record db {
  spend =
      db.spend
      ++ record {
        repo = repo;
        pr = pr;
        kind = kind;
        cost_usd = cost;
        duration_s = duration;
        created_at = now;
      }
        ∷ [];
}

-- SUM skips NULL.
abbrev pub dollars : Option ℕ → ℕ
dollars none = 0
dollars (some n) = n

abbrev pub model_tag : Option String → String
model_tag none = ""
model_tag (some m) = m

unfoldable pub review_dollars : ℕ → List String → List Review → ℕ
review_dollars since excluded [] = 0
review_dollars since excluded (r ∷ rows) =
    let rest = review_dollars since excluded rows in
    if leb since r.created_at && not (contains excluded (model_tag r.model))
    then dollars r.cost_usd + rest
    else rest

unfoldable pub spend_dollars : ℕ → List Spend → ℕ
spend_dollars since [] = 0
spend_dollars since (s ∷ rows) =
    let rest = spend_dollars since rows in
    if leb since s.created_at then dollars s.cost_usd + rest else rest

unfoldable pub spend_since : ℕ → List String → Db → ℕ
unfolding review_dollars spend_dollars
spend_since since excluded db =
    review_dollars since excluded db.reviews + spend_dollars since db.spend

unfoldable pub read_meter : Db → String → Option Meter
read_meter db name = find (λ m. m.name == name) db.meters

-- `INSERT … ON CONFLICT(name) DO UPDATE`
unfoldable pub upsert : (Meter → Meter) → Meter → List Meter → List Meter
upsert f new [] = new ∷ []
upsert f new (m ∷ meters) =
    let rest = upsert f new meters in if m.name == new.name then f m ∷ meters else m ∷ rest

unfoldable pub write_meter : ℕ → String → ℕ → String → Db → Db
unfolding upsert
write_meter now name pct note db = record db {
  meters =
      upsert
        (λ m. record m {
          pct = some pct;
          note = some note;
          read_at = some now;
          error = none;
          error_at = none;
        })
        (record {
          name = name;
          pct = some pct;
          note = some note;
          read_at = some now;
          error = none;
          error_at = none;
        })
        db.meters;
}

unfoldable pub meter_failed : ℕ → String → String → Db → Db
unfolding upsert
meter_failed now name error db = record db {
  meters =
      upsert (λ m. record m { error = some error; error_at = some now })
        (record {
          name = name;
          pct = none;
          note = none;
          read_at = none;
          error = some error;
          error_at = some now;
        })
        db.meters;
}
