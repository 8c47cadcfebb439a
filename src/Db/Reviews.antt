-- ===== src/Db/Reviews.antt =====
-- The statements on one review: reading, starting, finishing, holding, and the CI watch.
pub mod Columns
pub mod Judged
pub mod Watch
pub mod Unjudged
use claude_code_reviewer.Prelude.{
  ℕ, suc, ◌+◌, String, Bool, true, false, not, ◌&&◌, Option, none, some, List, [], ◌∷◌, ◌++◌, map,
  filter, any, find, count, ◌==◌, nat_eq, string_eq, ltb, leb, if◌then◌else◌,
}
use claude_code_reviewer.Gates.{State, is_judged}
use claude_code_reviewer.Db.Tables.{Db, Review, CiState, expired, is_state, is_ok, is_waiting}
use Columns.{Given, write}

-- `UPDATE reviews SET … WHERE cond`: the rows that match are rewritten, the others stay.
abbrev pub update_where : (Review → Bool) → (Review → Review) → List Review → List Review
update_where cond f rows = map (λ r. if cond r then f r else r) rows

unfoldable pub get_review : Db → String → Option Review
get_review db key = find (λ r. r.key == key) db.reviews

-- `repo=? AND pr=? AND head_sha=?`
abbrev pub at_commit : String → ℕ → String → Review → Bool
at_commit repo pr sha r = r.repo == repo && r.pr == pr && r.head_sha == sha

unfoldable pub sha_was_judged : Db → String → ℕ → String → Bool
unfolding is_judged
sha_was_judged db repo pr sha = any (λ r. at_commit repo pr sha r && is_judged r.state) db.reviews

-- A row with the columns that an INSERT does not name left NULL.
abbrev pub fresh : ℕ → String → String → ℕ → String → String → State → ℕ → Review
fresh id key repo pr sha requested_at state now = record {
  id = id;
  key = key;
  repo = repo;
  pr = pr;
  head_sha = sha;
  requested_at = requested_at;
  state = state;
  verdict = none;
  hold_reason = none;
  cost_usd = none;
  tokens_in = none;
  tokens_out = none;
  duration_s = none;
  transcript = none;
  model = none;
  findings = none;
  blocking = none;
  should_fix = none;
  inline = none;
  summary_findings = none;
  ci_state = none;
  ci_seen_at = none;
  created_at = now;
  finished_at = none;
}

-- `INSERT OR REPLACE`: `key` is UNIQUE, so the row that had it goes.
unfoldable pub insert_or_replace : Db → Review → Db
insert_or_replace db row = record db {
  reviews = filter (λ r. not (r.key == row.key)) db.reviews ++ (row ∷ []);
  next_id = suc db.next_id;
}

unfoldable pub start_review : ℕ → String → String → ℕ → String → String → Db → Db
unfolding insert_or_replace
start_review now key repo pr sha requested_at db =
    insert_or_replace db (fresh db.next_id key repo pr sha requested_at State.running now)

unfoldable pub finish_review : ℕ → String → State → Given → Db → Db
unfolding write
finish_review now key state given db = record db {
  reviews = update_where (λ r. r.key == key) (write now state given) db.reviews;
}

unfoldable pub record_hold : ℕ → String → String → ℕ → String → String → String → Db → Db
unfolding insert_or_replace
record_hold now key repo pr sha requested_at reason db =
    insert_or_replace db (record (fresh db.next_id key repo pr sha requested_at State.held now) {
      hold_reason = some reason;
      finished_at = some now;
    })

-- `verdict='ok' AND state='published' AND ci_state='waiting'`
abbrev pub watched : Review → Bool
watched r = is_ok r.verdict && is_state r.state State.published && is_waiting r.ci_state

-- The result of an UPDATE or a DELETE: the rows it touched, and the new state.
unfoldable pub expire_ci_watch : ℕ → Db → ℕ × Db
expire_ci_watch before db =
    let hit = λ (r : Review). watched r && ltb r.created_at before in
    (
      count hit db.reviews,
      record db {
        reviews = update_where hit (λ r. record r { ci_state = some expired }) db.reviews;
      },
    )

abbrev pub insert_by {ℓ} : {A : Type ℓ} → (A → A → Bool) → A → List A → List A
insert_by before a [] = a ∷ []
insert_by before a (b ∷ rest) =
    let later = insert_by before a rest in if before b a then b ∷ later else a ∷ b ∷ rest

-- A stable insertion sort: `before b a` keeps `b` in front of `a`.
abbrev pub sort_by {ℓ} : {A : Type ℓ} → (A → A → Bool) → List A → List A
sort_by before [] = []
sort_by before (a ∷ rest) = insert_by before a (sort_by before rest)

abbrev pub older : Review → Review → Bool
older a b = ltb a.created_at b.created_at

unfoldable pub watching_ci : ℕ → Db → List Review
watching_ci since db = sort_by older (filter (λ r. watched r && leb since r.created_at) db.reviews)

unfoldable pub set_ci_state : ℕ → String → CiState → Db → Db
set_ci_state now key s db = record db {
  reviews =
      update_where (λ r. r.key == key) (λ r. record r { ci_state = some s; ci_seen_at = some now })
        db.reviews;
}

unfoldable pub reap_running : ℕ → Db → ℕ × Db
reap_running now db =
    let hit = λ (r : Review). is_state r.state State.running in
    (
      count hit db.reviews,
      record db {
        reviews =
            update_where hit
              (λ r. record r {
                state = State.failed;
                hold_reason = some "orchestrator restarted";
                finished_at = some now;
              })
              db.reviews;
      },
    )
