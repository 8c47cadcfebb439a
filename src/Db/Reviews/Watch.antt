-- ===== src/Db/Reviews/Watch.antt =====
-- The CI watch expires by age, and a restart leaves nothing running.
use claude_code_reviewer.Prelude.{
  ℕ, ◌+◌, Bool, true, not, ◌&&◌, ◌||◌, some, List, [], ◌∷◌, filter, count, all, ◌≡◌, refl, ap,
  arith, ltb, leb,
}
use claude_code_reviewer.Gates.{State}
use claude_code_reviewer.Db.Tables.{Db, Review, expired, is_state}
use claude_code_reviewer.Db.Reviews.{
  update_where, expire_ci_watch, watching_ci, watched, reap_running, sort_by, older,
}

abbrev overdue : ℕ → Review → Bool
overdue before r = watched r && ltb r.created_at before

abbrev expire : Review → Review
expire r = record r { ci_state = some expired }

filter-expire :
    (before : ℕ) (rows : List Review)
    → filter (λ r. watched r && leb before r.created_at) (update_where (overdue before) expire rows)
      ≡ filter (λ r. watched r && leb before r.created_at) rows
filter-expire before [] = refl
filter-expire before (r ∷ rows) = ground (arith, filter-expire before rows)

count-expire :
    (before : ℕ) (rows : List Review)
    → count (overdue before) (update_where (overdue before) expire rows) ≡ 0
count-expire before [] = refl
count-expire before (r ∷ rows) = ground (arith, count-expire before rows)

all-expire :
    (before : ℕ) (rows : List Review)
    → all
        (λ r. not (watched r) || leb before r.created_at)
        (update_where (overdue before) expire rows)
      ≡ true
all-expire before [] = refl
all-expire before (r ∷ rows) = ground (arith, all-expire before rows)

-- Expiring what is older than a cutoff leaves the watch from that cutoff on as it was, leaves no
-- older approval waiting, and settles nothing the second time.
pub watching_ci-expire_ci_watch :
    (before : ℕ) (db : Db)
    → (watching_ci before (expire_ci_watch before db).1 ≡ watching_ci before db)
      × (all (λ r. not (watched r) || leb before r.created_at) (expire_ci_watch before db).1.reviews
          ≡ true)
      × ((expire_ci_watch before (expire_ci_watch before db).1).0 ≡ 0)
unfolding watching_ci expire_ci_watch
watching_ci-expire_ci_watch before db = (
  ap (sort_by older) (filter-expire before db.reviews),
  all-expire before db.reviews,
  count-expire before db.reviews,
)

abbrev pub is_running : Review → Bool
is_running r = is_state r.state State.running

abbrev reap : ℕ → Review → Review
reap now r = record r {
  state = State.failed;
  hold_reason = some "orchestrator restarted";
  finished_at = some now;
}

count-reap :
    (now : ℕ) (rows : List Review)
    → (count is_running (update_where is_running (reap now) rows) ≡ 0)
      × (count (λ r. is_state r.state State.failed) (update_where is_running (reap now) rows)
          ≡ count (λ r. is_state r.state State.failed) rows + count is_running rows)
count-reap now [] = (refl, omega arith)
count-reap now (r ∷ rows) = ground (arith, count-reap now rows)

-- After a restart no row is running, and every row that was has become a failed one: the failed
-- rows grow by the number that is returned.
pub count-reap_running :
    (now : ℕ) (db : Db)
    → (count is_running (reap_running now db).1.reviews ≡ 0)
      × (count (λ r. is_state r.state State.failed) (reap_running now db).1.reviews
          ≡ count (λ r. is_state r.state State.failed) db.reviews + (reap_running now db).0)
unfolding reap_running
count-reap_running now db = count-reap now db.reviews
