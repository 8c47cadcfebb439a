-- ===== src/Db/Board.antt =====
-- What the panel and the sweep read, and the statements that retire rows from them.
pub mod Rows
use claude_code_reviewer.Prelude.{
  ℕ, ◌+◌, String, Bool, true, false, not, ◌&&◌, ◌||◌, Option, none, some, List, [], ◌∷◌, ◌++◌, map,
  filter, any, count, contains, is_empty, ◌==◌, nat_eq, string_eq, ltb, leb, if◌then◌else◌,
}
use claude_code_reviewer.Gates.{State, is_judged}
use claude_code_reviewer.Db.Tables.{
  Db, Review, Requested, stale, done, unlabeled, is_state, is_ok, is_green, is_on_board, is_done,
  is_retired,
}
use claude_code_reviewer.Db.Reviews.{update_where, sort_by}

-- `repo=? AND pr=?`
abbrev pub of_pr : String → ℕ → Review → Bool
of_pr repo pr r = r.repo == repo && r.pr == pr

-- `ORDER BY created_at DESC, id DESC` puts `a` before `b`.
abbrev pub newer : Review → Review → Bool
newer a b = ltb b.created_at a.created_at || (b.created_at == a.created_at && ltb b.id a.id)

-- Row number 1 of its (repo, pr) among the published rows created since `since`.
unfoldable pub is_newest : ℕ → List Review → Review → Bool
is_newest since rows r = not (
    any
      (λ q.
        of_pr r.repo r.pr q
        && is_state q.state State.published
        && leb since q.created_at
        && newer q r)
      rows)

abbrev pub in_window : ℕ → Review → Bool
in_window since r = is_state r.state State.published && leb since r.created_at

abbrev pub is_requested : Db → Review → Bool
is_requested db r = any (λ q. q.repo == r.repo && q.pr == r.pr) db.requested

-- `ORDER BY ci_state='green' DESC, created_at DESC`
abbrev pub board_order : Review → Review → Bool
board_order a b =
    if is_green a.ci_state
    then (if is_green b.ci_state then ltb b.created_at a.created_at else true)
    else (if is_green b.ci_state then false else ltb b.created_at a.created_at)

-- The conditions of the panel's query on one row.
unfoldable pub is_ready : ℕ → Db → Review → Bool
unfolding is_newest
is_ready since db r =
    in_window since r
    && is_newest since db.reviews r
    && is_ok r.verdict
    && is_on_board r.ci_state
    && is_requested db r

unfoldable pub approved_and_green : ℕ → Db → List Review
unfolding is_ready
approved_and_green since db = sort_by board_order (filter (is_ready since db) db.reviews)

unfoldable pub set_requested : ℕ → String → List ℕ → Db → Db
set_requested now repo prs db = record db {
  requested =
      filter (λ q. not (q.repo == repo)) db.requested
      ++ map (λ pr. record { repo = repo; pr = pr; seen_at = now }) prs;
}

unfoldable pub approved_prs : String → Db → List ℕ
unfolding is_newest
approved_prs repo db = sort_by ltb (
    map (λ r. r.pr)
      (filter
        (λ r.
          r.repo == repo
          && is_state r.state State.published
          && is_newest 0 db.reviews r
          && is_ok r.verdict)
        db.reviews))

unfoldable pub unrequest : String → List ℕ → Db → ℕ × Db
unrequest repo prs db =
    let hit = λ (q : Requested). q.repo == repo && contains prs q.pr in
    if is_empty prs
    then (0, db)
    else (count hit db.requested, record db { requested = filter (λ q. not (hit q)) db.requested })

-- `repo=? AND pr=? AND head_sha != ? AND ci_state IN (…)`
abbrev pub moved_on : String → ℕ → String → Review → Bool
moved_on repo pr head r = of_pr repo pr r && not (r.head_sha == head) && is_on_board r.ci_state

unfoldable pub settle_stale : String → List (ℕ × String) → Db → ℕ × Db
settle_stale repo [] db = (0, db)
settle_stale repo ((pr, head) ∷ heads) db =
    let next = record db {
      reviews =
          update_where (moved_on repo pr head) (λ r. record r { ci_state = some stale }) db.reviews;
    } in
    let (settled, db') = settle_stale repo heads next in
    (count (moved_on repo pr head) db.reviews + settled, db')

unfoldable pub settle_done : String → ℕ → Db → ℕ × Db
settle_done repo pr db =
    let hit = λ (r : Review). of_pr repo pr r && not (is_done r.ci_state) in
    (
      count hit db.reviews,
      record db { reviews = update_where hit (λ r. record r { ci_state = some done }) db.reviews },
    )

unfoldable pub settle_unlabeled : String → List ℕ → Db → ℕ × Db
settle_unlabeled repo labeled db =
    let hit = λ (r : Review).
      r.repo == repo && not (contains labeled r.pr) && not (is_retired r.ci_state) in
    (
      count hit db.reviews,
      record db {
        reviews = update_where hit (λ r. record r { ci_state = some unlabeled }) db.reviews;
      },
    )

unfoldable pub passes_for : String → ℕ → Db → List Review
unfolding is_judged
passes_for repo pr db =
    sort_by (λ a b. ltb a.created_at b.created_at)
      (filter (λ r. of_pr repo pr r && is_judged r.state) db.reviews)

-- `COALESCE(inline,1) > 0`
abbrev pub may_have_threads : Option ℕ → Bool
may_have_threads none = true
may_have_threads (some n) = ltb 0 n

-- `SELECT DISTINCT`
abbrev pub distinct : List ℕ → List ℕ
distinct [] = []
distinct (x ∷ xs) = let rest = distinct xs in if contains rest x then rest else x ∷ rest

unfoldable pub is_swept : String → ℕ → Db → Review → Bool
is_swept repo since db r =
    r.repo == repo
    && in_window since r
    && not (is_done r.ci_state)
    && any
        (λ c. of_pr r.repo r.pr c && is_state c.state State.published && may_have_threads c.inline)
        db.reviews

unfoldable pub reviewed_prs : String → ℕ → Db → List ℕ
unfolding is_swept
reviewed_prs repo since db =
    sort_by (λ a b. ltb b a)
      (distinct (map (λ r. r.pr) (filter (is_swept repo since db) db.reviews)))
