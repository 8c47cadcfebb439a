-- ===== src/Db/Board/Rows.antt =====
-- One row for each pull request on the board, and what takes it off.
use mathlib.Core.List.{Memᴰ}
use claude_code_reviewer.Prelude.{
  ℕ, ◌≤◌, ◌<◌, String, Bool, true, false, not, ◌&&◌, some, List, [], ◌∷◌, map, any, count, contains,
  ◌≡◌, refl, arith, eq_iff, nat_eq, string_eq, ◌==◌, leb, if◌then◌else◌, Bool-cases, inl, inr,
}
use claude_code_reviewer.Db.Tables.{Db, Review, done, unlabeled, is_state, is_done, is_retired}
use claude_code_reviewer.Gates.{State}
use claude_code_reviewer.Db.Board.{
  of_pr, newer, is_newest, is_ready, settle_done, settle_unlabeled, is_swept,
}

any-Memᴰ {ℓ} :
    {A : Type ℓ} (p : A → Bool) {x : A} (xs : List A) → Memᴰ x xs → p x ≡ true → any p xs ≡ true
any-Memᴰ p [] m h = elim m [ ]
any-Memᴰ p (y ∷ xs) (Memᴰ.head e) h = rw (← e) (ground arith)
any-Memᴰ p (y ∷ xs) (Memᴰ.tail m) h = ground (arith, any-Memᴰ p xs m h)

abbrev rival : ℕ → Review → Review → Bool
rival since r q =
    of_pr r.repo r.pr q && is_state q.state State.published && leb since q.created_at && newer q r

not-newest_of_rival :
    (since : ℕ) (rows : List Review) (q r : Review)
    → Memᴰ q rows
    → rival since r q ≡ true
    → is_newest since rows r ≡ false
unfolding is_newest
not-newest_of_rival since rows q r m h = rw (any-Memᴰ (rival since r) rows m h) refl

-- A pull request has one row on the board at most: two ready rows of it were created together
-- and have the same id.
pub is_ready_unique :
    (since : ℕ) (db : Db) (q r : Review)
    → Memᴰ q db.reviews
    → Memᴰ r db.reviews
    → q.repo ≡ r.repo
    → q.pr ≡ r.pr
    → is_ready since db q ≡ true
    → is_ready since db r ≡ true
    → (q.created_at ≡ r.created_at) × (q.id ≡ r.id)
unfolding is_ready
is_ready_unique since db q r mq mr e f hq hr = ground (
  arith,
  not-newest_of_rival since db.reviews q r mq,
  not-newest_of_rival since db.reviews r q mr,
  eq_iff r.repo q.repo,
  eq_iff q.repo r.repo,
)

-- An approval falls off the board when a later pass of the same pull request was published,
-- whatever that pass said.
pub is_ready_superseded :
    (since : ℕ) (db : Db) (q r : Review)
    → Memᴰ q db.reviews
    → q.repo ≡ r.repo
    → q.pr ≡ r.pr
    → q.state ≡ State.published
    → since ≤ q.created_at
    → r.created_at < q.created_at
    → is_ready since db r ≡ false
unfolding is_ready
is_ready_superseded since db q r m e f s w l =
    ground (arith, not-newest_of_rival since db.reviews q r m, eq_iff q.repo r.repo)

module _ {ℓ} {A : Type ℓ} (p : A → Bool) (g : A → A) where
  any-map_none : (xs : List A) → ((x : A) → p (g x) ≡ false) → any p (map g xs) ≡ false
  any-map_none [] h = refl
  any-map_none (x ∷ xs) h = rw (h x) (any-map_none xs h)

  count-map_none : (xs : List A) → ((x : A) → p (g x) ≡ false) → count p (map g xs) ≡ 0
  count-map_none [] h = refl
  count-map_none (x ∷ xs) h = rw (h x) (count-map_none xs h)

abbrev untaken : String → ℕ → Review → Bool
untaken repo pr r = of_pr repo pr r && not (is_done r.ci_state)

take_done : String → ℕ → Review → Review
take_done repo pr r = if untaken repo pr r then record r { ci_state = some done } else r

not_swept :
    (repo : String) (pr since : ℕ) (db : Db) (r : Review)
    → (of_pr repo pr (take_done repo pr r) && is_swept repo since db (take_done repo pr r)) ≡ false
unfolding is_swept take_done
not_swept repo pr since db r = elim (Bool-cases (untaken repo pr r)) [
  | inl y ↦ rw y (ground arith)
  | inr n ↦ rw n (ground arith)
]

not_ready :
    (repo : String) (pr since : ℕ) (db : Db) (r : Review)
    → (of_pr repo pr (take_done repo pr r) && is_ready since db (take_done repo pr r)) ≡ false
unfolding is_ready take_done
not_ready repo pr since db r = elim (Bool-cases (untaken repo pr r)) [
  | inl y ↦ rw y (ground arith)
  | inr n ↦ rw n (ground arith)
]

not_untaken : (repo : String) (pr : ℕ) (r : Review) → untaken repo pr (take_done repo pr r) ≡ false
unfolding take_done
not_untaken repo pr r = elim (Bool-cases (untaken repo pr r)) [
  | inl y ↦ rw y (ground arith)
  | inr n ↦ rw n n
]

-- A pull request that a human has taken is neither swept for replies nor on the board afterwards,
-- and taking it again settles nothing.
pub settle_done_retires :
    (repo : String) (pr since : ℕ) (db : Db)
    → (any
          (λ r. of_pr repo pr r && is_swept repo since (settle_done repo pr db).1 r)
          (settle_done repo pr db).1.reviews
        ≡ false)
      × (any
            (λ r. of_pr repo pr r && is_ready since (settle_done repo pr db).1 r)
            (settle_done repo pr db).1.reviews
          ≡ false)
      × ((settle_done repo pr (settle_done repo pr db).1).0 ≡ 0)
unfolding settle_done take_done
settle_done_retires repo pr since db = (
  any-map_none _ (take_done repo pr) db.reviews (not_swept repo pr since _),
  any-map_none _ (take_done repo pr) db.reviews (not_ready repo pr since _),
  count-map_none _ (take_done repo pr) db.reviews (not_untaken repo pr),
)

abbrev unlisted : String → List ℕ → Review → Bool
unlisted repo labeled r =
    r.repo == repo && not (contains labeled r.pr) && not (is_retired r.ci_state)

unlabel : String → List ℕ → Review → Review
unlabel repo labeled r =
    if unlisted repo labeled r then record r { ci_state = some unlabeled } else r

not_ready_unlisted :
    (repo : String) (labeled : List ℕ) (since : ℕ) (db : Db) (r : Review)
    → ((unlabel repo labeled r).repo == repo
        && not (contains labeled (unlabel repo labeled r).pr)
        && is_ready since db (unlabel repo labeled r))
      ≡ false
unfolding is_ready unlabel
not_ready_unlisted repo labeled since db r = elim (Bool-cases (unlisted repo labeled r)) [
  | inl y ↦ rw y (ground arith)
  | inr n ↦ rw n (ground arith)
]

not_unlisted :
    (repo : String) (labeled : List ℕ) (r : Review)
    → unlisted repo labeled (unlabel repo labeled r) ≡ false
unfolding unlabel
not_unlisted repo labeled r = elim (Bool-cases (unlisted repo labeled r)) [
  | inl y ↦ rw y (ground arith)
  | inr n ↦ rw n n
]

-- After the sweep over the labelled pull requests, nothing of the repository outside them is on
-- the board, and sweeping again retires nothing.
pub settle_unlabeled_retires :
    (repo : String) (labeled : List ℕ) (since : ℕ) (db : Db)
    → (any
          (λ r.
            r.repo == repo
            && not (contains labeled r.pr)
            && is_ready since (settle_unlabeled repo labeled db).1 r)
          (settle_unlabeled repo labeled db).1.reviews
        ≡ false)
      × ((settle_unlabeled repo labeled (settle_unlabeled repo labeled db).1).0 ≡ 0)
unfolding settle_unlabeled unlabel
settle_unlabeled_retires repo labeled since db = (
  any-map_none _ (unlabel repo labeled) db.reviews (not_ready_unlisted repo labeled since _),
  count-map_none _ (unlabel repo labeled) db.reviews (not_unlisted repo labeled),
)
