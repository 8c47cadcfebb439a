-- ===== src/Db/Reviews/Judged.antt =====
-- Which statements make a commit count as judged, and what a key finds.
use claude_code_reviewer.Prelude.{
  ℕ, String, Bool, true, false, not, ◌&&◌, ◌||◌, Option, none, some, List, [], ◌∷◌, ◌++◌, filter,
  any, find, ◌≡◌, refl, ◌∙◌, ap, arith, eq_iff, string_eq, nat_eq, ◌==◌, Bool-cases, inl, inr,
}
use claude_code_reviewer.Gates.{State, is_judged}
use claude_code_reviewer.Db.Tables.{Db, Review}
use claude_code_reviewer.Db.Reviews.Columns.{Given, over, write}
use claude_code_reviewer.Db.Reviews.{
  update_where, get_review, sha_was_judged, at_commit, insert_or_replace, start_review, fresh,
  finish_review, record_hold,
}

module _ {ℓ} {A : Type ℓ} where
  pub any-append : (p : A → Bool) (xs ys : List A) → any p (xs ++ ys) ≡ (any p xs || any p ys)
  any-append p [] ys = refl
  any-append p (x ∷ xs) ys = ground (arith, any-append p xs ys)

  pub any-filter : (p q : A → Bool) (xs : List A) → any p (filter q xs) ≡ any (λ x. q x && p x) xs
  any-filter p q [] = refl
  any-filter p q (x ∷ xs) = elim (Bool-cases (q x)) [
    | inl y ↦ ground (arith, any-filter p q xs)
    | inr n ↦ ground (arith, any-filter p q xs)
  ]

  find-append :
      (p : A → Bool) (xs : List A) (y : A)
      → any p xs ≡ false
      → p y ≡ true
      → find p (xs ++ (y ∷ [])) ≡ some y
  find-append p [] y h k = ground arith
  find-append p (x ∷ xs) y h k = ground (arith, find-append p xs y)

  any-none :
      (p q : A → Bool) (xs : List A)
      → ((x : A) → (q x && p x) ≡ false)
      → any (λ x. q x && p x) xs ≡ false
  any-none p q [] h = refl
  any-none p q (x ∷ xs) h = ground (arith, h x, any-none p q xs h)

abbrev pub judged_at : String → ℕ → String → Review → Bool
judged_at repo pr sha r = at_commit repo pr sha r && is_judged r.state

-- An INSERT OR REPLACE forgets the row that had the key, and adds its own.
sha_was_judged-insert_or_replace :
    (db : Db) (row : Review) (repo : String) (pr : ℕ) (sha : String)
    → sha_was_judged (insert_or_replace db row) repo pr sha ≡ (
        any (λ r. not (r.key == row.key) && judged_at repo pr sha r) db.reviews
        || judged_at repo pr sha row)
unfolding sha_was_judged insert_or_replace
sha_was_judged-insert_or_replace db row repo pr sha =
    any-append (judged_at repo pr sha) (filter (λ r. not (r.key == row.key)) db.reviews) (row ∷ [])
    ∙ rw any-filter (ground arith)

-- After a hold is recorded, the commit counts as judged.
pub sha_was_judged-record_hold :
    (now : ℕ) (key repo : String) (pr : ℕ) (sha requested_at reason : String) (db : Db)
    → sha_was_judged (record_hold now key repo pr sha requested_at reason db) repo pr sha ≡ true
unfolding record_hold is_judged
sha_was_judged-record_hold now key repo pr sha requested_at reason db =
    sha_was_judged-insert_or_replace db _ repo pr sha
    ∙ ground (arith, eq_iff repo repo, eq_iff sha sha)

-- A review that starts does not judge its commit: only the rows of other keys count.
pub sha_was_judged-start_review :
    (now : ℕ) (key repo : String) (pr : ℕ) (sha requested_at : String) (db : Db) (pr' : ℕ)
    (repo' sha' : String)
    → sha_was_judged (start_review now key repo pr sha requested_at db) repo' pr' sha'
      ≡ any (λ r. not (r.key == key) && judged_at repo' pr' sha' r) db.reviews
unfolding start_review is_judged
sha_was_judged-start_review now key repo pr sha requested_at db pr' repo' sha' =
    sha_was_judged-insert_or_replace db _ repo' pr' sha' ∙ ground arith

-- The row that a key has after its review started is the fresh one.
pub get_review-start_review :
    (now : ℕ) (key repo : String) (pr : ℕ) (sha requested_at : String) (db : Db)
    → get_review (start_review now key repo pr sha requested_at db) key
      ≡ some (fresh db.next_id key repo pr sha requested_at State.running now)
unfolding start_review get_review
get_review-start_review now key repo pr sha requested_at db =
    find-append (λ r. r.key == key) (filter (λ r. not (r.key == key)) db.reviews) _
      (any-filter (λ r. r.key == key) (λ r. not (r.key == key)) db.reviews
        ∙ any-none (λ r. r.key == key) (λ r. not (r.key == key)) db.reviews (λ x. ground arith))
      (ground (arith, eq_iff key key))

-- The row that a key has after its hold was recorded is the held one.
pub get_review-record_hold :
    (now : ℕ) (key repo : String) (pr : ℕ) (sha requested_at reason : String) (db : Db)
    → get_review (record_hold now key repo pr sha requested_at reason db) key
      ≡ some (record (fresh db.next_id key repo pr sha requested_at State.held now) {
        hold_reason = some reason;
        finished_at = some now;
      })
unfolding record_hold get_review
get_review-record_hold now key repo pr sha requested_at reason db =
    find-append (λ r. r.key == key) (filter (λ r. not (r.key == key)) db.reviews) _
      (any-filter (λ r. r.key == key) (λ r. not (r.key == key)) db.reviews
        ∙ any-none (λ r. r.key == key) (λ r. not (r.key == key)) db.reviews (λ x. ground arith))
      (ground (arith, eq_iff key key))

get_review-update :
    (key : String) (f : Review → Review) (rows : List Review)
    → ((r : Review) → (f r).key ≡ r.key)
    → find (λ r. r.key == key) (update_where (λ r. r.key == key) f rows)
      ≡ elim (find (λ r. r.key == key) rows) [ none ↦ none | some r ↦ some (f r) ]
get_review-update key f [] h = refl
get_review-update key f (r ∷ rows) h = ground (arith, h r, get_review-update key f rows h)

-- Finishing a review rewrites the row of its key with the columns that were given.
pub get_review-finish_review :
    (now : ℕ) (key : String) (state : State) (g : Given) (db : Db)
    → get_review (finish_review now key state g db) key
      ≡ elim (get_review db key) [ none ↦ none | some r ↦ some (write now state g r) ]
unfolding get_review finish_review write
get_review-finish_review now key state g db =
    get_review-update key (write now state g) db.reviews (λ r. refl)

-- The columns of two calls, the later call's first.
abbrev pub merge : Given → Given → Given
merge g h = record {
  verdict = over g.verdict h.verdict;
  hold_reason = over g.hold_reason h.hold_reason;
  cost_usd = over g.cost_usd h.cost_usd;
  tokens_in = over g.tokens_in h.tokens_in;
  tokens_out = over g.tokens_out h.tokens_out;
  duration_s = over g.duration_s h.duration_s;
  transcript = over g.transcript h.transcript;
  model = over g.model h.model;
  findings = over g.findings h.findings;
  blocking = over g.blocking h.blocking;
  should_fix = over g.should_fix h.should_fix;
  inline = over g.inline h.inline;
  summary_findings = over g.summary_findings h.summary_findings;
  ci_state = over g.ci_state h.ci_state;
}

over-over {ℓ} : {A : Type ℓ} (a b c : Option A) → over a (over b c) ≡ over (over a b) c
over-over none b c = refl
over-over (some a) b c = refl

write-write :
    (now later : ℕ) (s t : State) (g h : Given) (r : Review)
    → write later t g (write now s h r) ≡ write later t (merge g h) r
unfolding write
write-write now later s t g h r = λ i. record r {
  state = t;
  verdict = over-over g.verdict h.verdict r.verdict i;
  hold_reason = over-over g.hold_reason h.hold_reason r.hold_reason i;
  cost_usd = over-over g.cost_usd h.cost_usd r.cost_usd i;
  tokens_in = over-over g.tokens_in h.tokens_in r.tokens_in i;
  tokens_out = over-over g.tokens_out h.tokens_out r.tokens_out i;
  duration_s = over-over g.duration_s h.duration_s r.duration_s i;
  transcript = over-over g.transcript h.transcript r.transcript i;
  model = over-over g.model h.model r.model i;
  findings = over-over g.findings h.findings r.findings i;
  blocking = over-over g.blocking h.blocking r.blocking i;
  should_fix = over-over g.should_fix h.should_fix r.should_fix i;
  inline = over-over g.inline h.inline r.inline i;
  summary_findings = over-over g.summary_findings h.summary_findings r.summary_findings i;
  ci_state = over-over g.ci_state h.ci_state r.ci_state i;
  finished_at = some later;
}

update-update :
    (key : String) (f g k : Review → Review) (rows : List Review)
    → ((r : Review) → (f r).key ≡ r.key)
    → ((r : Review) → g (f r) ≡ k r)
    → update_where (λ r. r.key == key) g (update_where (λ r. r.key == key) f rows)
      ≡ update_where (λ r. r.key == key) k rows
update-update key f g k [] h e = refl
update-update key f g k (r ∷ rows) h e = ground (arith, h r, e r, update-update key f g k rows h e)

-- Two calls of `finish_review` on one key are one call with the columns of both: what the second
-- leaves out keeps the value that the first gave.
pub finish_review-finish_review :
    (now later : ℕ) (key : String) (s t : State) (g h : Given) (db : Db)
    → finish_review later key t g (finish_review now key s h db)
      ≡ finish_review later key t (merge g h) db
unfolding finish_review
finish_review-finish_review now later key s t g h db =
    ap (λ (rows : List Review). record db { reviews = rows })
      (update-update key (write now s h) (write later t g) (write later t (merge g h)) db.reviews
        (unfold write in λ r. refl) (write-write now later s t g h))
