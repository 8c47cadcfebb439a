-- ===== src/Db/Reviews/Unjudged.antt =====
-- Statements after which no commit counts as judged that did not before.
use claude_code_reviewer.Prelude.{
  ℕ, String, Bool, true, List, [], ◌∷◌, map, any, ◌≡◌, arith, string_eq, nat_eq, ◌∙◌, sym,
}
use claude_code_reviewer.Gates.{State, is_judged}
use claude_code_reviewer.Db.Tables.{Db}
use claude_code_reviewer.Db.Board.{settle_done}
use claude_code_reviewer.Db.Reviews.{sha_was_judged, start_review, finish_review}
use claude_code_reviewer.Db.Reviews.Columns.{Given, write}
use claude_code_reviewer.Db.Reviews.Judged.{judged_at, sha_was_judged-start_review}

module _ {ℓ} {A : Type ℓ} where
  any-imp :
      (p q : A → Bool) (xs : List A)
      → ((x : A) → p x ≡ true → q x ≡ true)
      → any p xs ≡ true
      → any q xs ≡ true
  any-imp p q [] k h = h
  any-imp p q (x ∷ xs) k h = ground (arith, k x, any-imp p q xs k)

  any-map-imp :
      (p : A → Bool) (f : A → A) (xs : List A)
      → ((x : A) → p (f x) ≡ true → p x ≡ true)
      → any p (map f xs) ≡ true
      → any p xs ≡ true
  any-map-imp p f [] k h = h
  any-map-imp p f (x ∷ xs) k h = ground (arith, k x, any-map-imp p f xs k)

-- A commit that is judged in `db` was judged in `old`.
pub record Unjudged (old db : Db) : Type 0 where
  pub judged_before :
      (repo : String) (pr : ℕ) (sha : String)
      → sha_was_judged db repo pr sha ≡ true
      → sha_was_judged old repo pr sha ≡ true

pub Unjudged-settle_done_row :
    (repo : String) (pr : ℕ) (repo' : String) (pr' : ℕ) (sha : String) (db : Db)
    → sha_was_judged (settle_done repo pr db).1 repo' pr' sha ≡ true
    → sha_was_judged db repo' pr' sha ≡ true
unfolding settle_done sha_was_judged
Unjudged-settle_done_row repo pr repo' pr' sha db = any-map-imp _ _ db.reviews λ r. ground arith

pub Unjudged-finish_review_row :
    (now : ℕ) (key : String) (g : Given) (repo : String) (pr : ℕ) (sha : String) (db : Db)
    → sha_was_judged (finish_review now key State.failed g db) repo pr sha ≡ true
    → sha_was_judged db repo pr sha ≡ true
unfolding finish_review sha_was_judged write is_judged
Unjudged-finish_review_row now key g repo pr sha db = any-map-imp _ _ db.reviews λ r. ground arith

pub Unjudged-start_review_row :
    (now : ℕ) (key repo : String) (pr : ℕ) (sha requested_at : String) (repo' : String) (pr' : ℕ)
    (sha' : String) (db : Db)
    → sha_was_judged (start_review now key repo pr sha requested_at db) repo' pr' sha' ≡ true
    → sha_was_judged db repo' pr' sha' ≡ true
unfolding sha_was_judged
Unjudged-start_review_row now key repo pr sha requested_at repo' pr' sha' db h =
    any-imp _ (judged_at repo' pr' sha') db.reviews (λ r. ground arith)
      (sym (sha_was_judged-start_review now key repo pr sha requested_at db pr' repo' sha') ∙ h)
