-- ===== src/Gates/Order.antt =====
-- When the policy reviews, holds or notes, and what it leaves behind.
use claude_code_reviewer.Prelude.{
  ℕ, Bool, true, false, not, ◌&&◌, ◌||◌, List, [], ◌∷◌, any, find, contains, ◌≡◌, ◌≢◌, refl, ◌↔◌,
  arith, string_eq, nat_eq, ◌==◌, ltb, is_some,
}
use claude_code_reviewer.Config.{RepoConfig}
use claude_code_reviewer.Github.Checks.{PrMeta, Bucket, failing_checks}
use claude_code_reviewer.Github.Checks.Outcome.{some_kept, is_empty-failing_checks}
use claude_code_reviewer.Gates.{Action, review, hold, ci_note, label_hold, evaluate}

is_some-find {ℓ} : {A : Type ℓ} (p : A → Bool) (xs : List A) → is_some (find p xs) ≡ any p xs
is_some-find p [] = refl
is_some-find p (x ∷ xs) = ground (arith, is_some-find p xs)

-- The pull request carries a label that says nobody is ready for it.
abbrev pub is_braked : PrMeta → RepoConfig → Bool
is_braked meta repo = any (contains meta.labels) (repo.needs_work_label ∷ repo.hold_labels)

pub is_some-label_hold :
    (meta : PrMeta) (repo : RepoConfig) → is_some (label_hold meta repo) ≡ is_braked meta repo
unfolding label_hold
is_some-label_hold meta repo =
    ground (arith, is_some-find (contains meta.labels) (repo.needs_work_label ∷ repo.hold_labels))

abbrev is_review : Action → Bool
is_review review = true
is_review _ = false

is_review_iff : (a : Action) → (a ≡ review) ↔ (is_review a ≡ true)
is_review_iff a = ground arith

-- A CI check that is not ignored fails.
abbrev pub is_red : PrMeta → RepoConfig → Bool
is_red meta repo = some_kept Bucket.failing repo.ignore_checks meta.checks

-- `evaluate` answers `review` exactly when no brake label is on, files change, the commit was not
-- judged, no thread waits for the author, and no check that counts is red. What its callers ask
-- besides, the done labels, the key and the budget, is no part of this.
pub evaluate-review_iff :
    (meta : PrMeta) (repo : RepoConfig) (sha_judged : Bool) (n : ℕ)
    → ((evaluate meta repo sha_judged n).action ≡ review) ↔ (
        (is_braked meta repo ≡ false)
        × (meta.changed_files ≢ 0)
        × (sha_judged ≡ false)
        × (n ≡ 0)
        × (is_red meta repo ≡ false))
unfolding evaluate label_hold
evaluate-review_iff meta repo sha_judged n = ground (
  arith,
  is_some-find (contains meta.labels) (repo.needs_work_label ∷ repo.hold_labels),
  is_empty-failing_checks meta.checks repo.ignore_checks,
)

-- The decision of `evaluate` is flagged as one to record exactly when no brake label is on and
-- either no file changes or the commit was judged already. Whether the caller then writes it,
-- which a quiet run does not, is no part of this.
pub evaluate-recorded_iff :
    (meta : PrMeta) (repo : RepoConfig) (sha_judged : Bool) (n : ℕ)
    → (((evaluate meta repo sha_judged n).action ≡ hold)
        × ((evaluate meta repo sha_judged n).recorded ≡ true))
      ↔ ((is_braked meta repo ≡ false) × ((meta.changed_files == 0 || sha_judged) ≡ true))
unfolding evaluate label_hold
evaluate-recorded_iff meta repo sha_judged n =
    ground (arith, is_some-find (contains meta.labels) (repo.needs_work_label ∷ repo.hold_labels))

-- The operator is told of a hold exactly when no brake label is on, files change, and the commit
-- was judged already or threads wait for the author.
pub evaluate_tells :
    (meta : PrMeta) (repo : RepoConfig) (sha_judged : Bool) (n : ℕ)
    → is_some (evaluate meta repo sha_judged n).dm
      ≡ (not (is_braked meta repo) && not (meta.changed_files == 0) && (sha_judged || ltb 0 n))
unfolding evaluate label_hold
evaluate_tells meta repo sha_judged n =
    ground (arith, is_some-find (contains meta.labels) (repo.needs_work_label ∷ repo.hold_labels))

-- A note about CI names the red checks, at least one, and leaves no row, so that a green build
-- brings the pull request back.
pub evaluate-ci_note :
    (meta : PrMeta) (repo : RepoConfig) (sha_judged : Bool) (n : ℕ)
    → (evaluate meta repo sha_judged n).action ≡ ci_note
    → ((evaluate meta repo sha_judged n).checks ≡ failing_checks meta.checks repo.ignore_checks)
      × ((evaluate meta repo sha_judged n).checks ≢ [])
      × ((evaluate meta repo sha_judged n).recorded ≡ false)
unfolding evaluate label_hold
evaluate-ci_note meta repo sha_judged n h = ground arith
