-- ===== src/Github/Checks/Outcome.antt =====
-- What the CI verdicts say of the raw checks, past the sorting and the deduplication.
use claude_code_reviewer.Prelude.{
  String, Bool, false, not, ◌&&◌, ◌||◌, List, [], ◌∷◌, any, contains, is_empty, ◌≡◌, refl, ◌∙◌,
  arith, eq_iff, string_eq, if◌then◌else◌, ap, Bool-cases, inl, inr,
}
use claude_code_reviewer.Github.Checks.{
  Check, Bucket, red, waiting, green, bucket, same_bucket, names_in, insert_sorted, sorted_set,
  check_name, kept, summarize_checks, ci_outcome, failing_checks,
}

any-insert_sorted :
    (p : String → Bool) (s : String) (names : List String)
    → any p (insert_sorted s names) ≡ (p s || any p names)
unfolding insert_sorted
any-insert_sorted p s [] = refl
any-insert_sorted p s (t ∷ ts) = ground (arith, any-insert_sorted p s ts, eq_iff s t)

-- `sorted(set(names))` holds the same names.
pub any-sorted_set :
    (p : String → Bool) (names : List String) → any p (sorted_set names) ≡ any p names
unfolding sorted_set
any-sorted_set p [] = refl
any-sorted_set p (s ∷ names) =
    any-insert_sorted p s (sorted_set names) ∙ ap (λ b. p s || b) (any-sorted_set p names)

is_empty-kept :
    (ignore names : List String)
    → is_empty (kept ignore names) ≡ not (any (λ n. not (contains ignore n)) names)
is_empty-kept ignore [] = refl
is_empty-kept ignore (n ∷ names) = ground (arith, is_empty-kept ignore names)

-- Some check in this bucket is not ignored.
abbrev pub some_kept : Bucket → List String → List Check → Bool
some_kept b ignore checks =
    any (λ c. same_bucket (bucket c) b && not (contains ignore (check_name c))) checks

any-names_in :
    (b : Bucket) (ignore : List String) (checks : List Check)
    → same_bucket b Bucket.other ≡ false
    → any (λ n. not (contains ignore n)) (names_in b checks) ≡ some_kept b ignore checks
unfolding names_in
any-names_in b ignore [] h = refl
any-names_in b ignore (c ∷ checks) h = elim (Bool-cases (same_bucket (bucket c) b)) [
  | inl y ↦ ground (arith, any-names_in b ignore checks h)
  | inr n ↦ ground (arith, any-names_in b ignore checks h)
]

is_empty-kept-bucket :
    (b : Bucket) (ignore : List String) (checks : List Check)
    → same_bucket b Bucket.other ≡ false
    → is_empty (kept ignore (sorted_set (names_in b checks))) ≡ not (some_kept b ignore checks)
is_empty-kept-bucket b ignore checks h =
    is_empty-kept ignore (sorted_set (names_in b checks))
    ∙ ap not (
        any-sorted_set (λ n. not (contains ignore n)) (names_in b checks)
        ∙ any-names_in b ignore checks h)

-- The verdict on a build, read off the raw checks: red when a check that is not ignored fails,
-- waiting when one still runs or none passes, and green otherwise.
pub ci_outcome-raw :
    (checks : List Check) (ignore : List String)
    → ci_outcome checks ignore ≡ (
        if some_kept Bucket.failing ignore checks
        then red
        else if some_kept Bucket.running ignore checks
            || not (some_kept Bucket.passing ignore checks)
        then waiting
        else green)
unfolding ci_outcome
ci_outcome-raw checks ignore = ground (
  arith,
  is_empty-kept-bucket Bucket.failing ignore checks refl,
  is_empty-kept-bucket Bucket.running ignore checks refl,
  is_empty-kept-bucket Bucket.passing ignore checks refl,
)

-- Gate 6 has an empty red list exactly when no check that is not ignored fails.
pub is_empty-failing_checks :
    (checks : List Check) (ignore : List String)
    → is_empty (failing_checks checks ignore) ≡ not (some_kept Bucket.failing ignore checks)
unfolding failing_checks summarize_checks
is_empty-failing_checks checks ignore = is_empty-kept-bucket Bucket.failing ignore checks refl
