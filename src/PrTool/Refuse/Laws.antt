-- ===== src/PrTool/Refuse/Laws.antt =====
-- Exactly which patches may become a pull request.
use claude_code_reviewer.Prelude.{
  ℕ, ◌≤◌, String, true, false, ◌||◌, none, List, [], ◌∷◌, any, length, strip, ◌≡◌, ◌≢◌, refl, ◌↔◌,
  arith, eq_iff, is_some, string_eq, Option-cases, inl, inr, sym,
}
use Prim.Native.String.{len}
use claude_code_reviewer.PrTool.Paths.{changed_paths, changed_lines}
use claude_code_reviewer.PrTool.Refuse.{
  is_outside, is_banned, is_test, refuse_path, refuse_change, refuse,
}

is_some-refuse_path :
    (paths : List String)
    → is_some (refuse_path paths) ≡ any (λ p. is_outside p || is_banned p) paths
unfolding refuse_path
is_some-refuse_path [] = refl
is_some-refuse_path (p ∷ paths) = ground (arith, is_some-refuse_path paths)

refuse_path-none_iff :
    (paths : List String)
    → (refuse_path paths ≡ none) ↔ (any (λ p. is_outside p || is_banned p) paths ≡ false)
refuse_path-none_iff paths =
    rw (sym (is_some-refuse_path paths)) (elim (Option-cases (refuse_path paths)) [
      | inl e ↦ rw e (ground arith)
      | inr (why, e) ↦ rw e (ground arith)
    ])

refuse_change-none_iff :
    (paths : List String) (lines : ℕ)
    → (refuse_change paths lines ≡ none) ↔ (
        (refuse_path paths ≡ none)
        × (any is_test paths ≡ true)
        × (length paths ≤ 12)
        × (lines ≤ 400))
unfolding refuse_change
refuse_change-none_iff paths lines = elim (Option-cases (refuse_path paths)) [
  | inl e ↦ rw e (ground arith)
  | inr (why, e) ↦ rw e (ground arith)
]

-- A patch is let through exactly when it is not blank, has 200000 bytes at most, and the paths
-- that `changed_paths` reads from its headers are not none, none of them starts with `../`, is
-- absolute or is off limits, one is a test's, they are 12 at most, and the changed lines are 400
-- at most.
pub refuse-none_iff :
    (patch : String)
    → (refuse patch ≡ none) ↔ (
        (strip patch ≢ "")
        × (len patch ≤ 200000)
        × (changed_paths patch ≢ [])
        × (any (λ p. is_outside p || is_banned p) (changed_paths patch) ≡ false)
        × (any is_test (changed_paths patch) ≡ true)
        × (length (changed_paths patch) ≤ 12)
        × (changed_lines patch ≤ 400))
unfolding refuse
refuse-none_iff patch = ground (
  arith,
  refuse_change-none_iff (changed_paths patch) (changed_lines patch),
  refuse_path-none_iff (changed_paths patch),
  eq_iff (strip patch) "",
)
