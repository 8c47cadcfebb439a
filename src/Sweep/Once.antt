-- ===== src/Sweep/Once.antt =====
-- What the sweep has decided: each thread once, and every thread of a run.
use claude_code_reviewer.Prelude.{
  ℕ, suc, ◌+◌, true, false, Option, none, some, List, [], ◌∷◌, ◌≡◌, arith, length, string_eq,
  Bool-cases, inl, inr,
}
use claude_code_reviewer.Config.{RepoConfig}
use claude_code_reviewer.Github.Threads.{Thread}
use claude_code_reviewer.Contract.Verdicts.{ThreadVerdict, ThreadAction, resolve, reply, leave}
use claude_code_reviewer.Effects.{
  Answer, ok, gh_error, exception, World, pure, store_get, catch, handled, continue, ◌>>=◌,
}
use claude_code_reviewer.Orchestrator.Tick.{Process}
use claude_code_reviewer.Sweep.{
  Done, count_action, action_on, settled, carry_out, answer_thread, answer_all, verdict_for,
}

-- The threads that were decided on.
unfoldable pub total : Done → ℕ
total d = d.resolved + d.replied + d.left + d.unanswered + d.failed

-- A turn that adds one thread, and does not end in a `GhError`.
abbrev AddsOne : Answer (Done → Done) → Type 0
AddsOne (ok add) = (d : Done) → total (add d) ≡ suc (total d)
AddsOne (gh_error why) = true ≡ false
AddsOne (exception why) = Unit

add_suc : (a b : ℕ) → suc a + b ≡ suc (a + b)
add_suc a b = omega arith

sum_suc : (a b : ℕ) → a + suc b ≡ suc (a + b)
sum_suc a b = omega arith

module _ (p : Process) (repo : RepoConfig) (pr : ℕ) where
  settled_ok : (t : Thread) (w : World) → (settled p repo pr t w).0 ≡ ok tt
  unfolding settled ◌>>=◌ store_get pure
  settled_ok t w = ground arith

  total-count_action : (a : ThreadAction) (d : Done) → total (count_action a d) ≡ suc (total d)
  unfolding total
  total-count_action resolve d = omega arith
  total-count_action reply d = omega arith
  total-count_action leave d = omega arith

  AddsOne-failed :
      (t : Thread) (w : World)
      → AddsOne
          ((settled p repo pr t >>= λ _. pure (λ (d : Done). record d { failed = suc d.failed }))
            w).0
  unfolding settled ◌>>=◌ store_get pure total
  AddsOne-failed t w = elim (Bool-cases p.mode.no_publish) [
    | inl y ↦ rw y λ d. omega arith
    | inr y ↦ rw y λ d. omega arith
  ]

  AddsOne-handled :
      (t : Thread) (a : ThreadAction) (r : Answer (Unit {0})) (w : World)
      → let (b, after) = continue r (λ _. pure (count_action a)) w in
        AddsOne
          (handled b
            (λ why.
              settled p repo pr t >>= λ _. pure (λ (d : Done). record d { failed = suc d.failed }))
            after).0
  unfolding pure
  AddsOne-handled t a (ok u) w = total-count_action a
  AddsOne-handled t a (gh_error why) w = AddsOne-failed t w
  AddsOne-handled t a (exception why) w = tt

  AddsOne-answer_thread :
      (t : Thread) (o : Option ThreadVerdict) (w : World)
      → AddsOne (answer_thread p repo pr t o w).0
  unfolding answer_thread catch ◌>>=◌ settled store_get pure total
  AddsOne-answer_thread t none w = elim (Bool-cases p.mode.no_publish) [
    | inl y ↦ rw y λ d. omega arith
    | inr y ↦ rw y λ d. omega arith
  ]
  AddsOne-answer_thread t (some v) w =
      let a = action_on v.action t.outdated in
      AddsOne-handled t a (carry_out p repo pr a t v w).0 (carry_out p repo pr a t v w).1

-- A run of the loop that decided on so many threads, and does not end in a `GhError`.
abbrev pub Decides : ℕ → Answer Done → Type 0
Decides n (ok d) = total d ≡ n
Decides n (gh_error why) = true ≡ false
Decides n (exception why) = Unit

module _ (p : Process) (repo : RepoConfig) (pr : ℕ) (verdicts : List ThreadVerdict) where
  Decides-continue :
      (ts : List Thread) (d : Done) (r : Answer (Done → Done)) (w : World)
      → AddsOne r
      → ((d : Done) (w : World)
          → Decides (total d + length ts) (answer_all p repo pr verdicts ts d w).0)
      → Decides
          (suc (total d + length ts))
          (continue r (λ add. answer_all p repo pr verdicts ts (add d)) w).0
  Decides-continue ts d (ok add) w h k =
      rw⁻¹ (add_suc (total d) (length ts)) (rw⁻¹ (h d) (k (add d) w))
  Decides-continue ts d (gh_error why) w h k = h
  Decides-continue ts d (exception why) w h k = tt

  -- No thread of a paid run is lost: unless an exception that is no `GhError` ends it, the loop
  -- over the threads that were offered returns, whatever GitHub refuses, and the counts of what
  -- was done add up to one for each thread.
  pub answer_all-Decides :
      (ts : List Thread) (d : Done) (w : World)
      → Decides (total d + length ts) (answer_all p repo pr verdicts ts d w).0
  unfolding answer_all ◌>>=◌ pure
  answer_all-Decides [] d w = omega arith
  answer_all-Decides (t ∷ ts) d w =
      let first = answer_thread p repo pr t (verdict_for verdicts t.comment_id) in
      rw (sum_suc (total d) (length ts)) (
        Decides-continue ts d (first w).0 (first w).1
          (AddsOne-answer_thread p repo pr t (verdict_for verdicts t.comment_id) w)
          (answer_all-Decides ts))
