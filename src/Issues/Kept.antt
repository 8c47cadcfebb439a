-- ===== src/Issues/Kept.antt =====
-- An issue leaves the queue only with a decision.
use claude_code_reviewer.Prelude.{
  ℕ, suc, String, Bool, false, not, Option, none, some, List, [], ◌∷◌, ◌==◌, string_eq, ◌≡◌, refl,
  ◌∙◌, Bool-cases, inl, inr, ◌⊎◌,
}
use claude_code_reviewer.Config.{RepoConfig}
use claude_code_reviewer.Triage.{Action, Verdict, attempt, assign}
use claude_code_reviewer.Github.Issues.{IssueView, to_issue, found_issue, issue_meta, fixing_prs}
use claude_code_reviewer.Effects.{
  Answer, ok, gh_error, exception, World, M, pure, modify, raise, raise_exception, ask, ◌>>=◌,
  continue, say, Write, remove_label,
}
use claude_code_reviewer.Effects.Keeps.{Keeps, Keeps-modify, Uncounted, keeps_rules}
use claude_code_reviewer.Publish.{PublishResult}
use claude_code_reviewer.Publish.Issue.{IssueMeta, settle_issue, point_to_fix}
use claude_code_reviewer.Publish.Issue.Last.{removals, IsLast, IsSettled, settle_issue-IsSettled}
use claude_code_reviewer.Orchestrator.Tick.{ReviewRun}
use claude_code_reviewer.Issues.{
  Settled, Desk, notify, spend, ask_about_money, tell_person, to_fix, to_person, conclude,
  with_answer, with_call, with_verdict, with_fixes, with_issue, triage_one,
}

record Unwritten (old : List Write) (w : World) : Type 0 where
  pub writes : w.writes ≡ old

instance Unwritten_uncounted : {old : List Write} → Uncounted (Unwritten old)
Unwritten_uncounted = record { next = λ w h. record { writes = h.writes } }

-- Undecided, nothing was written; decided, the removal of the queue label is the last call that
-- GitHub took and the only new removal; ended by an exception, that holds or no label went off.
abbrev pub IsTriaged : List Write → Write → Answer (Option Settled) → World → Type 0
IsTriaged old call (ok none) after = after.writes ≡ old
IsTriaged old call (ok (some s)) after = IsLast old call after.writes
IsTriaged old call (gh_error why) after =
    (removals after.writes ≡ removals old) ⊎ IsLast old call after.writes
IsTriaged old call (exception why) after =
    (removals after.writes ≡ removals old) ⊎ IsLast old call after.writes

-- What is done once the issue is settled.
record Reports (s : Settled) (m : M (Option Settled)) : Type 0 where
  pub at : (w : World) → ((m w).0 ≡ ok (some s)) × ((m w).1.writes ≡ w.writes)

record Triages (old : List Write) (call : Write) (m : M (Option Settled)) : Type 0 where
  pub at : (w : World) → Unwritten old w → IsTriaged old call (m w).0 (m w).1

module _ (old : List Write) (call : Write) where
  Triages-none : Triages old call (pure none)
  unfolding pure
  Triages-none = record { at = λ w h. h.writes }

  Triages-raise_exception : (why : String) → Triages old call (raise_exception why)
  unfolding raise_exception removals
  Triages-raise_exception why = record { at = λ w h. inl (rw h.writes refl) }

  Triages-continue :
      {A : Type 0} (f : A → M (Option Settled)) (a : Answer A) (w : World)
      → Unwritten old w
      → ((v : A) → Triages old call (f v))
      → let (r, after) = continue a f w in IsTriaged old call r after
  Triages-continue f (ok v) w h k = (k v).at w h
  Triages-continue f (gh_error why) w h k = inl (rw h.writes refl)
  Triages-continue f (exception why) w h k = inl (rw h.writes refl)

  Triages-bind :
      {A : Type 0} (m : M A) (f : A → M (Option Settled))
      → Keeps (Unwritten old) m
      → ((v : A) → Triages old call (f v))
      → Triages old call (m >>= f)
  unfolding ◌>>=◌
  Triages-bind m f km k = record {
    at = λ w h. let (r, after) = m w in Triages-continue f r after (km.at w h) k;
  }

  Triages-report :
      (s : Settled) (m : M (Option Settled)) (a : Answer PublishResult) (w : World)
      → Reports s m
      → IsSettled old call (a, w)
      → let (r, after) = continue a (λ _. m) w in IsTriaged old call r after
  Triages-report s m (ok r) w k (ws, e, q) = rw (k.at w).0 (ws, (k.at w).1 ∙ e, q)
  Triages-report s m (gh_error why) w k q = q
  Triages-report s m (exception why) w k q = q

  IsSettled-moved :
      (new : List Write) (r : Answer PublishResult × World)
      → new ≡ old
      → IsSettled new call r
      → IsSettled old call r
  IsSettled-moved new r e q = rw⁻¹ e q

module _ (d : Desk) (repo : RepoConfig) (old : List Write) where
  Unwritten-spend :
      (issue : IssueMeta) (run : ReviewRun)
      → Keeps (Unwritten old) (modify (spend d repo issue run))
  unfolding spend
  Unwritten-spend issue run =
      Keeps-modify (spend d repo issue run) λ w h. record { writes = h.writes }

  Unwritten-ask_about_money :
      (issue : IssueMeta) (dry_run : Bool)
      → Keeps (Unwritten old) (ask_about_money d repo issue dry_run)
  unfolding ask_about_money
  Unwritten-ask_about_money issue dry_run = search (keeps_rules, Unwritten-spend) depth 9

  Unwritten-fixing_prs : (n : ℕ) → Keeps (Unwritten old) (fixing_prs d.issues repo.slug n)
  unfolding fixing_prs
  Unwritten-fixing_prs n = search keeps_rules

module _ (d : Desk) (repo : RepoConfig) where
  Reports-pure : (s : Settled) → Reports s (pure (some s))
  unfolding pure
  Reports-pure s = record { at = λ w. (refl, refl) }

  Reports-tell_person :
      (issue : IssueMeta) (reason error : String) (s : Settled)
      → Reports s (tell_person d repo issue reason error false >>= λ _. pure (some s))
  unfolding tell_person notify say pure ◌>>=◌
  Reports-tell_person issue reason error s = record {
    at = λ w. elim (Bool-cases d.jane) [ inl y ↦ rw y (refl, refl) | inr y ↦ rw y (refl, refl) ];
  }

  module _ (number : ℕ) (issue : IssueMeta) (old : List Write) where
    abbrev taken_off : Write
    taken_off = remove_label repo.slug issue.number repo.issues.clears

    Triages-settled :
        (said label : String) (assignee : List String) (s : Settled) (m : M (Option Settled))
        → Reports s m
        → Triages old taken_off
            (settle_issue d.hub d.name repo issue said label assignee "" false >>= λ _. m)
    unfolding ◌>>=◌
    Triages-settled said label assignee s m k = record {
      at = λ w h.
          let (r, after) = settle_issue d.hub d.name repo issue said label assignee "" false w in
          Triages-report old taken_off s m r after k (
            IsSettled-moved old taken_off w.writes (r, after) h.writes
              (settle_issue-IsSettled d.hub d.name repo issue said label assignee "" w));
    }

    Triages-conclude :
        (v : Verdict) (a : Action) (error : String)
        → Triages old taken_off (conclude d repo number issue false v a error)
    unfolding conclude to_fix to_person
    Triages-conclude v attempt error = Triages-settled _ _ _ _ _ (Reports-pure _)
    Triages-conclude v Action.ask error =
        Triages-settled _ _ _ _ _ (Reports-tell_person issue v.reason error _)
    Triages-conclude v assign error =
        Triages-settled _ _ _ _ _ (Reports-tell_person issue v.reason error _)

    Triages-with_answer :
        (o : Option (Verdict × String))
        → Triages old taken_off (with_answer d repo number issue false o)
    unfolding with_answer
    Triages-with_answer none = Triages-none old taken_off
    Triages-with_answer (some (v, error)) = Triages-conclude v v.action error

    Triages-with_call :
        (v : Verdict) (a : Action) → Triages old taken_off (with_call d repo number issue false v a)
    unfolding with_call
    Triages-with_call v attempt = Triages-conclude v attempt ""
    Triages-with_call v Action.ask =
        Triages-bind old taken_off _ _ (Unwritten-ask_about_money d repo old issue false)
          Triages-with_answer
    Triages-with_call v assign = Triages-conclude v assign ""

    Triages-with_verdict :
        (o : Option Verdict) → Triages old taken_off (with_verdict d repo number issue false o)
    unfolding with_verdict
    Triages-with_verdict none = Triages-raise_exception old taken_off "KeyError"
    Triages-with_verdict (some v) = Triages-with_call v v.action

    Triages-with_fixes :
        (prs : List String) → Triages old taken_off (with_fixes d repo number issue false prs)
    unfolding with_fixes point_to_fix
    Triages-with_fixes [] = Triages-with_verdict _
    Triages-with_fixes (pr ∷ prs) = Triages-settled _ _ _ _ _ (Reports-pure _)

    Triages-with_issue : Triages old taken_off (with_issue d repo number false issue)
    unfolding with_issue
    Triages-with_issue = elim (Bool-cases (not (issue.state == "OPEN"))) [
      | inl y ↦ rw y (Triages-none old taken_off)
      | inr y ↦ rw y (
          Triages-bind old taken_off _ _ (Unwritten-fixing_prs d repo old number)
            Triages-with_fixes)
    ]

module _ (d : Desk) (repo : RepoConfig) (number : ℕ) where
  abbrev pub queue_label : Write
  queue_label = remove_label repo.slug number repo.issues.clears

  Triages-renumbered :
      (old : List Write) (n m : ℕ) (x : M (Option Settled))
      → n ≡ m
      → Triages old (remove_label repo.slug n repo.issues.clears) x
      → Triages old (remove_label repo.slug m repo.issues.clears) x
  Triages-renumbered old n m x e q = rw⁻¹ e q

  -- The issue that was asked for is the one that is read.
  Triages-read :
      (old : List Write) (got : Answer (Option IssueView)) (w : World)
      → ((v : IssueView) → got ≡ ok (some v) → v.number ≡ number)
      → Unwritten old w
      → let (read, after) = continue got (found_issue d.issues repo.slug number) w in
        let (r, last) = continue read (with_issue d repo number false) after in
        IsTriaged old queue_label r last
  unfolding found_issue pure raise to_issue
  Triages-read old (ok none) w same h = inl (rw h.writes refl)
  Triages-read old (ok (some v)) w same h =
      let m = with_issue d repo number false (to_issue v) in
      (Triages-renumbered old v.number number m (same v refl)
          (Triages-with_issue d repo number (to_issue v) old)).at
        w h
  Triages-read old (gh_error why) w same h = inl (rw h.writes refl)
  Triages-read old (exception why) w same h = inl (rw h.writes refl)

  -- A pass that is no dry one takes an issue out of the queue of bugs only with a decision, and
  -- last: where it returns nothing, GitHub took no call that changes something; where it returns a
  -- decision, the removal of the queue label is the last call taken and the only new removal of a
  -- label; where it ends in an exception, either no label was taken off, or that removal, made
  -- last, took effect though its answer was lost. GitHub answers with the issue asked for.
  pub triage_one-IsTriaged :
      ((n : ℕ) (v : IssueView) → d.issues.view repo.slug number n ≡ ok (some v) → v.number ≡ number)
      → (w : World)
      → let (r, after) = triage_one d repo number false w in IsTriaged w.writes queue_label r after
  unfolding triage_one issue_meta ask ◌>>=◌
  triage_one-IsTriaged same w =
      Triages-read w.writes (d.issues.view repo.slug number w.calls)
        (record w { calls = suc w.calls }) (same w.calls) (record { writes = refl })
