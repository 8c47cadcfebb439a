-- ===== src/Publish/Issue/Last.antt =====
-- The queue label of an issue comes off last.
use claude_code_reviewer.Prelude.{
  suc, String, Bool, true, false, List, [], ◌∷◌, ◌++◌, ◌==◌, string_eq, ◌≡◌, refl, arith, ap, ◌∙◌,
  ◌⊎◌, inl, inr, if◌then◌else◌,
}
use claude_code_reviewer.Config.{RepoConfig}
use claude_code_reviewer.Effects.{
  Answer, ok, gh_error, exception, World, pure, send, sent, put, Taken, ◌>>=◌, ◌>>◌, continue,
  Write, remove_label,
}
use claude_code_reviewer.Effects.Keeps.{Keeps, keeps_rules}
use claude_code_reviewer.Effects.Hub.{Hub}
use claude_code_reviewer.Publish.{PublishResult}
use claude_code_reviewer.Publish.Issue.{IssueMeta, settle_steps, settle_issue, assign_if, label_if}

abbrev removes_label : Write → Bool
removes_label (remove_label repo n label) = true
removes_label _ = false

-- As many label removals as there were.
unfoldable pub removals : List Write → List Write
removals [] = []
removals (c ∷ cs) = let rest = removals cs in if removes_label c then c ∷ rest else rest

removals-append : (xs ys : List Write) → removals (xs ++ ys) ≡ removals xs ++ removals ys
unfolding removals
removals-append [] ys = refl
removals-append (x ∷ xs) ys = ground (arith, removals-append xs ys)

append_nil : (xs : List Write) → xs ++ [] ≡ xs
append_nil [] = refl
append_nil (x ∷ xs) = ap (λ l. x ∷ l) (append_nil xs)

record Queued (old : List Write) (w : World) : Type 0 where
  pub queued : removals w.writes ≡ removals old

Queued-put :
    (old : List Write) (landed : Bool) (call : Write) (w : World)
    → removes_label call ≡ false
    → Queued old w
    → Queued old (put landed call w)
unfolding removals
Queued-put old true call w e h = record {
  queued = removals-append w.writes (call ∷ []) ∙ rw e (append_nil (removals w.writes)) ∙ h.queued;
}
Queued-put old false call w e h = h

Queued-sent :
    (old : List Write) (call : Write) (a : Taken) (w : World)
    → removes_label call ≡ false
    → Queued old w
    → Queued old (sent call a w).1
Queued-sent old call (ok url, landed) w e h = Queued-put old true call w e h
Queued-sent old call (gh_error why, landed) w e h = Queued-put old landed call w e h
Queued-sent old call (exception why, landed) w e h = Queued-put old landed call w e h

module _ (hub : Hub) (old : List Write) where
  Queued-send :
      (call : Write) → removes_label call ≡ false → Keeps (Queued old) (send hub.takes call)
  unfolding send
  Queued-send call e = record {
    at = λ w h.
        Queued-sent old call (hub.takes w.calls call) (record w { calls = suc w.calls }) e
          (record { queued = h.queued });
  }

  module _ (name : String) (repo : RepoConfig) (issue : IssueMeta) where
    Queued-assign_if :
        (assignee : List String) → Keeps (Queued old) (assign_if hub name repo issue assignee)
    Queued-assign_if [] = search keeps_rules
    Queued-assign_if (a ∷ rest) = search (keeps_rules, Queued-send)

    Queued-label_if : (label : String) → Keeps (Queued old) (label_if hub name repo issue label)
    Queued-label_if label = search (keeps_rules, Queued-send)

    Queued-settle_steps :
        (said label : String) (assignee : List String)
        → Keeps (Queued old) (settle_steps hub name repo issue said label assignee)
    unfolding settle_steps
    Queued-settle_steps said label assignee =
        search (keeps_rules, Queued-send, Queued-assign_if, Queued-label_if)

-- The call is the last one of these, and the only new removal of a label.
abbrev pub IsLast : List Write → Write → List Write → Type 0
IsLast old call all_writes =
    (ws : List Write) × (all_writes ≡ ws ++ (call ∷ [])) × (removals ws ≡ removals old)

-- Done, the removal of the label is last; ended by an error, either no label was taken off or that
-- very call, made last, took effect unanswered.
abbrev pub IsSettled : List Write → Write → Answer PublishResult × World → Type 0
IsSettled old call (ok r, after) = IsLast old call after.writes
IsSettled old call (gh_error why, after) =
    (removals after.writes ≡ removals old) ⊎ IsLast old call after.writes
IsSettled old call (exception why, after) =
    (removals after.writes ≡ removals old) ⊎ IsLast old call after.writes

IsLast-put :
    (old : List Write) (landed : Bool) (call : Write) (w : World)
    → Queued old w
    → (removals (put landed call w).writes ≡ removals old)
      ⊎ IsLast old call (put landed call w).writes
IsLast-put old true call w h = inr (w.writes, refl, h.queued)
IsLast-put old false call w h = inl h.queued

IsSettled-sent :
    (old : List Write) (call : Write) (a : Taken) (r : PublishResult) (w : World)
    → Queued old w
    → let (b, after) = sent call a w in IsSettled old call (continue b (λ _. pure r) after)
unfolding pure
IsSettled-sent old call (ok url, landed) r w h = (w.writes, refl, h.queued)
IsSettled-sent old call (gh_error why, landed) r w h = IsLast-put old landed call w h
IsSettled-sent old call (exception why, landed) r w h = IsLast-put old landed call w h

IsSettled-stepped :
    (hub : Hub) (old : List Write) (call : Write) (a : Answer (Unit {0})) (r : PublishResult)
    (w : World)
    → Queued old w
    → IsSettled old call (continue a (λ _. send hub.takes call >> pure r) w)
unfolding ◌>>=◌ send
IsSettled-stepped hub old call (ok u) r w h =
    IsSettled-sent old call (hub.takes w.calls call) r (record w { calls = suc w.calls })
      (record { queued = h.queued })
IsSettled-stepped hub old call (gh_error why) r w h = inl h.queued
IsSettled-stepped hub old call (exception why) r w h = inl h.queued

-- An issue leaves its queue only when all else is done: where the settlement returns, the removal
-- of the queue label is the last call that GitHub took, and the only removal among the new ones;
-- where it ends in an exception, that holds or no label was taken off.
pub settle_issue-IsSettled :
    (hub : Hub) (name : String) (repo : RepoConfig) (issue : IssueMeta) (said label : String)
    (assignee : List String) (clears : String) (w : World)
    → IsSettled w.writes
        (remove_label repo.slug issue.number (if clears == "" then repo.issues.clears else clears))
        (settle_issue hub name repo issue said label assignee clears false w)
unfolding settle_issue ◌>>=◌
settle_issue-IsSettled hub name repo issue said label assignee clears w =
    let steps = settle_steps hub name repo issue said label assignee in
    IsSettled-stepped hub w.writes _ (steps w).0 _ (steps w).1 (
      (Queued-settle_steps hub w.writes name repo issue said label assignee).at w
        (record { queued = refl }))
