-- ===== src/Budget/Slots/Bounds.antt =====
-- How far concurrent reviews can go past the day's dollars.
use claude_code_reviewer.Prelude.{
  ℕ, zero, suc, ◌+◌, ◌-◌, ◌*◌, ◌≤◌, ◌<◌, ◌≡◌, refl, arith, leb→le, subst,
}
use claude_code_reviewer.Budget.Slots.{
  Slots, Limits, admit, leave, bill, bill_aside, Step, Prompt, Reach,
}

module _ (l : Limits) where
  cap_kept : {s t : Slots} → Step l s t → s.inflight ≤ l.cap → t.inflight ≤ l.cap
  unfolding admit leave bill bill_aside
  cap_kept (Step.admitted s a) h = ground arith
  cap_kept (Step.left s cost p q) h = omega arith
  cap_kept (Step.billed s cost p) h = h
  cap_kept (Step.outside s cost) h = h

  -- Whatever the schedule, the containers in flight never pass the cap.
  pub inflight-le-cap : {s t : Slots} → Reach l s t → s.inflight ≤ l.cap → t.inflight ≤ l.cap
  inflight-le-cap Reach.start h = h
  inflight-le-cap (Reach.next r st) h = cap_kept st (inflight-le-cap r h)

  -- What was spent, what is owed, and a reserve for each run in flight fit in the day's dollars and
  -- what was spent outside `_slot`.
  abbrev IsCovered : Slots → Type 0
  IsCovered s = s.spent + s.unbilled + s.inflight * l.reserve ≤ l.daily + s.aside

  mul_suc_left : (n r : ℕ) → suc n * r ≡ r + n * r
  mul_suc_left n r = omega arith

  leave_covered : (n r c : ℕ) → 0 < n → c ≤ r → c + (n - 1) * r ≤ n * r
  leave_covered zero r c p q = absurd (omega arith)
  leave_covered (suc n) r c p q =
      let pred : suc n - 1 ≡ n = omega arith in rw pred (omega (arith, mul_suc_left n r))

  Prompt-IsCovered : {s t : Slots} → Prompt l s t → IsCovered s → IsCovered t
  unfolding admit leave bill bill_aside
  Prompt-IsCovered Prompt.here h = h
  Prompt-IsCovered (Prompt.admitted {t = t} r clear a) h =
      omega (arith, leb→le (t.spent + (t.inflight + 1) * l.reserve) l.daily (ground arith))
  Prompt-IsCovered (Prompt.left {t = t} cost r p q) h =
      omega (arith, Prompt-IsCovered r h, leave_covered t.inflight l.reserve cost p q)
  Prompt-IsCovered (Prompt.billed cost r p) h = omega (arith, Prompt-IsCovered r h)
  Prompt-IsCovered (Prompt.outside cost r) h = omega (arith, Prompt-IsCovered r h)

  -- From a day whose spend fits, where each run in a slot costs its reserve at most and every
  -- admission finds all ended runs billed, the recorded spend passes the day's dollars by at most
  -- what the runs outside `_slot`, the money questions and the fixes, have recorded.
  pub spent-le-daily :
      {s t : Slots}
      → Prompt l s t
      → s.inflight ≡ 0
      → s.unbilled ≡ 0
      → s.aside ≡ 0
      → s.spent ≤ l.daily
      → t.spent ≤ l.daily + t.aside
  spent-le-daily {s} r i u o h = omega (arith, Prompt-IsCovered r (start_covered i u h))
    where
      start_covered : s.inflight ≡ 0 → s.unbilled ≡ 0 → s.spent ≤ l.daily → IsCovered s
      start_covered i u h = ground arith

  -- One review after another ends unbilled, each admitted on the same stale number.
  owing : (s : Slots) → ℕ → Slots
  owing s k = record s { unbilled = s.unbilled + k * l.reserve }

  owing-zero : (s : Slots) → s ≡ owing s 0
  unfolding owing
  owing-zero s = ground arith

  -- A run more, admitted at the old number and left unbilled, is owed.
  owing-suc :
      (s : Slots) (k : ℕ)
      → s.inflight ≡ 0
      → leave l l.reserve (admit l (owing s k)) ≡ owing s (suc k)
  unfolding owing admit leave
  owing-suc s k i = ground (arith, suc_mul k)
    where
      suc_mul : (k : ℕ) → suc k * l.reserve ≡ k * l.reserve + l.reserve
      suc_mul k = omega arith

  Reach-owing :
      (s : Slots) (k : ℕ)
      → s.inflight ≡ 0
      → 0 < l.cap
      → s.spent + l.reserve ≤ l.daily
      → Reach l s (owing s k)
  Reach-owing s zero i c h = subst (λ u. Reach l s u) (owing-zero s) Reach.start
  Reach-owing s (suc k) i c h =
      subst (λ u. Reach l s u) (owing-suc s k i)
        (Reach.next
          (Reach.next (Reach-owing s k i c h)
            (Step.admitted (owing s k) (unfold owing in ground arith)))
          (Step.left (admit l (owing s k)) l.reserve (unfold admit in omega arith) (omega arith)))

  -- Where an ended run waits for its bill, as an approval does while GitHub is asked for its
  -- build, the gate admits on a stale number: from any state with no run in flight and dollars
  -- left for one, with a cap of one run at least, some schedule of runs that cost their reserve
  -- records k reserves more, for every k.
  pub overspend :
      (s : Slots) (k : ℕ)
      → s.inflight ≡ 0
      → 0 < l.cap
      → s.spent + l.reserve ≤ l.daily
      → (t : Slots) × Reach l s t × (t.spent ≡ s.spent + k * l.reserve)
  overspend s k i c h = (
    bill l (k * l.reserve) (owing s k),
    Reach.next (Reach-owing s k i c h)
        (Step.billed (owing s k) (k * l.reserve) (unfold owing in omega arith)),
    unfold owing bill in refl,
  )
