-- ===== src/Triage/Settled.antt =====
-- What `verdict` settles, whatever the order of the rules.
use claude_code_reviewer.Prelude.{
  String, Bool, true, false, not, ◌&&◌, ◌||◌, Option, none, some, [], string_eq, any, all, ◌≡◌, ◌↔◌,
  arith, refl, is_some,
}
use claude_code_reviewer.Triage.{
  Mapping, Rules, attempt, ask, assign, Verdict, Loop, stop, go_on, settle, require_loop,
  needs_loop, block_loop, after_require, verdict,
}
use claude_code_reviewer.Triage.Loops.{
  is_allowed, is_open, is_answered, is_blocked, is_clear, action_is, is_stop, is_stop-require_loop,
  pending, allowed_lem, is_sound, is_sound-require_loop, assigns, is_some-needs_loop,
  assigns-needs_loop, assigns_block, is_some-block_loop, assigns-block_loop, allowed→open,
}

settle_lem :
    (n : Option Verdict) (b : Option (Option Verdict)) (p : Option Verdict)
    → assigns n ≡ true
    → assigns_block b ≡ true
    → is_sound (go_on p) ≡ true
    → (action_is attempt (settle n b p) ≡ (not (is_some p) && not (is_some n) && not (is_some b)))
      × (action_is ask (settle n b p) ≡ (is_some p && not (is_some n) && not (is_some b)))
unfolding settle assigns assigns_block is_sound action_is
settle_lem (some v) b none hn hb hp = ground arith
settle_lem (some v) b (some w) hn hb hp = ground arith
settle_lem none (some none) none hn hb hp = (refl, refl)
settle_lem none (some none) (some w) hn hb hp = (refl, refl)
settle_lem none (some (some v)) none hn hb hp = ground arith
settle_lem none (some (some v)) (some w) hn hb hp = ground arith
settle_lem none none none hn hb hp = (refl, refl)
settle_lem none none (some v) hn hb hp = ground arith

assign_only :
    (v : Verdict)
    → is_sound (stop v) ≡ true
    → (action_is attempt (some v) ≡ false) × (action_is ask (some v) ≡ false)
unfolding is_sound action_is
assign_only v h = ground arith

after_require_lem :
    (answers : Mapping String) (rules : Rules) (sentry : Bool) (l : Loop)
    → is_sound l ≡ true
    → (action_is attempt (after_require answers rules sentry l) ≡ (
        not (is_stop l)
        && not (is_some (pending l))
        && (sentry || all (is_answered answers) rules.needs)
        && not (any (is_blocked answers) rules.block_if)))
      × (action_is ask (after_require answers rules sentry l) ≡ (
          not (is_stop l)
          && is_some (pending l)
          && (sentry || all (is_answered answers) rules.needs)
          && not (any (is_blocked answers) rules.block_if)))
unfolding after_require is_stop pending
after_require_lem answers rules sentry (stop v) h = assign_only v h
after_require_lem answers rules true (go_on p) h = ground (
  arith,
  settle_lem (needs_loop answers []) (block_loop answers rules.block_if) p,
  is_some-needs_loop answers [],
  assigns-needs_loop answers [],
  is_some-block_loop answers rules.block_if,
  assigns-block_loop answers rules.block_if,
)
after_require_lem answers rules false (go_on p) h = ground (
  arith,
  settle_lem (needs_loop answers rules.needs) (block_loop answers rules.block_if) p,
  is_some-needs_loop answers rules.needs,
  assigns-needs_loop answers rules.needs,
  is_some-block_loop answers rules.block_if,
  assigns-block_loop answers rules.block_if,
)

sound_at_start :
    (rules : Rules) (answers : Mapping String)
    → is_sound (require_loop rules answers rules.require none) ≡ true
unfolding is_sound
sound_at_start rules answers = is_sound-require_loop rules answers rules.require none refl

abbrev no_rules : Option Verdict
no_rules = some (record { action = assign; reason = "no triage rules configured" })

no_rules_lem : (action_is attempt no_rules ≡ false) × (action_is ask no_rules ≡ false)
unfolding action_is
no_rules_lem = (refl, refl)

-- An issue may be attempted without a question exactly when there are rules, every required
-- answer is one of those allowed, every needed field is answered (or a Sentry issue is linked),
-- and no answer is a blocked one.
pub verdict-attempt_iff :
    (answers : Mapping String) (rules : Rules) (sentry : Bool)
    → (action_is attempt (verdict answers rules sentry) ≡ true)
      ↔ ((is_clear answers rules sentry ≡ true) × (all (is_allowed answers) rules.require ≡ true))
unfolding verdict is_clear
verdict-attempt_iff answers rules sentry = ground (
  arith,
  no_rules_lem,
  after_require_lem answers rules sentry (require_loop rules answers rules.require none),
  sound_at_start rules answers,
  is_stop-require_loop rules answers rules.require none,
  allowed_lem rules answers rules.require,
  allowed→open rules answers rules.require,
)

-- A question is asked exactly when nothing else stands in the way: there are rules, the needed
-- fields are answered (or a Sentry issue is linked), no answer is a blocked one, every required
-- answer is allowed or left open by the form, and one of them is not allowed.
pub verdict-ask_iff :
    (answers : Mapping String) (rules : Rules) (sentry : Bool)
    → (action_is ask (verdict answers rules sentry) ≡ true) ↔ (
        (is_clear answers rules sentry ≡ true)
        × (all (is_open rules answers) rules.require ≡ true)
        × (all (is_allowed answers) rules.require ≡ false))
unfolding verdict is_clear
verdict-ask_iff answers rules sentry = ground (
  arith,
  no_rules_lem,
  after_require_lem answers rules sentry (require_loop rules answers rules.require none),
  sound_at_start rules answers,
  is_stop-require_loop rules answers rules.require none,
  allowed_lem rules answers rules.require,
  allowed→open rules answers rules.require,
)
