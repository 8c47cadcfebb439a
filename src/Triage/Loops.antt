-- ===== src/Triage/Loops.antt =====
-- What the three loops of `verdict` find, as tests on all the rules.
use claude_code_reviewer.Prelude.{
  String, Bool, true, false, not, ◌&&◌, ◌||◌, Option, none, some, List, [], ◌∷◌, ◌==◌, string_eq,
  any, all, contains, ◌≡◌, arith, refl, Option-cases, inl, inr, is_some,
}
use claude_code_reviewer.Triage.{
  Mapping, get, answer, Rules, has_rules, Action, attempt, ask, assign, Verdict, Loop, stop, go_on,
  asks_if, require_loop, needs_loop, block_loop, or_ask, said, or_unanswered,
}

-- The answer is one of those that the rule requires.
unfoldable pub is_allowed : Mapping String → (String × List String) → Bool
is_allowed answers (field, allowed) = contains allowed (answer answers field)

-- The answer leaves the rule open.
unfoldable pub is_open : Rules → Mapping String → (String × List String) → Bool
is_open rules answers (field, allowed) =
    contains allowed (answer answers field) || asks_if rules field (answer answers field)

unfoldable pub is_answered : Mapping String → String → Bool
is_answered answers field = not (answer answers field == "")

unfoldable pub is_blocked : Mapping String → (String × List String) → Bool
is_blocked answers (field, blocked) = contains blocked (answer answers field)

-- No rule but a required answer stands in the way.
unfoldable pub is_clear : Mapping String → Rules → Bool → Bool
is_clear answers rules sentry =
    has_rules rules
    && (sentry || all (is_answered answers) rules.needs)
    && not (any (is_blocked answers) rules.block_if)

unfoldable pub action_is : Action → Option Verdict → Bool
action_is a none = false
action_is attempt (some v) = elim v.action [ attempt ↦ true | ask ↦ false | assign ↦ false ]
action_is ask (some v) = elim v.action [ attempt ↦ false | ask ↦ true | assign ↦ false ]
action_is assign (some v) = elim v.action [ attempt ↦ false | ask ↦ false | assign ↦ true ]

pub loop_is : Action → Loop → Bool
loop_is a (stop v) = action_is a (some v)
loop_is a (go_on none) = false
loop_is a (go_on (some v)) = action_is a (some v)

unfoldable pub is_stop : Loop → Bool
is_stop (stop v) = true
is_stop (go_on p) = false

-- The loop stops exactly at an answer that is neither required nor open.
pub is_stop-require_loop :
    (rules : Rules) (answers : Mapping String) (reqs : Mapping (List String)) (p : Option Verdict)
    → is_stop (require_loop rules answers reqs p) ≡ not (all (is_open rules answers) reqs)
unfolding require_loop is_open is_stop
is_stop-require_loop rules answers [] p = refl
is_stop-require_loop rules answers ((field, allowed) ∷ rest) p = ground (
  arith,
  is_stop-require_loop rules answers rest p,
  is_stop-require_loop rules answers rest
      (or_ask p (said ask field (or_unanswered (answer answers field)))),
)

unfoldable pub pending : Loop → Option Verdict
pending (stop v) = none
pending (go_on p) = p

pub ask_stays :
    (rules : Rules) (answers : Mapping String) (reqs : Mapping (List String)) (v : Verdict)
    → all (is_open rules answers) reqs ≡ true
    → require_loop rules answers reqs (some v) ≡ go_on (some v)
unfolding require_loop is_open
ask_stays rules answers [] v h = refl
ask_stays rules answers ((field, allowed) ∷ rest) v h =
    ground (arith, ask_stays rules answers rest v)

-- The loop leaves no question exactly when every answer is a required one.
pub allowed_lem :
    (rules : Rules) (answers : Mapping String) (reqs : Mapping (List String))
    → all (is_open rules answers) reqs ≡ true
    → is_some (pending (require_loop rules answers reqs none)) ≡ not (all (is_allowed answers) reqs)
unfolding require_loop is_open is_allowed pending
allowed_lem rules answers [] h = refl
allowed_lem rules answers ((field, allowed) ∷ rest) h = ground (
  arith,
  allowed_lem rules answers rest,
  ask_stays rules answers rest (said ask field (or_unanswered (answer answers field))),
)

unfoldable pub is_sound : Loop → Bool
is_sound (stop v) = action_is assign (some v)
is_sound (go_on none) = true
is_sound (go_on (some v)) = action_is ask (some v)

-- The loop stops with `assign`, and its question is an `ask`.
pub is_sound-require_loop :
    (rules : Rules) (answers : Mapping String) (reqs : Mapping (List String)) (p : Option Verdict)
    → is_sound (go_on p) ≡ true
    → is_sound (require_loop rules answers reqs p) ≡ true
unfolding require_loop is_sound action_is
is_sound-require_loop rules answers [] p h = h
is_sound-require_loop rules answers ((field, allowed) ∷ rest) none h = ground (
  arith,
  is_sound-require_loop rules answers rest none,
  is_sound-require_loop rules answers rest
      (some (said ask field (or_unanswered (answer answers field)))),
)
is_sound-require_loop rules answers ((field, allowed) ∷ rest) (some v) h =
    ground (arith, is_sound-require_loop rules answers rest (some v))

unfoldable pub assigns : Option Verdict → Bool
assigns none = true
assigns (some v) = action_is assign (some v)

pub is_some-needs_loop :
    (answers : Mapping String) (needs : List String)
    → is_some (needs_loop answers needs) ≡ not (all (is_answered answers) needs)
unfolding needs_loop is_answered
is_some-needs_loop answers [] = refl
is_some-needs_loop answers (field ∷ rest) = ground (arith, is_some-needs_loop answers rest)

pub assigns-needs_loop :
    (answers : Mapping String) (needs : List String) → assigns (needs_loop answers needs) ≡ true
unfolding needs_loop assigns action_is
assigns-needs_loop answers [] = refl
assigns-needs_loop answers (field ∷ rest) = ground (arith, assigns-needs_loop answers rest)

unfoldable pub assigns_block : Option (Option Verdict) → Bool
assigns_block none = true
assigns_block (some v) = assigns v

pub is_some-block_loop :
    (answers : Mapping String) (blocks : Mapping (List String))
    → is_some (block_loop answers blocks) ≡ any (is_blocked answers) blocks
unfolding block_loop is_blocked
is_some-block_loop answers [] = refl
is_some-block_loop answers ((field, blocked) ∷ rest) =
    ground (arith, is_some-block_loop answers rest)

pub assigns-block_loop :
    (answers : Mapping String) (blocks : Mapping (List String))
    → assigns_block (block_loop answers blocks) ≡ true
unfolding block_loop assigns assigns_block action_is
assigns-block_loop answers [] = refl
assigns-block_loop answers ((field, blocked) ∷ rest) = elim (Option-cases (get answers field)) [
  | inl e ↦ rw e (ground (arith, assigns-block_loop answers rest))
  | inr (v, e) ↦ rw e (ground (arith, assigns-block_loop answers rest))
]

pub allowed→open :
    (rules : Rules) (answers : Mapping String) (reqs : Mapping (List String))
    → all (is_allowed answers) reqs ≡ true
    → all (is_open rules answers) reqs ≡ true
unfolding is_open is_allowed
allowed→open rules answers [] h = refl
allowed→open rules answers ((field, allowed) ∷ rest) h =
    ground (arith, allowed→open rules answers rest)
