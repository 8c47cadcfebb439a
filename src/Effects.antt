-- ===== src/Effects.antt =====
-- What the code does outside itself: the calls that GitHub answers, the messages, and the state
-- that a turn carries, in a monad whose errors keep what was done before them.
pub mod Keeps
pub mod Silent
pub mod Stored
pub mod Hub
use claude_code_reviewer.Prelude.{
  ℕ, suc, String, Bool, true, false, Option, none, some, List, [], ◌∷◌, ◌++◌,
}
use claude_code_reviewer.Anchor.Place.{Inline}
use claude_code_reviewer.Github.Threads.{Thread}
use claude_code_reviewer.Db.Tables.{Db}

-- A value, a `GhError` with its text, or another exception with its text.
pub data Answer {ℓ} (A : Type ℓ) : Type ℓ where
  ok : A → Answer A
  gh_error exception : String → Answer A

-- A call that changes something on GitHub.
pub data Write : Type 0 where
  comment : String → ℕ → String → Write
  review : String → ℕ → String → String → List Inline → Write
  inline_comment : String → ℕ → String → Inline → Write
  add_labels : String → ℕ → List String → Write
  remove_label : String → ℕ → String → Write
  assign : String → ℕ → List String → Write
  dismiss : String → Write
  resolve : String → Write
  reply : String → ℕ → ℕ → String → Write

-- A message handed to Slack, to the relay before it, to the board, or a notice to the operator
-- (its title, url and body); none of them raises.
pub data Message : Type 0 where
  relay : String → Message
  post : String → String → Message
  board : ℕ → String → String → Message
  notice : String → String → String → Message

-- `calls` counts the calls made so far, so that two reads may be answered differently; `cached` is
-- `_threads`, `self_login` is `_self_login` and `inflight` is `_inflight` of the orchestrator.
pub record World : Type 0 where
  pub db : Db
  pub calls : ℕ
  pub writes : List Write
  pub messages : List Message
  pub cached : List (String × ℕ × List Thread)
  pub self_login : Option String
  pub inflight : ℕ

-- What a call that changes something ends in, and whether it took effect where it ended in an error.
abbrev pub Taken : Type 0
Taken = Answer String × Bool

abbrev pub M : Type 0 → Type 0
M A = World → Answer A × World

module _ {A B : Type 0} where
  abbrev pub continue : Answer A → (A → M B) → M B
  continue (ok a) f w = f a w
  continue (gh_error why) f w = (gh_error why, w)
  continue (exception why) f w = (exception why, w)

  infixl 10 ◌>>=◌ ◌>>◌
  unfoldable pub ◌>>=◌ : M A → (A → M B) → M B
  ◌>>=◌ m f w = let (r, after) = m w in continue r f after

  abbrev pub ◌>>◌ : M A → M B → M B
  m >> n = m >>= λ _. n

module _ {A : Type 0} where
  unfoldable pub pure : A → M A
  pure a w = (ok a, w)

  unfoldable pub raise : String → M A
  raise why w = (gh_error why, w)

  -- A call to GitHub that changes nothing there.
  unfoldable pub ask : (ℕ → Answer A) → M A
  ask answer w = (answer w.calls, record w { calls = suc w.calls })

  unfoldable pub gets : (World → A) → M A
  gets f w = (ok (f w), w)

  abbrev pub handled : Answer A → (String → M A) → M A
  handled (ok a) h w = (ok a, w)
  handled (gh_error why) h w = h why w
  handled (exception why) h w = (exception why, w)

  abbrev pub handled_all : Answer A → (String → M A) → M A
  handled_all (ok a) h w = (ok a, w)
  handled_all (gh_error why) h w = h why w
  handled_all (exception why) h w = h why w

  -- `try: … except Exception as ex: …`
  unfoldable pub catch_all : M A → (String → M A) → M A
  catch_all m h w = let (r, after) = m w in handled_all r h after

  -- `try: … finally: …`
  unfoldable pub ensure : M A → (World → World) → M A
  ensure m f w = let (r, after) = m w in (r, f after)

  unfoldable pub raise_exception : String → M A
  raise_exception why w = (exception why, w)

  -- `try: … except GhError as ex: …`
  unfoldable pub catch : M A → (String → M A) → M A
  catch m h w = let (r, after) = m w in handled r h after

unfoldable pub modify : (World → World) → M (Unit {0})
modify f w = (ok tt, f w)

-- A change of the store that returns nothing.
unfoldable pub store : (Db → Db) → M (Unit {0})
store f w = (ok tt, record w { db = f w.db })

-- A change of the store with its result.
unfoldable pub store_get : {A : Type 0} → (Db → A × Db) → M A
store_get f w = let (a, db) = f w.db in (ok a, record w { db = db })

unfoldable pub say : Message → M (Unit {0})
say m w = (ok tt, record w { messages = w.messages ++ (m ∷ []) })

abbrev pub put : Bool → Write → World → World
put true call w = record w { writes = w.writes ++ (call ∷ []) }
put false call w = w

abbrev pub sent : Write → Taken → World → Answer String × World
sent call (ok url, landed) w = (ok url, put true call w)
sent call (gh_error why, landed) w = (gh_error why, put landed call w)
sent call (exception why, landed) w = (exception why, put landed call w)

-- A call that changes something. Refused, it changes nothing; where the answer is lost, as at a
-- timeout, it may have changed it all the same.
unfoldable pub send : (ℕ → Write → Taken) → Write → M String
send takes call w = sent call (takes w.calls call) (record w { calls = suc w.calls })
