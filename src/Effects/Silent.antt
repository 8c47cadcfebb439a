-- ===== src/Effects/Silent.antt =====
-- Turns that send nothing: no call that changes GitHub, and no message.
use claude_code_reviewer.Prelude.{List, ◌≡◌}
use claude_code_reviewer.Db.Tables.{Db}
use claude_code_reviewer.Effects.{World, store, store_get, Write, Message}
use claude_code_reviewer.Effects.Keeps.{Keeps, Uncounted, keeps_rules}

-- What was sent is what was sent before.
pub record Silent (ws : List Write) (ms : List Message) (w : World) : Type 0 where
  pub writes : w.writes ≡ ws
  pub messages : w.messages ≡ ms

module _ {ws : List Write} {ms : List Message} where
  instance pub Silent_uncounted : Uncounted (Silent ws ms)
  Silent_uncounted = record { next = λ w h. record { writes = h.writes; messages = h.messages } }

module _ {A : Type 0} {ws : List Write} {ms : List Message} where
  pub Silent-store_get : (f : Db → A × Db) → Keeps (Silent ws ms) (store_get f)
  unfolding store_get
  Silent-store_get f = record { at = λ w h. record { writes = h.writes; messages = h.messages } }

module _ {ws : List Write} {ms : List Message} where
  pub Silent-store : (f : Db → Db) → Keeps (Silent ws ms) (store f)
  unfolding store
  Silent-store f = record { at = λ w h. record { writes = h.writes; messages = h.messages } }

pub ruleset silent_rules = (keeps_rules, Silent-store_get, Silent-store)
