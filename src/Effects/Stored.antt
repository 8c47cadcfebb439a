-- ===== src/Effects/Stored.antt =====
-- Turns that keep a property of the store.
use claude_code_reviewer.Prelude.{ℕ, suc, Bool, true, false}
use claude_code_reviewer.Db.Tables.{Db}
use claude_code_reviewer.Effects.{
  ok, gh_error, exception, World, store, store_get, say, send, sent, put, Taken, Write, Message,
}
use claude_code_reviewer.Effects.Keeps.{Keeps, Uncounted, keeps_rules}

pub record OnDb (Q : Db → Type 0) (w : World) : Type 0 where
  pub on : Q w.db

module _ {Q : Db → Type 0} where
  instance pub OnDb_uncounted : Uncounted (OnDb Q)
  OnDb_uncounted = record { next = λ w h. record { on = h.on } }

module _ {A : Type 0} {Q : Db → Type 0} where
  pub OnDb-store_get :
      (f : Db → A × Db) → ((db : Db) → Q db → Q (f db).1) → Keeps (OnDb Q) (store_get f)
  unfolding store_get
  OnDb-store_get f k = record { at = λ w h. record { on = k w.db h.on } }

module _ {Q : Db → Type 0} where
  pub OnDb-store : (f : Db → Db) → ((db : Db) → Q db → Q (f db)) → Keeps (OnDb Q) (store f)
  unfolding store
  OnDb-store f k = record { at = λ w h. record { on = k w.db h.on } }

  pub OnDb-say : (m : Message) → Keeps (OnDb Q) (say m)
  unfolding say
  OnDb-say m = record { at = λ w h. record { on = h.on } }

  OnDb-put : (landed : Bool) (call : Write) (w : World) → OnDb Q w → OnDb Q (put landed call w)
  OnDb-put true call w h = record { on = h.on }
  OnDb-put false call w h = h

  OnDb-sent : (call : Write) (a : Taken) (w : World) → OnDb Q w → OnDb Q (sent call a w).1
  OnDb-sent call (ok url, landed) w h = OnDb-put true call w h
  OnDb-sent call (gh_error why, landed) w h = OnDb-put landed call w h
  OnDb-sent call (exception why, landed) w h = OnDb-put landed call w h

  pub OnDb-send : (takes : ℕ → Write → Taken) (call : Write) → Keeps (OnDb Q) (send takes call)
  unfolding send
  OnDb-send takes call = record {
    at = λ w h.
        OnDb-sent call (takes w.calls call) (record w { calls = suc w.calls })
          (record { on = h.on });
  }

pub ruleset stored_rules = (keeps_rules, OnDb-say, OnDb-send)
