-- ===== src/Effects/Keeps.antt =====
-- What every step of a turn leaves true of the world: a rule for each construct of the code.
use claude_code_reviewer.Prelude.{
  ℕ, suc, String, Bool, true, false, Option, none, some, ◌≡◌, refl, arith, if◌then◌else◌,
}
use claude_code_reviewer.Effects.{
  Answer, ok, gh_error, exception, World, M, pure, raise, ask, gets, ◌>>=◌, catch, catch_all,
  handled_all, raise_exception, continue, handled, modify, ensure,
}

-- Whatever the answer, `turn` ends in a world of `P` when it starts in one.
pub record Keeps {A : Type 0} (P : World → Type 0) (turn : M A) : Type 0 where
  pub at : (w : World) → P w → P (turn w).1

-- A property that does not read the number of calls.
pub record Uncounted (P : World → Type 0) : Type 0 where
  pub next : (w : World) → P w → P (record w { calls = suc w.calls })

module _ {A : Type 0} {P : World → Type 0} ⦃u : Uncounted P⦄ where
  pub Keeps-ask : (answer : ℕ → Answer A) → Keeps P (ask answer)
  unfolding ask
  Keeps-ask answer = record { at = λ w kept. u.next w kept }

module _ {P : World → Type 0} where
  pub Keeps-modify :
      (change : World → World) → ((w : World) → P w → P (change w)) → Keeps P (modify change)
  unfolding modify
  Keeps-modify change after = record { at = after }

module _ {A : Type 0} {P : World → Type 0} where
  -- A turn that leaves the world alone.
  Keeps-still : (turn : M A) → ((w : World) → (turn w).1 ≡ w) → Keeps P turn
  Keeps-still turn still = record { at = λ w kept. rw (still w) kept }

  pub Keeps-then :
      (test : Bool) (turn other : M A)
      → test ≡ true
      → Keeps P turn
      → Keeps P (if test then turn else other)
  Keeps-then true turn other held k = k
  Keeps-then false turn other held k = ground arith

  pub Keeps-else :
      (test : Bool) (other turn : M A)
      → test ≡ false
      → Keeps P turn
      → Keeps P (if test then other else turn)
  Keeps-else true other turn failed k = ground arith
  Keeps-else false other turn failed k = k

  pub Keeps-if :
      (test : Bool) (turn other : M A)
      → (test ≡ true → Keeps P turn)
      → (test ≡ false → Keeps P other)
      → Keeps P (if test then turn else other)
  Keeps-if true turn other k_true k_false = k_true refl
  Keeps-if false turn other k_true k_false = k_false refl

  pub Keeps-raise : (why : String) → Keeps P (raise {A = A} why)
  unfolding raise
  Keeps-raise why = Keeps-still (raise why) λ w. refl

  pub Keeps-raise_exception : (why : String) → Keeps P (raise_exception {A = A} why)
  unfolding raise_exception
  Keeps-raise_exception why = Keeps-still (raise_exception why) λ w. refl

  pub Keeps-pure : (value : A) → Keeps P (pure value)
  unfolding pure
  Keeps-pure value = Keeps-still (pure value) λ w. refl

  pub Keeps-gets : (read : World → A) → Keeps P (gets read)
  unfolding gets
  Keeps-gets read = Keeps-still (gets read) λ w. refl

  Keeps-handled :
      (h : String → M A)
      → ((why : String) → Keeps P (h why))
      → (r : Answer A) (w : World) → P w
      → P (handled r h w).1
  Keeps-handled h k (ok a) w p = p
  Keeps-handled h k (gh_error why) w p = (k why).at w p
  Keeps-handled h k (exception why) w p = p

  Keeps-handled_all :
      (h : String → M A)
      → ((why : String) → Keeps P (h why))
      → (r : Answer A) (w : World) → P w
      → P (handled_all r h w).1
  Keeps-handled_all h k (ok a) w p = p
  Keeps-handled_all h k (gh_error why) w p = (k why).at w p
  Keeps-handled_all h k (exception why) w p = (k why).at w p

  pub Keeps-catch_all :
      (m : M A) (h : String → M A)
      → Keeps P m
      → ((why : String) → Keeps P (h why))
      → Keeps P (catch_all m h)
  unfolding catch_all
  Keeps-catch_all m h km kh = record {
    at = λ w p. let (r, after) = m w in Keeps-handled_all h kh r after (km.at w p);
  }

  pub Keeps-catch :
      (m : M A) (h : String → M A)
      → Keeps P m
      → ((why : String) → Keeps P (h why))
      → Keeps P (catch m h)
  unfolding catch
  Keeps-catch m h km kh = record {
    at = λ w p. let (r, after) = m w in Keeps-handled h kh r after (km.at w p);
  }

  pub Keeps-option :
      {V : Type 0} (o : Option V) (m : M A) (f : V → M A)
      → Keeps P m
      → ((v : V) → Keeps P (f v))
      → Keeps P (elim o [ none ↦ m | some v ↦ f v ])
  Keeps-option none m f km kf = km
  Keeps-option (some v) m f km kf = kf v

  pub Keeps-ensure :
      (m : M A) (f : World → World)
      → Keeps P m
      → ((w : World) → P w → P (f w))
      → Keeps P (ensure m f)
  unfolding ensure
  Keeps-ensure m f km k = record { at = λ w h. let (r, after) = m w in k after (km.at w h) }

module _ {A B : Type 0} {P : World → Type 0} where
  Keeps-continue :
      (rest : A → M B) (got : Answer A)
      → ((a : A) → Keeps P (rest a))
      → (w : World) → P w
      → P (continue got rest w).1
  Keeps-continue rest (ok a) k w kept = (k a).at w kept
  Keeps-continue rest (gh_error why) k w kept = kept
  Keeps-continue rest (exception why) k w kept = kept

  pub Keeps-bind :
      (turn : M A) (rest : A → M B)
      → Keeps P turn
      → ((a : A) → Keeps P (rest a))
      → Keeps P (turn >>= rest)
  unfolding ◌>>=◌
  Keeps-bind turn rest k_turn k_rest = record {
    at = λ w kept.
        let (got, after) = turn w in Keeps-continue rest got k_rest after (k_turn.at w kept);
  }

pub ruleset keeps_rules = (
  Keeps-then, Keeps-else, Keeps-if, Keeps-option, Keeps-catch, Keeps-catch_all, Keeps-ask,
  Keeps-raise, Keeps-raise_exception, Keeps-pure, Keeps-gets, Keeps-bind,
)
