-- ===== src/Config/Arms.antt =====
-- The arms of a model comparison: which model reviews a key, and which covers for it.
pub mod Fallback
use claude_code_reviewer.Prelude.{
  ℕ, zero, suc, ◌%◌, String, Bool, true, false, Option, none, some, List, [], ◌∷◌, map, length,
  filter, contains, string_eq, ltb, if◌then◌else◌,
}

-- `via`
pub data Via : Type 0 where
  backend endpoint : Via

pub record ReviewModel : Type 0 where
  pub model : String
  pub via : Via
  pub weight : ℕ

pub record Choice : Type 0 where
  pub model : Option String
  pub via_endpoint : Bool

-- `Choice()`
abbrev pub choice_none : Choice
choice_none = record { model = none; via_endpoint = false }

abbrev pub is_endpoint : Via → Bool
is_endpoint backend = false
is_endpoint endpoint = true

abbrev pub choice_of : ReviewModel → Choice
choice_of m = record { model = some m.model; via_endpoint = is_endpoint m.via }

abbrev pub repeat {ℓ} : {A : Type ℓ} → ℕ → A → List A → List A
repeat zero a rest = rest
repeat (suc n) a rest = a ∷ repeat n a rest

-- `[m for m in self.review_models for _ in range(m.weight)]`
unfoldable pub arms : List ReviewModel → List ReviewModel
arms [] = []
arms (m ∷ models) = repeat m.weight m (arms models)

abbrev pub get_elem? {ℓ} : {A : Type ℓ} → List A → ℕ → Option A
get_elem? [] i = none
get_elem? (x ∷ xs) zero = some x
get_elem? (x ∷ xs) (suc i) = get_elem? xs i

-- The arm at the digest of the key; `digest` is the first eight bytes of its SHA-256.
unfoldable pub pick : List ReviewModel → ℕ → Choice
pick [] digest = choice_none
pick (m ∷ ms) digest = elim (get_elem? (m ∷ ms) (digest % length (m ∷ ms))) [
  | none ↦ choice_none
  | some arm ↦ choice_of arm
]

unfoldable pub choose_model : (String → ℕ) → List ReviewModel → String → Choice
unfolding pick
choose_model digest models key = pick (arms models) (digest key)

unfoldable pub endpoint_models : List ReviewModel → List String
endpoint_models models = map (λ m. m.model) (filter (λ m. is_endpoint m.via) models)

abbrev pub differs : Bool → Bool → Bool
differs true b = if b then false else true
differs false b = b

unfoldable pub heavier : ReviewModel → ReviewModel → ReviewModel
heavier best m = if ltb best.weight m.weight then m else best

-- `max(others, key=weight)`: the first of the heaviest.
unfoldable pub heaviest : ReviewModel → List ReviewModel → ReviewModel
heaviest best [] = best
heaviest best (m ∷ ms) = heaviest (heavier best m) ms

abbrev pub first_heaviest : List ReviewModel → Option Choice
first_heaviest [] = none
first_heaviest (m ∷ ms) = some (choice_of (heaviest m ms))

unfoldable pub fallback_for : List ReviewModel → Choice → Option Choice
unfolding heaviest
fallback_for models choice =
    first_heaviest (filter (λ m. differs (is_endpoint m.via) choice.via_endpoint) models)

unfoldable pub named_model : List ReviewModel → String → Choice
unfolding endpoint_models
named_model models model = record {
  model = some model;
  via_endpoint = contains (endpoint_models models) model;
}
