-- ===== src/Config/Arms/Fallback.antt =====
-- The fallback model stands on the other side of the endpoint divide, and is the heaviest there.
use claude_code_reviewer.Prelude.{
  ℕ, ◌≤◌, Bool, true, false, not, ◌&&◌, none, some, List, [], ◌∷◌, filter, all, any, leb, ◌≡◌, refl,
  arith, ap, subst, string_eq, ◌==◌, eq_iff, Bool-cases, inl, inr,
}
use claude_code_reviewer.Config.Arms.{
  ReviewModel, Choice, choice_of, is_endpoint, differs, heavier, heaviest, first_heaviest,
  fallback_for,
}

le-heavier :
    (best m : ReviewModel)
    → (best.weight ≤ (heavier best m).weight) × (m.weight ≤ (heavier best m).weight)
unfolding heavier
le-heavier best m = ground arith

le-heaviest : (best : ReviewModel) (ms : List ReviewModel) → best.weight ≤ (heaviest best ms).weight
unfolding heaviest
le-heaviest best [] = ground arith
le-heaviest best (m ∷ ms) = ground (arith, le-heavier best m, le-heaviest (heavier best m) ms)

-- A model of the list does not outweigh the one picked.
unfoldable pub is_light : ℕ → ReviewModel → Bool
is_light top m = leb m.weight top

all_light :
    (best : ReviewModel) (ms : List ReviewModel)
    → all (is_light (heaviest best ms).weight) ms ≡ true
unfolding heaviest is_light
all_light best [] = refl
all_light best (m ∷ ms) =
    ground
      (arith, le-heavier best m, le-heaviest (heavier best m) ms, all_light (heavier best m) ms)

-- The models on the other side of the endpoint divide.
abbrev pub others : List ReviewModel → Choice → List ReviewModel
others models choice = filter (λ m. differs (is_endpoint m.via) choice.via_endpoint) models

unfoldable pub is_other : Bool → ReviewModel → Bool
is_other side m = differs (is_endpoint m.via) side

is_other-heavier :
    (side : Bool) (best m : ReviewModel)
    → is_other side best ≡ true
    → is_other side m ≡ true
    → is_other side (heavier best m) ≡ true
unfolding heavier
is_other-heavier side best m h k = ground arith

is_other-heaviest :
    (side : Bool) (best : ReviewModel) (ms : List ReviewModel)
    → is_other side best ≡ true
    → all (is_other side) ms ≡ true
    → is_other side (heaviest best ms) ≡ true
unfolding heaviest
is_other-heaviest side best [] h k = h
is_other-heaviest side best (m ∷ ms) h k =
    is_other-heaviest side (heavier best m) ms (is_other-heavier side best m h (ground arith))
      (ground arith)

all-filter :
    (side : Bool) (ms : List ReviewModel)
    → all (is_other side) (filter (λ m. differs (is_endpoint m.via) side) ms) ≡ true
unfolding is_other
all-filter side [] = refl
all-filter side (m ∷ ms) = elim (Bool-cases (differs (is_endpoint m.via) side)) [
  | inl e ↦ rw e (rw e (all-filter side ms))
  | inr e ↦ rw e (all-filter side ms)
]

any-heaviest :
    (p : ReviewModel → Bool) (best : ReviewModel) (ms : List ReviewModel)
    → p (heaviest best ms) ≡ true
    → any p (best ∷ ms) ≡ true
unfolding heaviest heavier
any-heaviest p best [] h = ground arith
any-heaviest p best (m ∷ ms) h = ground (arith, any-heaviest p (heavier best m) ms h)

-- The choice names this model, which no model of the list outweighs.
unfoldable pub is_pick : Choice → List ReviewModel → ReviewModel → Bool
is_pick c ms m =
    elim c.model [ none ↦ false | some name ↦ name == m.model ] && all (is_light m.weight) ms

side_lem :
    (side : Bool) (m : ReviewModel) → is_other side m ≡ true → (choice_of m).via_endpoint ≡ not side
unfolding is_other
side_lem side m h = ground arith

top_lem :
    (m : ReviewModel) (ms : List ReviewModel)
    → is_pick (choice_of (heaviest m ms)) (m ∷ ms) (heaviest m ms) ≡ true
unfolding is_pick is_light
top_lem m ms =
    ground
      (arith, eq_iff (heaviest m ms).model (heaviest m ms).model, le-heaviest m ms, all_light m ms)

first_lem :
    (side : Bool) (ms : List ReviewModel) (c : Choice)
    → all (is_other side) ms ≡ true
    → first_heaviest ms ≡ some c
    → (c.via_endpoint ≡ not side) × (any (is_pick c ms) ms ≡ true)
unfolding is_pick
first_lem side [] c h e = ground arith
first_lem side (m ∷ ms) c h e =
    let top : choice_of (heaviest m ms) ≡ c = ap (λ o. elim o [ none ↦ c | some x ↦ x ]) e in
    subst (λ x. (x.via_endpoint ≡ not side) × (any (is_pick x (m ∷ ms)) (m ∷ ms) ≡ true)) top
      (
        side_lem side (heaviest m ms) (is_other-heaviest side m ms (ground arith) (ground arith)),
        any-heaviest (is_pick (choice_of (heaviest m ms)) (m ∷ ms)) m ms (top_lem m ms),
      )

-- The fallback of a choice is a configured model on the other side of the endpoint divide, and no
-- model on that side outweighs it.
pub fallback_for_lem :
    (models : List ReviewModel) (choice c : Choice)
    → fallback_for models choice ≡ some c
    → (c.via_endpoint ≡ not choice.via_endpoint)
      × (any (is_pick c (others models choice)) (others models choice) ≡ true)
unfolding fallback_for
fallback_for_lem models choice c e =
    first_lem choice.via_endpoint (others models choice) c (all-filter choice.via_endpoint models) e
