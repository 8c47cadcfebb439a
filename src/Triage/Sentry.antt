-- ===== src/Triage/Sentry.antt =====
-- `from_sentry`: the scan that the expression `_SENTRY_ISSUE` stands for.
use claude_code_reviewer.Prelude.{
  String, Bool, true, false, ◌||◌, none, some, ◌==◌, nat_eq, leb, ◌&&◌, after_prefix,
  leading_number, if◌then◌else◌, ◌≡◌, refl,
}
use Prim.Native.Char.{Char, code}

-- `[\w-]`; letters outside ASCII are no word here.
unfoldable pub is_slug : Char → Bool
is_slug c =
    (leb 48 (code c) && leb (code c) 57)
    || (leb 65 (code c) && leb (code c) 90)
    || (leb 97 (code c) && leb (code c) 122)
    || (code c == 95)
    || (code c == 45)

-- `issues/\d+`
unfoldable pub at_issue : String → Bool
unfolding after_prefix leading_number
at_issue s = elim (after_prefix "issues/" s) [
  | none ↦ false
  | some rest ↦ elim (leading_number rest) [ none ↦ false | some n ↦ true ]
]

-- The rest of `[\w-]+/issues/\d+`.
unfoldable pub in_slug : Bool → String → Bool
unfolding is_slug at_issue
in_slug seen String.[] = false
in_slug seen (String.◌∷◌ c s) =
    let more = in_slug true s in
    if is_slug c then more else if seen && (code c == 47) then at_issue s else false

unfoldable pub at_org : String → Bool
unfolding after_prefix in_slug
at_org s = elim (after_prefix "organizations/" s) [ none ↦ false | some rest ↦ in_slug false rest ]

unfoldable pub at_sentry : String → Bool
unfolding after_prefix at_org at_issue
at_sentry s = elim (after_prefix "sentry.io/" s) [
  | none ↦ false
  | some rest ↦ at_org rest || at_issue rest
]

unfoldable pub from_sentry : String → Bool
unfolding at_sentry
from_sentry String.[] = false
from_sentry (String.◌∷◌ c s) = let later = from_sentry s in at_sentry (String.◌∷◌ c s) || later

from_sentry_test :
    (from_sentry "see https://sentry.io/organizations/ac-me/issues/12" ≡ true)
    × (from_sentry "https://sentry.io/issues/" ≡ false)
unfolding from_sentry
from_sentry_test = (refl, refl)
