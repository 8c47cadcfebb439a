-- ===== src/Tests/Forms.antt =====
-- The forms, the patches and the proxied requests, at concrete inputs.
use Prim.Native.String.{len}
use mathlib.Core.List.{Memᴰ}
use claude_code_reviewer.Prelude.{
  ◌≤◌, ◌≡◌, ◌≢◌, ◌↔◌, refl, String, true, false, ◌||◌, none, some, [], ◌∷◌, any, all, contains,
  length, string_eq, strip, split_newline, after_prefix, lower,
}
use claude_code_reviewer.Triage.{Mapping, attempt, get, verdict}
use claude_code_reviewer.Triage.Loops.{is_allowed, is_clear, action_is}
use claude_code_reviewer.Triage.Settled.{verdict-attempt_iff}
use claude_code_reviewer.Triage.Form.{Form, read_lines}
use claude_code_reviewer.Triage.Form.Headings.{Begins, get-read_lines}
use claude_code_reviewer.Triage.Money.{touches_money, clears, accuses, touches_money-false_iff}
use claude_code_reviewer.PrTool.Paths.{as_posix, changed_paths, changed_lines}
use claude_code_reviewer.PrTool.Paths.Plain.{changed_paths-plain}
use claude_code_reviewer.PrTool.Refuse.{is_outside, is_banned, is_test, refuse}
use claude_code_reviewer.PrTool.Refuse.Laws.{refuse-none_iff}
use claude_code_reviewer.Proxy.Paths.{
  Result, ok, offered, climbs, under, strip_slash, default_paths, authorize, allow_path, drop_chars,
  split_on,
}
use claude_code_reviewer.Proxy.Upstream.{Settings, Upstream, upstream_for, account_arm}
use claude_code_reviewer.Proxy.Forward.{Headers, header_or_empty, forward, reply}
use claude_code_reviewer.Proxy.Forward.Secrets.{
  is_sent, headers_of, is_sealed, forward-is_sent, is_sealed-forward,
}
use claude_code_reviewer.Tests.Data.{money_rules}

abbrev form : Mapping String
form = ("Does it touch money?", "Not sure") ∷ ("Steps to reproduce", "Open it.") ∷ []

verdict-attempt_iff_example : (action_is attempt (verdict form money_rules false) ≡ true) ↔ (
    (is_clear form money_rules false ≡ true) × (all (is_allowed form) money_rules.require ≡ true))
verdict-attempt_iff_example = verdict-attempt_iff form money_rules false

abbrev body : String
body = "### Area\n\nCart\n### Steps\n### Area\nPayments"

abbrev area : Form
area = record { out = ("Area", "Cart" ∷ []) ∷ []; current = some "Area"; fence = none }

get-read_lines_example :
    Begins ("Cart" ∷ []) (get (read_lines area ("### Area" ∷ "Payments" ∷ [])).out "Area")
unfolding get
get-read_lines_example =
    get-read_lines area ("### Area" ∷ "Payments" ∷ []) "Area" ("Cart" ∷ []) refl

touches_money-false_iff_example : (touches_money "Read it.\nMONEY: no" ≡ false) ↔ (
    (any clears (split_newline "Read it.\nMONEY: no") ≡ true)
    × (any accuses (split_newline "Read it.\nMONEY: no") ≡ false))
touches_money-false_iff_example = touches_money-false_iff "Read it.\nMONEY: no"

abbrev patch : String
patch = "diff --git a/app/x.rb b/spec/./x.rb\n+one"

refuse-none_iff_example : (refuse patch ≡ none) ↔ (
    (strip patch ≢ "")
    × (len patch ≤ 200000)
    × (changed_paths patch ≢ [])
    × (any (λ p. is_outside p || is_banned p) (changed_paths patch) ≡ false)
    × (any is_test (changed_paths patch) ≡ true)
    × (length (changed_paths patch) ≤ 12)
    × (changed_lines patch ≤ 400))
refuse-none_iff_example = refuse-none_iff patch

abbrev old_path : String
old_path = "app/x.rb"

abbrev new_path : String
new_path = "spec/./x.rb"

changed_paths-plain_example :
    (old_path ≢ "/dev/null" → contains (changed_paths patch) (as_posix old_path) ≡ true)
    × (new_path ≢ "/dev/null" → contains (changed_paths patch) (as_posix new_path) ≡ true)
unfolding split_newline
changed_paths-plain_example = changed_paths-plain patch old_path new_path refl refl (Memᴰ.head refl)

abbrev settings : Settings
settings = record {
  token = "fleet";
  credentials = none;
  api_key = some "key";
  review_base_url = none;
  review_api_token = none;
  paths = default_paths;
}

abbrev no_file : String → Result String
no_file path = ok ""

abbrev request : Headers
request = ("authorization", "Bearer fleet") ∷ ("x-api-key", "mine") ∷ ("accept", "json") ∷ []

forward-is_sent_example :
    (offered (header_or_empty request "authorization") ≡ settings.token)
    × (climbs (strip_slash "v1/messages") ≡ false)
    × (any (under (strip_slash "v1/messages")) settings.paths ≡ true)
unfolding forward is_sent reply authorize offered after_prefix lower header_or_empty drop_chars
    allow_path climbs split_on strip_slash under upstream_for account_arm
forward-is_sent_example = forward-is_sent no_file settings "account" "v1/messages" request refl

abbrev key_arm : Upstream
key_arm = record {
  base = "https://api.anthropic.com";
  auth = ("x-api-key", "key") ∷ [];
  beta = none;
}

is_sealed-forward_example :
    is_sealed
      (("x-api-key", "key") ∷ [])
      (headers_of (forward no_file settings "account" "v1/messages" request))
    ≡ true
unfolding upstream_for account_arm
is_sealed-forward_example =
    is_sealed-forward no_file settings "account" "v1/messages" request key_arm refl
