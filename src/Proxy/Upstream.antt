-- ===== src/Proxy/Upstream.antt =====
-- Where an arm's traffic goes, and what authenticates it there: `upstream_for`.
use claude_code_reviewer.Prelude.{
  String, ◌<>◌, Option, none, some, List, [], ◌∷◌, ◌==◌, string_eq, if◌then◌else◌, cat,
}
use claude_code_reviewer.Proxy.Paths.{denied, Result, ok, deny, crash}

-- `Settings`, without the listener's address; a credentials file by its path.
pub record Settings : Type 0 where
  pub token : String
  pub credentials : Option String
  pub api_key : Option String
  pub review_base_url : Option String
  pub review_api_token : Option String
  pub paths : List String

pub record Upstream : Type 0 where
  pub base : String
  pub auth : List (String × String)
  pub beta : Option String

abbrev pub account_upstream : String
account_upstream = "https://api.anthropic.com"

abbrev pub oauth_beta : String
oauth_beta = "oauth-2025-04-20"

abbrev text_of : Option String → String
text_of none = ""
text_of (some s) = s

abbrev bearer_auth : String → List (String × String)
bearer_auth token = ("authorization", "Bearer " <> token) ∷ []

-- `account_bearer` reads a file, so what it gives for a path is an argument.
unfoldable pub account_arm : (String → Result String) → Settings → Result Upstream
account_arm account_bearer settings = elim settings.credentials [
  | some path ↦ elim (account_bearer path) [
    | ok token ↦
        ok (record { base = account_upstream; auth = bearer_auth token; beta = some oauth_beta })
    | deny d ↦ deny d
    | crash ↦ crash
  ]
  | none ↦ elim settings.api_key [
    | some key ↦
        ok (record { base = account_upstream; auth = ("x-api-key", key) ∷ []; beta = none })
    | none ↦ deny (denied "no account credentials are configured on this proxy" 502)
  ]
]

unfoldable pub endpoint_arm : Settings → Result Upstream
endpoint_arm settings =
    if text_of settings.review_base_url == ""
    then deny (denied "no REVIEW_BASE_URL is configured on this proxy" 502)
    else ok (record {
      base = text_of settings.review_base_url;
      auth = bearer_auth (text_of settings.review_api_token);
      beta = none;
    })

-- `{arm!r}` is the arm in quotes, for an arm without a quote or a backslash.
unfoldable pub upstream_for : (String → Result String) → String → Settings → Result Upstream
upstream_for account_bearer arm settings =
    if arm == "account"
    then account_arm account_bearer settings
    else if arm == "endpoint"
    then endpoint_arm settings
    else deny (denied (cat ("unknown arm '" ∷ arm ∷ "'; expected /account or /endpoint" ∷ [])) 502)
