-- ===== src/Proxy/Forward.antt =====
-- `forward`: what of a request goes upstream, and what the reviewer is told when nothing does.
pub mod Secrets
use claude_code_reviewer.Prelude.{
  ℕ, String, ◌<>◌, Bool, true, false, not, Option, none, some, List, [], ◌∷◌, ◌==◌, nat_eq,
  string_eq, if◌then◌else◌, contains, lower, filter,
}
use claude_code_reviewer.Proxy.Paths.{
  Denied, Result, ok, deny, crash, authorize, allow_path, Granted, merge_beta,
}
use claude_code_reviewer.Proxy.Upstream.{Settings, Upstream, upstream_for}

abbrev pub Headers : Type 0
Headers = List (String × String)

-- `DROP_REQUEST`
abbrev pub dropped : List String
dropped =
    "host" ∷ "authorization" ∷ "x-api-key" ∷ "content-length" ∷ "connection" ∷ "transfer-encoding"
    ∷ []

-- `headers.get(name, "")`
unfoldable pub header_or_empty : Headers → String → String
header_or_empty [] name = ""
header_or_empty ((k, v) ∷ hs) name =
    let rest = header_or_empty hs name in if k == name then v else rest

-- `headers[name] = value`
unfoldable pub put : Headers → String → String → Headers
put [] name value = (name, value) ∷ []
put ((k, v) ∷ hs) name value =
    let rest = put hs name value in if k == name then (k, value) ∷ hs else (k, v) ∷ rest

-- `headers.update(others)`
unfoldable pub update : Headers → Headers → Headers
unfolding put
update hs [] = hs
update hs ((k, v) ∷ others) = update (put hs k v) others

-- `{k: v for k, v in request.headers.items() if k.lower() not in DROP_REQUEST}`
unfoldable pub kept_headers : Headers → Headers → Headers
kept_headers acc [] = acc
kept_headers acc ((k, v) ∷ hs) =
    kept_headers (if contains dropped (lower k) then acc else put acc k v) hs

-- `if up.beta: headers["anthropic-beta"] = …`
unfoldable pub add_beta : Headers → Option String → Headers
add_beta hs none = hs
add_beta hs (some flag) =
    if flag == ""
    then hs
    else put hs "anthropic-beta" (merge_beta (header_or_empty hs "anthropic-beta") flag)

unfoldable pub outbound : Headers → Upstream → Headers
outbound hs up = add_beta (update (kept_headers [] hs) up.auth) up.beta

-- `ERROR_TYPE.get(ex.status, "api_error")`
unfoldable pub error_type : ℕ → String
error_type status =
    if status == 401
    then "authentication_error"
    else if status == 403
    then "permission_error"
    else "api_error"

-- What `forward` leaves: an error for the reviewer, the request for upstream, or a crash.
pub data Reply : Type 0 where
  refused : ℕ → String → String → Reply
  sends : String → Headers → Reply
  broken : Reply

abbrev pub refusal : Denied → Reply
refusal d = refused d.status (error_type d.status) d.message

abbrev pub target : String → String → String
target base rest = if rest == "" then base else base <> "/" <> rest

-- The first of the three that raises is what the reviewer is told.
unfoldable pub reply : Result Granted → Result String → Result Upstream → Headers → Reply
reply (deny d) rest up hs = refusal d
reply crash rest up hs = broken
reply (ok g) (deny d) up hs = refusal d
reply (ok g) crash up hs = broken
reply (ok g) (ok rest) (deny d) hs = refusal d
reply (ok g) (ok rest) crash hs = broken
reply (ok g) (ok rest) (ok up) hs = sends (target up.base rest) (outbound hs up)

-- The part of `forward` before the request leaves; its method, its query and its body are passed
-- on as they came.
unfoldable pub forward : (String → Result String) → Settings → String → String → Headers → Reply
forward account_bearer settings arm path hs =
    reply (authorize (header_or_empty hs "authorization") settings.token)
      (allow_path path settings.paths) (upstream_for account_bearer arm settings) hs
