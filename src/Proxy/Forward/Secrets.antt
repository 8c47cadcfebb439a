-- ===== src/Proxy/Forward/Secrets.antt =====
-- What a forwarded request has passed, and what it carries.
use claude_code_reviewer.Prelude.{
  String, Bool, true, false, not, ◌&&◌, ◌||◌, Option, none, some, List, [], ◌∷◌, ◌==◌, string_eq,
  contains, lower, any, ◌≡◌, refl, arith, eq_iff, Bool-cases, inl, inr,
}
use claude_code_reviewer.Proxy.Paths.{
  Result, ok, deny, crash, authorize, allow_path, offered, climbs, under, strip_slash, Granted,
  merge_beta,
}
use claude_code_reviewer.Proxy.Upstream.{Settings, Upstream, upstream_for}
use claude_code_reviewer.Proxy.Forward.{
  Headers, dropped, header_or_empty, put, update, kept_headers, add_beta, outbound, Reply, refused,
  sends, broken, reply, forward,
}

unfoldable pub is_sent : Reply → Bool
is_sent (sends t hs) = true
is_sent (refused s t m) = false
is_sent broken = false

-- The headers that a reply sends upstream.
unfoldable pub headers_of : Reply → Headers
headers_of (sends t hs) = hs
headers_of (refused s t m) = []
headers_of broken = []

unfoldable pub has_pair : Headers → String → String → Bool
has_pair [] k v = false
has_pair ((a, b) ∷ hs) k v = ((a == k) && (b == v)) || has_pair hs k v

-- A header under a dropped name is one of `auth`.
unfoldable pub is_sealed : Headers → Headers → Bool
is_sealed auth [] = true
is_sealed auth ((k, v) ∷ hs) =
    (not (contains dropped (lower k)) || has_pair auth k v) && is_sealed auth hs

is_sealed-put :
    (auth hs : Headers) (k v : String)
    → (not (contains dropped (lower k)) || has_pair auth k v) ≡ true
    → is_sealed auth hs ≡ true
    → is_sealed auth (put hs k v) ≡ true
unfolding put is_sealed
is_sealed-put auth [] k v g h = ground arith
is_sealed-put auth ((a, b) ∷ hs) k v g h = elim (Bool-cases (a == k)) [
  | inl e ↦ rw e (rw ((eq_iff a k).0 e) (ground arith))
  | inr e ↦ rw e (ground (arith, is_sealed-put auth hs k v g))
]

has_all : Headers → Headers → Bool
has_all auth [] = true
has_all auth ((k, v) ∷ hs) = has_pair auth k v && has_all auth hs

is_sealed-update :
    (auth hs others : Headers)
    → has_all auth others ≡ true
    → is_sealed auth hs ≡ true
    → is_sealed auth (update hs others) ≡ true
unfolding update has_all
is_sealed-update auth hs [] g h = h
is_sealed-update auth hs ((k, v) ∷ others) g h =
    is_sealed-update auth (put hs k v) others (ground arith)
      (is_sealed-put auth hs k v (ground arith) h)

is_sealed-kept_headers :
    (auth acc hs : Headers)
    → is_sealed auth acc ≡ true
    → is_sealed auth (kept_headers acc hs) ≡ true
unfolding kept_headers
is_sealed-kept_headers auth acc [] h = h
is_sealed-kept_headers auth acc ((k, v) ∷ hs) h = elim (Bool-cases (contains dropped (lower k))) [
  | inl e ↦ rw e (is_sealed-kept_headers auth acc hs h)
  | inr e ↦
      rw e (is_sealed-kept_headers auth (put acc k v) hs (is_sealed-put auth acc k v (rw e refl) h))
]

has_all_cons :
    (auth hs : Headers) (a b : String) → has_all auth hs ≡ true → has_all ((a, b) ∷ auth) hs ≡ true
unfolding has_all has_pair
has_all_cons auth [] a b h = refl
has_all_cons auth ((k, v) ∷ hs) a b h = ground (arith, has_all_cons auth hs a b)

has_all_self : (auth : Headers) → has_all auth auth ≡ true
unfolding has_all has_pair
has_all_self [] = refl
has_all_self ((k, v) ∷ hs) =
    ground (arith, has_all_cons hs hs k v (has_all_self hs), eq_iff k k, eq_iff v v)

is_kept_beta : contains dropped (lower "anthropic-beta") ≡ false
unfolding lower
is_kept_beta = refl

is_sealed-add_beta :
    (auth hs : Headers) (beta : Option String)
    → is_sealed auth hs ≡ true
    → is_sealed auth (add_beta hs beta) ≡ true
unfolding add_beta
is_sealed-add_beta auth hs none h = h
is_sealed-add_beta auth hs (some flag) h = elim (Bool-cases (flag == "")) [
  | inl e ↦ rw e h
  | inr e ↦ rw e (
      is_sealed-put auth hs "anthropic-beta" (merge_beta (header_or_empty hs "anthropic-beta") flag)
        (rw is_kept_beta refl) h)
]

is_sealed-outbound : (hs : Headers) (up : Upstream) → is_sealed up.auth (outbound hs up) ≡ true
unfolding outbound is_sealed
is_sealed-outbound hs up =
    is_sealed-add_beta up.auth (update (kept_headers [] hs) up.auth) up.beta (
      is_sealed-update up.auth (kept_headers [] hs) up.auth (has_all_self up.auth)
        (is_sealed-kept_headers up.auth [] hs refl))

is_ok {ℓ} : {A : Type ℓ} → Result A → Bool
is_ok (ok a) = true
is_ok (deny d) = false
is_ok crash = false

is_ok-authorize :
    (header expected : String)
    → is_ok (authorize header expected) ≡ true
    → offered header ≡ expected
unfolding authorize is_ok
is_ok-authorize header expected h = ground (arith, eq_iff (offered header) expected)

is_ok-allow_path :
    (path : String) (allowed : List String)
    → is_ok (allow_path path allowed) ≡ true
    → (climbs (strip_slash path) ≡ false) × (any (under (strip_slash path)) allowed ≡ true)
unfolding allow_path is_ok
is_ok-allow_path path allowed h = ground arith

is_ok-reply :
    (a : Result Granted) (p : Result String) (u : Result Upstream) (hs : Headers)
    → is_sent (reply a p u hs) ≡ true
    → (is_ok a ≡ true) × (is_ok p ≡ true)
unfolding reply is_sent is_ok
is_ok-reply (deny d) p u hs h = ground arith
is_ok-reply crash p u hs h = ground arith
is_ok-reply (ok g) (deny d) u hs h = ground arith
is_ok-reply (ok g) crash u hs h = ground arith
is_ok-reply (ok g) (ok rest) u hs h = (refl, refl)

is_sealed-reply :
    (a : Result Granted) (p : Result String) (up : Upstream) (hs : Headers)
    → is_sealed up.auth (headers_of (reply a p (ok up) hs)) ≡ true
unfolding reply headers_of is_sealed
is_sealed-reply (deny d) p up hs = refl
is_sealed-reply crash p up hs = refl
is_sealed-reply (ok g) (deny d) up hs = refl
is_sealed-reply (ok g) crash up hs = refl
is_sealed-reply (ok g) (ok rest) up hs = is_sealed-outbound hs up

-- Nothing is sent upstream unless the token offered is the fleet's, and the path, without the
-- slashes around it, has no segment `..` and is one of the allowed paths or lies under one.
pub forward-is_sent :
    (bearer : String → Result String) (settings : Settings) (arm path : String) (hs : Headers)
    → is_sent (forward bearer settings arm path hs) ≡ true
    → (offered (header_or_empty hs "authorization") ≡ settings.token)
      × (climbs (strip_slash path) ≡ false)
      × (any (under (strip_slash path)) settings.paths ≡ true)
unfolding forward
forward-is_sent bearer settings arm path hs h =
    let auth = header_or_empty hs "authorization" in
    let passed =
      is_ok-reply (authorize auth settings.token) (allow_path path settings.paths)
        (upstream_for bearer arm settings) hs h in
    let allowed = is_ok-allow_path path settings.paths passed.1 in
    (is_ok-authorize auth settings.token passed.0, allowed.0, allowed.1)

-- No header that the reviewer sent under a dropped name goes upstream: `authorization`,
-- `x-api-key` and the others are there only as the arm's own authentication sets them.
pub is_sealed-forward :
    (bearer : String → Result String) (settings : Settings) (arm path : String) (hs : Headers)
    (up : Upstream)
    → upstream_for bearer arm settings ≡ ok up
    → is_sealed up.auth (headers_of (forward bearer settings arm path hs)) ≡ true
unfolding forward
is_sealed-forward bearer settings arm path hs up h = rw h (
    is_sealed-reply (authorize (header_or_empty hs "authorization") settings.token)
      (allow_path path settings.paths) up hs)
