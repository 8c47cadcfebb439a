-- ===== src/Proxy/Paths.antt =====
-- The token and the path of a request: `authorize`, `allow_path`, `_paths`, and `merge_beta`.
use Prim.Native.Char.{code}
use claude_code_reviewer.Prelude.{
  ℕ, String, ◌<>◌, Bool, true, false, not, ◌&&◌, ◌||◌, List, [], ◌∷◌, ◌==◌, nat_eq, string_eq,
  contains, any, has_prefix, lower, strip, lstrip, rstrip, any_char, ltb, push, join, filter,
  is_empty, cat, if◌then◌else◌, ◌≡◌, refl,
}

-- `Denied`: the message and the status.
pub record Denied : Type 0 where
  pub message : String
  pub status : ℕ

abbrev pub denied : String → ℕ → Denied
denied m s = record { message = m; status = s }

-- A value, the exception `Denied`, or the `TypeError` that nothing catches.
pub data Result {ℓ} (A : Type ℓ) : Type ℓ where
  ok : A → Result A
  deny : Denied → Result A
  crash : Result A

-- What `authorize` returns when it raises nothing.
pub data Granted : Type 0 where
  granted : Granted

abbrev pub default_paths : List String
default_paths = "v1/messages" ∷ "v1/models" ∷ []

-- `header[7:]`
unfoldable pub drop_chars : ℕ → String → String
drop_chars ℕ.zero s = s
drop_chars (ℕ.suc n) String.[] = String.[]
drop_chars (ℕ.suc n) (String.◌∷◌ c s) = drop_chars n s

unfoldable pub offered : String → String
offered header = if has_prefix "bearer " (lower header) then drop_chars 7 header else header

abbrev pub is_ascii : String → Bool
is_ascii s = not (any_char (λ c. ltb 127 (code c)) s)

-- `compare_digest` raises a `TypeError` on a text that is not ASCII.
unfoldable pub authorize : String → String → Result Granted
authorize header expected =
    if not (is_ascii (offered header) && is_ascii expected)
    then crash
    else if offered header == expected
    then ok granted
    else deny (denied "this token is not the one the fleet was given" 401)

unfoldable pub lstrip_slash : String → String
lstrip_slash String.[] = String.[]
lstrip_slash (String.◌∷◌ c s) =
    let rest = lstrip_slash s in if code c == 47 then rest else String.◌∷◌ c s

unfoldable pub rstrip_slash : String → String
rstrip_slash String.[] = String.[]
rstrip_slash (String.◌∷◌ c s) =
    let rest = rstrip_slash s in
    if (code c == 47) && (rest == "") then String.[] else String.◌∷◌ c rest

-- `path.strip("/")`
unfoldable pub strip_slash : String → String
unfolding lstrip_slash rstrip_slash
strip_slash path = lstrip_slash (rstrip_slash path)

-- `clean.split("/")`, and the list of a header or a setting at its commas.
unfoldable pub split_on : ℕ → String → String → List String
split_on sep cur String.[] = cur ∷ []
split_on sep cur (String.◌∷◌ c s) =
    let closed = split_on sep "" s in
    let longer = split_on sep (push cur c) s in if code c == sep then cur ∷ closed else longer

-- `clean == p or clean.startswith(f"{p}/")`
unfoldable pub under : String → String → Bool
under clean p = (clean == p) || has_prefix (p <> "/") clean

unfoldable pub climbs : String → Bool
climbs clean = contains (split_on 47 "" clean) ".."

unfoldable pub allow_path : String → List String → Result String
allow_path path allowed =
    if climbs (strip_slash path)
    then deny (denied "a path segment of '..' is not forwarded" 403)
    else if not (any (under (strip_slash path)) allowed)
    then deny (
        denied
          (cat (
            "this proxy forwards "
            ∷ join ", " allowed
            ∷ " only, not /"
            ∷ strip_slash path
            ∷ ". Set MODEL_PROXY_PATHS if the CLI legitimately needs it"
            ∷ []))
          403)
    else ok (strip_slash path)

-- `_paths`
unfoldable pub listed : List String → List String
unfolding strip_slash strip
listed [] = []
listed (p ∷ ps) =
    let rest = listed ps in
    if strip_slash (strip p) == "" then rest else strip_slash (strip p) ∷ rest

unfoldable pub paths_of : String → List String
unfolding listed split_on
paths_of raw =
    let found = listed (split_on 44 "" raw) in if is_empty found then default_paths else found

-- The pieces of `re.split(r"\s*,\s*", existing)`: the space around a comma goes, the space at
-- either end of the header stays.
unfoldable pub trim_pieces : Bool → List String → List String
trim_pieces first [] = []
trim_pieces first (p ∷ []) = (if first then p else lstrip p) ∷ []
trim_pieces first (p ∷ q ∷ ps) = rstrip (if first then p else lstrip p) ∷ trim_pieces false (q ∷ ps)

-- `[f for f in re.split(…) if f]`
unfoldable pub flags : String → List String
unfolding trim_pieces split_on
flags existing = filter (λ f. not (f == "")) (trim_pieces true (split_on 44 "" existing))

unfoldable pub with_flag : List String → String → List String
with_flag flags wanted = if contains flags wanted then flags else wanted ∷ flags

unfoldable pub merge_beta : String → String → String
unfolding flags with_flag
merge_beta existing wanted = join "," (with_flag (flags existing) wanted)

merge_beta_test : merge_beta "a , b,,c" "oauth" ≡ "oauth,a,b,c"
unfolding merge_beta join rstrip lstrip
merge_beta_test = refl
