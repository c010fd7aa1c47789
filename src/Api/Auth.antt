-- ===== src/Api/Auth.antt =====
-- pkg/auth/jwt.go and internal/middleware/auth.go: who a request comes from.
--
-- The library of JSON web tokens is outside: a `Jwt` signs claims with a secret, and reads a token at a time.
use golang_predix.Common.{
  ℕ, ◌+◌, ◌*◌, ◌<◌, ◌==◌, ◌≡◌, Bool, true, false, Option, none, some, List, [], ◌∷◌, ite, Text,
  Text-discrete, codes, if◌then◌else◌,
}
use golang_predix.Engine.Orders.{is_empty}

-- `Claims`, with the two registered ones that are set; times are seconds.
pub record Claims : Type 0 where
  pub user_id : Text
  pub email : Text
  pub expires_at : ℕ
  pub issued_at : ℕ

-- `strings.Contains(t, " ")`
unfoldable pub has_space : Text → Bool
has_space [] = false
has_space (c ∷ t) = let rest = has_space t in if c == b' ' then true else rest

-- A token that was signed with a secret is read back with it until it expires, and has no space: its parts are
-- base64url, joined by dots.
pub record Jwt : Type 0 where
  pub sign : Text → Claims → Option Text
  pub parse : Text → ℕ → Text → Option Claims
  pub parse-sign :
      (secret : Text) (c : Claims) (token : Text) (now : ℕ)
      → sign secret c ≡ some token
      → now < c.expires_at
      → parse secret now token ≡ some c
  pub sign_no_space :
      (secret : Text) (c : Claims) (token : Text)
      → sign secret c ≡ some token
      → has_space token ≡ false

-- 24 hours.
abbrev pub token_lifetime : ℕ
token_lifetime = 24 * 3600

-- `GenerateToken`
unfoldable pub generate_token : Jwt → Text → ℕ → Text → Text → Option Text
generate_token j secret now user email =
    j.sign secret
      (record { user_id = user; email = email; expires_at = now + token_lifetime; issued_at = now })

-- `ValidateToken`; the library gives no token that is not valid, and the claims that it was asked for.
unfoldable pub validate_token : Jwt → Text → ℕ → Text → Option Claims
validate_token j secret now token = j.parse secret now token

unfoldable pub prepend : ℕ → List Text → List Text
prepend c [] = (c ∷ []) ∷ []
prepend c (t ∷ ts) = (c ∷ t) ∷ ts

-- `strings.Split(t, " ")`
unfoldable pub split_spaces : Text → List Text
unfolding prepend
split_spaces [] = [] ∷ []
split_spaces (c ∷ t) = let rest = split_spaces t in if c == b' ' then [] ∷ rest else prepend c rest

-- The answers of the middleware that end a request.
pub data AuthError : Type 0 where
  header_missing header_malformed token_invalid : AuthError

pub data Identity : Type 0 where
  refused : AuthError → Identity
  known : Text → Text → Identity

unfoldable pub identify : Option Claims → Identity
identify none = refused token_invalid
identify (some c) = known c.user_id c.email

-- The test of the two parts of the header.
unfoldable pub check_parts : Jwt → Text → ℕ → List Text → Identity
check_parts j secret now (scheme ∷ token ∷ []) =
    ite (Text-discrete scheme (codes "Bearer")) (identify (validate_token j secret now token))
      (refused header_malformed)
check_parts j secret now _ = refused header_malformed

-- `AuthMiddleware`
unfoldable pub authenticate : Jwt → Text → ℕ → Text → Identity
authenticate j secret now header =
    if is_empty header
    then refused header_missing
    else check_parts j secret now (split_spaces header)

-- `Server.Handle` of internal/websocket/server.go, up to the upgrade: whether a connection is taken.
unfoldable pub admits_socket : Jwt → Text → ℕ → Bool → Text → Bool
admits_socket j secret now false token = true
admits_socket j secret now true token =
    if is_empty token
    then false
    else elim (validate_token j secret now token) [ none ↦ false | some c ↦ true ]
