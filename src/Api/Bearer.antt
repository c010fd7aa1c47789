-- ===== src/Api/Bearer.antt =====
-- pkg/auth/jwt.go, internal/middleware/auth.go and `Signin`: tokens, from the sign-in to a request.
use golang_predix.Common.{
  eq_true_of_not, ℕ, ◌+◌, ◌<◌, ◌≡◌, refl, sym, ap, ◌∙◌, true, false, not, Option, some, List, [],
  ◌∷◌, ◌++◌, ite, Text, Text-discrete, codes, arith,
}
use golang_predix.Engine.Orders.{is_empty}
use golang_predix.Api.Auth.{
  Jwt, has_space, token_lifetime, generate_token, validate_token, prepend, split_spaces, known,
  identify, check_parts, authenticate, admits_socket,
}
use golang_predix.Api.Tables.{UserRow, Site, find_user}
use golang_predix.Api.Answers.{ok_200, signed_in, give, pass, stop_if-pass, need-pass, Outside}
use golang_predix.Api.Users.{Credentials, binds_signin, get_user_by_email, signin}

split-token : (t : Text) → has_space t ≡ false → split_spaces t ≡ t ∷ []
unfolding has_space split_spaces
split-token [] h = refl
split-token (c ∷ t) h = ground (arith, split-token t)

-- The header of a request with a token.
abbrev pub bearer : Text → Text
bearer token = codes "Bearer " ++ token

split-bearer : (t : Text) → has_space t ≡ false → split_spaces (bearer t) ≡ codes "Bearer" ∷ t ∷ []
unfolding split_spaces prepend
split-bearer t h = rw (split-token t h)

same_scheme : {A : Type 0} (x y : A) → ite (Text-discrete (codes "Bearer") (codes "Bearer")) x y ≡ x
unfolding Text-discrete
same_scheme x y = refl

-- A token that was generated is read back until it expires.
validate-generate :
    (j : Jwt) (secret : Text) (now now' : ℕ) (user email token : Text)
    → generate_token j secret now user email ≡ some token
    → now' < now + token_lifetime
    → validate_token j secret now' token
      ≡ some (record {
        user_id = user;
        email = email;
        expires_at = now + token_lifetime;
        issued_at = now;
      })
unfolding generate_token validate_token
validate-generate j secret now now' user email token h early =
    j.parse-sign secret _ token now' h early

generate-no_space :
    (j : Jwt) (secret : Text) (now : ℕ) (user email token : Text)
    → generate_token j secret now user email ≡ some token
    → has_space token ≡ false
unfolding generate_token
generate-no_space j secret now user email token h = j.sign_no_space secret _ token h

authenticate-bearer :
    (j : Jwt) (secret : Text) (now : ℕ) (token : Text)
    → has_space token ≡ false
    → authenticate j secret now (bearer token) ≡ identify (validate_token j secret now token)
unfolding authenticate is_empty
authenticate-bearer j secret now token h =
    ap (check_parts j secret now) (split-bearer token h) ∙ unfold check_parts in same_scheme _ _

find_user-email :
    (email : Text) (us : List UserRow) (row : UserRow)
    → find_user email us ≡ some row
    → row.email ≡ email
unfolding find_user
find_user-email email [] row h = absurd (ground arith)
find_user-email email (u ∷ us) row h = elim (Text-discrete u.email email) [
  | yes e ↦ ground arith
  | no ne ↦ find_user-email email us row (ground arith)
]

get_user_by_email-some :
    (o : Outside) (email : Text) (s : Site) (row : UserRow)
    → get_user_by_email o email s ≡ some row
    → find_user email s.users ≡ some row
unfolding get_user_by_email
get_user_by_email-some o email s row h = ground arith

-- What a sign-in has found.
pub record SignedIn (o : Outside) (c : Credentials) (s : Site) (token id email : Text)
    : Type 0 where
  pub row : UserRow
  pub exists : find_user c.email s.users ≡ some row
  pub its_id : row.id ≡ id
  pub its_email : row.email ≡ email
  pub password : o.matches row.password_hash c.password ≡ true
  pub generated : generate_token o.jwt o.secret o.now id email ≡ some token

in_answer :
    (token id email token' id' email' : Text)
    → pass (give ok_200 (signed_in token id email))
      ≡ pass (give ok_200 (signed_in token' id' email'))
    → (token ≡ token') × (id ≡ id') × (email ≡ email')
in_answer token id email token' id' email' h = (cc, cc, cc)

regenerate :
    (o : Outside) (id email token id' email' token' : Text)
    → id ≡ id'
    → email ≡ email'
    → token ≡ token'
    → generate_token o.jwt o.secret o.now id email ≡ some token
    → generate_token o.jwt o.secret o.now id' email' ≡ some token'
regenerate o id email token id' email' token' p q r h = rw (← p) (rw (← q) (rw (← r) h))

signin-SignedIn :
    (o : Outside) (body : Option Credentials) (s : Site) (token id email : Text)
    → signin o body s ≡ pass (give ok_200 (signed_in token id email))
    → (c : Credentials) × (body ≡ some c) × SignedIn o c s token id email
unfolding signin
signin-SignedIn o body s token id email h =
    let (c, e₀, h₀) = need-pass body _ _ h in
    let (e₁, h₁) = stop_if-pass (not (binds_signin o c)) _ _ h₀ in
    let (row, e₂, h₂) = need-pass (get_user_by_email o c.email s) _ _ h₁ in
    let (e₃, h₃) = stop_if-pass (not (o.matches row.password_hash c.password)) _ _ h₂ in
    let (t, e₄, h₄) = need-pass (generate_token o.jwt o.secret o.now row.id row.email) _ _ h₃ in
    let (same_token, same_id, same_email) = in_answer t row.id row.email token id email h₄ in
    (
      c,
      e₀,
      record {
        row = row;
        exists = get_user_by_email-some o c.email s row e₂;
        its_id = same_id;
        its_email = same_email;
        password = eq_true_of_not _ e₃;
        generated = regenerate o row.id row.email t id email token same_id same_email same_token e₄;
      },
    )

-- A sign-in that is answered with a token has found a user with the email and a hash that the password matches, and
-- answers with the id of this user. For 24 hours from then the token, behind "Bearer " in the header of a request, makes
-- the middleware take the request as one of this user, and opens a WebSocket.
pub signin_is_recognised :
    (o : Outside) (body : Option Credentials) (s : Site) (token id email : Text) (now : ℕ)
    → signin o body s ≡ pass (give ok_200 (signed_in token id email))
    → now < o.now + token_lifetime
    → (c : Credentials) × (row : UserRow) × (body ≡ some c)
      × (find_user c.email s.users ≡ some row)
      × (o.matches row.password_hash c.password ≡ true)
      × (row.id ≡ id)
      × (email ≡ c.email)
      × (authenticate o.jwt o.secret now (bearer token) ≡ known id email)
      × (is_empty token ≡ false → admits_socket o.jwt o.secret now true token ≡ true)
signin_is_recognised o body s token id email now h early =
    let (c, is_body, k) = signin-SignedIn o body s token id email h in
    let read = validate-generate o.jwt o.secret o.now now id email token k.generated early in
    let whole = generate-no_space o.jwt o.secret o.now id email token k.generated in
    (
      c,
      k.row,
      is_body,
      k.exists,
      k.password,
      k.its_id,
      sym k.its_email ∙ find_user-email c.email s.users k.row k.exists,
      authenticate-bearer o.jwt o.secret now token whole ∙ rw read (unfold identify in refl),
      λ some_text. unfold admits_socket in rw some_text (rw read refl),
    )
