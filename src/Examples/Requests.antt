-- ===== src/Examples/Requests.antt =====
-- Concrete requests to the API: a sign-in, an order, a cancellation, an event, and an order whose id is no uuid.
use golang_predix.Common.{
  ℕ, ◌+◌, ◌<◌, ltb, ◌==◌, ◌≡◌, refl, true, false, Bool, Option, none, some, List, [], ◌∷◌, ◌++◌,
  ◌⊎◌, Text, Text-discrete, codes, ite, if◌then◌else◌, ℕ_discrete, arith,
}
use golang_predix.Common.Int.{ℤ, pos, ltb_ℤ, ◌+ℤ◌, ◌*ℤ◌}
use golang_predix.Engine.Types.{buy, outcome_yes, limit}
use golang_predix.Engine.Orders.{is_empty, event_created}
use golang_predix.Engine.Commands.{reply}
use golang_predix.Manager.{added, Call, answer}
use golang_predix.Api.Auth.{
  Claims, Jwt, has_space, token_lifetime, authenticate, admits_socket, known,
}
use golang_predix.Api.Tables.{UserRow, EventRow, Site, find_user}
use golang_predix.Api.Answers.{Floats, Outside}
use golang_predix.Api.Users.{Credentials, signin}
use golang_predix.Api.Orders.{OrderBody}
use golang_predix.Api.Events.{EventBody, create_event_handler}
use golang_predix.Api.Routes.{new_order_route, drop_order_route, protected_route, serve}
use golang_predix.Api.Guarded.{OrderSent, CancelSent}
use golang_predix.Api.Behalf.{IsSigned, order_is_authorised, cancel_is_authorised}
use golang_predix.Api.Bearer.{bearer, signin_is_recognised}
use golang_predix.Api.Rollback.{IsUnused, orders_name, Refused, Opened, create_event_concludes}
use golang_predix.Examples.Tables.{tables}

-- A library of tokens that signs one set of claims.
abbrev bea_claims : Claims
bea_claims = record {
  user_id = codes "bea";
  email = codes "b@x";
  expires_at = 100 + token_lifetime;
  issued_at = 100;
}

Claims-discrete : Discrete Claims
Claims-discrete = hlevel ℕ_discrete

abbrev token : Text
token = codes "tok"

pub sign_bea : Claims → Option Text
sign_bea c = ite (Claims-discrete c bea_claims) (some token) none

pub read_bea : ℕ → Text → Option Claims
read_bea now t =
    ite (Text-discrete t token) (if ltb now bea_claims.expires_at then some bea_claims else none)
      none

pub read-sign :
    (secret : Text) (c : Claims) (t : Text) (now : ℕ)
    → sign_bea c ≡ some t
    → now < c.expires_at
    → read_bea now t ≡ some c
unfolding sign_bea read_bea
read-sign secret c t now h early = elim (Claims-discrete c bea_claims) [
  | yes e ↦
      let same : t ≡ token = ground arith in
      let soon : now < bea_claims.expires_at = ground (arith, early) in ground (arith, same, soon)
  | no ne ↦ absurd (ground arith)
]

pub no_space : (secret : Text) (c : Claims) (t : Text) → sign_bea c ≡ some t → has_space t ≡ false
unfolding sign_bea has_space
no_space secret c t h = elim (Claims-discrete c bea_claims) [
  | yes e ↦ let same : token ≡ t = ground arith in rw⁻¹ same refl
  | no ne ↦ absurd (ground arith)
]

abbrev pub tokens : Jwt
tokens = record {
  sign = λ secret. sign_bea;
  parse = λ secret. read_bea;
  parse-sign = read-sign;
  sign_no_space = no_space;
}

abbrev pub taken : Call
taken = record {
  uuid = codes "u";
  now = 1;
  incr_ok = true;
  marshal_ok = true;
  xadd = λ n. added;
  context_done = λ n. false;
}

-- A uuid is anything that does not begin with an exclamation mark.
abbrev pub read_uuid : Text → Option Text
read_uuid [] = none
read_uuid (c ∷ t) = if c == b'!' then none else some (c ∷ t)

abbrev pub web : Outside
web = record {
  parse_uuid = read_uuid;
  is_email = λ t. true;
  is_url = λ t. true;
  rune_count = λ t. 8;
  parse_time = λ t. some 900;
  hash_password = λ t. some t;
  matches = λ h t. ite (Text-discrete h t) true false;
  jwt = tokens;
  secret = codes "s";
  now = 100;
  refuses = λ q. false;
  row_id = codes "e9";
  order_uuid = codes "o9";
  router = none;
  call = taken;
  calls = λ p. taken;
  client = codes "c";
  subscribed = true;
  heard = answer (codes "u") (reply event_created) ∷ [];
}

abbrev pub cents : Floats ℤ
cents = record {
  of_int = λ z. z;
  one_half = pos 0;
  add = ◌+ℤ◌;
  multiply = ◌*ℤ◌;
  divide = λ a b. a;
  truncate = λ z. z;
  is_zero_float = λ z. false;
  is_positive = λ z. ltb_ℤ (pos 0) z;
}

abbrev pub site : Site
site = record {
  users =
      record { id = codes "bea"; email = codes "b@x"; password_hash = codes "pw"; created_at = 1 }
      ∷ [];
  events =
      record {
        id = codes "e";
        title = codes "t";
        description = codes "d";
        question = codes "q";
        thumbnail = codes "i";
        is_active = some true;
        expires_at = 900;
        created_at = 1;
      }
      ∷ [];
  db = tables;
  broker = record { streams = λ k. []; counters = λ k. 0 };
}

signin_is_recognised_example :
    (c : Credentials) × (row : UserRow) × (some
        (record { email = codes "b@x"; password = codes "pw" })
      ≡ some c)
    × (find_user c.email site.users ≡ some row)
    × (web.matches row.password_hash c.password ≡ true)
    × (row.id ≡ codes "bea")
    × (codes "b@x" ≡ c.email)
    × (authenticate web.jwt web.secret 86000 (bearer token) ≡ known (codes "bea") (codes "b@x"))
    × (is_empty token ≡ false → admits_socket web.jwt web.secret 86000 true token ≡ true)
unfolding signin is_empty Text-discrete find_user ℕ_discrete golang_predix.Api.Users.binds_signin
    golang_predix.Api.Users.get_user_by_email golang_predix.Api.Auth.generate_token sign_bea
    Claims-discrete
signin_is_recognised_example =
    signin_is_recognised web (some (record { email = codes "b@x"; password = codes "pw" })) site
      token (codes "bea") (codes "b@x") 86000 refl (omega arith)

abbrev pub wanted : OrderBody ℤ
wanted = record {
  order_id = codes "o1";
  event_id = codes "e";
  order_type = limit;
  outcome = outcome_yes;
  side = buy;
  quantity = pos 3;
  price = pos 4000;
}

order_is_authorised_example :
    let s' =
      (serve cents web (protected_route (bearer token) (new_order_route (some wanted))) site).1 in
    (s' ≡ site)
    ⊎ ((user : Text) × IsSigned web (bearer token) user
        × OrderSent cents web (some user) (some wanted) site s')
order_is_authorised_example = order_is_authorised web cents (bearer token) (some wanted) site

cancel_is_authorised_example :
    let s' =
      (serve cents web (protected_route (bearer token) (drop_order_route (codes "b1"))) site).1 in
    (s' ≡ site)
    ⊎ ((user : Text) × IsSigned web (bearer token) user
        × CancelSent web (some user) (codes "b1") site s')
cancel_is_authorised_example = cancel_is_authorised web cents (bearer token) (codes "b1") site

abbrev planned : EventBody
planned = record {
  title = codes "t";
  description = codes "d";
  question = codes "q";
  image_url = codes "i";
  expires_at = codes "2030";
}

e9-IsUnused : IsUnused (codes "e9") tables
unfolding golang_predix.Common.Dict.lookup Text-discrete orders_name
    golang_predix.Api.Tables.trades_name golang_predix.Api.Tables.positions_name
    golang_predix.Database.Worker.order_row
e9-IsUnused = record { no_volume = refl; no_order = refl; no_trade = refl; no_position = refl }

create_event_concludes_example :
    let r = create_event_handler web (some planned) site in Refused web site r ⊎ Opened web site r
create_event_concludes_example = create_event_concludes web (some planned) site refl e9-IsUnused
