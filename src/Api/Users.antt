-- ===== src/Api/Users.antt =====
-- internal/handler/auth.go and user.go, and internal/dto/auth.go.
use golang_predix.Common.{
  Bool, true, false, not, ◌&&◌, leb, Option, none, some, [], Text, if◌then◌else◌,
}
use golang_predix.Engine.Orders.{is_empty, CreateRequest}
use golang_predix.Engine.Types.{unknown_side, unknown_outcome, unknown_type}
use golang_predix.Engine.Commands.{Payload, user_created_command}
use golang_predix.Common.Int.{pos}
use golang_predix.Manager.{Broker, send_command_fanout}
use golang_predix.Api.Auth.{generate_token}
use golang_predix.Api.Tables.{UserRow, Site, find_user, create_user}
use golang_predix.Api.Answers.{
  created_201, ok_200, bad_request_400, unauthorized_401, conflict_409, internal_500, body_invalid,
  email_registered, hash_failed, user_not_created, invalid_credentials, token_not_generated,
  unauthorized_user, signed_up, signed_in, user_is, position_of, balances_of, Answer, deny, give,
  Guarded, stop, pass, ◌>>=◌, ◌>>◌, stop_if, need, get_user, create_user_row, Outside,
}

pub record Credentials : Type 0 where
  pub email : Text
  pub password : Text

-- What the engine decodes of a payload in which the fields of `q` are written and all others left out.
unfoldable pub payload_of : CreateRequest → Payload
payload_of q = record {
  as_create = some q;
  as_cancel = some (record { order_id = q.order_id; event_id = q.event_id });
  as_event = some q.event_id;
  as_user = some q.user_id;
  as_open = some (record { event_id = q.event_id; user_id = q.user_id });
}

-- The zero values of the fields.
abbrev pub no_fields : CreateRequest
no_fields = record {
  order_id = [];
  event_id = [];
  user_id = [];
  order_type = unknown_type [];
  outcome = unknown_outcome [];
  side = unknown_side [];
  quantity = pos 0;
  price = pos 0;
}

-- The binding tags of `SignupRequest` and of `SigninRequest`.
unfoldable pub binds_signup : Outside → Credentials → Bool
binds_signup o c = not (is_empty c.email) && o.is_email c.email && leb 6 (o.rune_count c.password)

unfoldable pub binds_signin : Outside → Credentials → Bool
binds_signin o c = not (is_empty c.email) && o.is_email c.email && not (is_empty c.password)

abbrev pub bad_body : Answer
bad_body = deny bad_request_400 body_invalid

-- `GetUserByEmail`
unfoldable pub get_user_by_email : Outside → Text → Site → Option UserRow
get_user_by_email o email s = if o.refuses get_user then none else find_user email s.users

abbrev is_some : {A : Type 0} → Option A → Bool
is_some none = false
is_some (some x) = true

-- `Signup` up to the insertion of the user: the email and the hash of the password.
unfoldable pub check_signup : Outside → Option Credentials → Site → Guarded (Text × Text)
check_signup o body s = do
  c ← need body bad_body
  stop_if (not (binds_signup o c)) bad_body
  stop_if (is_some (get_user_by_email o c.email s)) (deny conflict_409 email_registered)
  hash ← need (o.hash_password c.password) (deny internal_500 hash_failed)
  pass (c.email, hash)

-- `CreateUser`, which the server may refuse.
unfoldable pub insert_user : Outside → Text × Text → Site → Option (UserRow × Site)
insert_user o (email, hash) s =
    if o.refuses create_user_row then none else create_user o.row_id o.now email hash s

-- The announcement of a user to all partitions; its error is dropped.
unfoldable pub announce_user : Outside → Text → Broker → Broker
announce_user o id b =
    let payload = payload_of (record no_fields { user_id = id }) in
    (send_command_fanout o.router o.calls user_created_command payload b).1

-- `Signup`, of a server with a Redis manager
unfoldable pub signup : Outside → Option Credentials → Site → Answer × Site
signup o body s = elim (check_signup o body s) [
  | stop a ↦ (a, s)
  | pass new ↦ elim (insert_user o new s) [
    | none ↦ (deny internal_500 user_not_created, s)
    | some (row, s') ↦ (
      give created_201 (signed_up row.id row.email row.created_at),
      record s' { broker = announce_user o row.id s'.broker },
    )
  ]
]

-- `Signin`
unfoldable pub signin : Outside → Option Credentials → Site → Guarded Answer
signin o body s = do
  c ← need body bad_body
  stop_if (not (binds_signin o c)) bad_body
  row ← need (get_user_by_email o c.email s) (deny unauthorized_401 invalid_credentials)
  stop_if (not (o.matches row.password_hash c.password)) (deny unauthorized_401 invalid_credentials)
  token ←
      need (generate_token o.jwt o.secret o.now row.id row.email)
        (deny internal_500 token_not_generated)
  pass (give ok_200 (signed_in token row.id row.email))

-- `userID, exists := c.Get("userID")`
abbrev pub need_user : Option Text → Guarded Text
need_user user = need user (deny unauthorized_401 unauthorized_user)

-- `Me`, `GetPosition` and `GetBalances`
unfoldable pub me : Option Text → Guarded Answer
me user = do id ← need_user user; pass (give ok_200 (user_is id))

unfoldable pub get_position : Option Text → Guarded Answer
get_position user = do id ← need_user user; pass (give ok_200 (position_of id))

unfoldable pub get_balances : Option Text → Guarded Answer
get_balances user = do id ← need_user user; pass (give ok_200 (balances_of id))
