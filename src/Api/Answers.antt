-- ===== src/Api/Answers.antt =====
-- internal/handler and internal/dto: the answers of the API, and what the outside does with a request.
use golang_predix.Common.{
  ℕ, ◌≡◌, refl, ◌⊎◌, inl, inr, Bool, true, false, Option, none, some, List, Text, arith,
}
use golang_predix.Common.Int.{ℤ}
use golang_predix.Engine.Orders.{is_success}
use golang_predix.Engine.Commands.{Response, reply, depth, open_orders}
use golang_predix.Partition.Router.{Router}
use golang_predix.Manager.{Call, Heard, SendError}
use golang_predix.Api.Auth.{AuthError, Jwt}
use golang_predix.Api.Tables.{EventRow}

-- The HTTP status codes that are sent.
pub data StatusCode : Type 0 where
  ok_200 created_201 bad_request_400 unauthorized_401 forbidden_403 : StatusCode
  not_found_404 conflict_409 internal_500 : StatusCode

-- The texts under "error".
pub data Message : Type 0 where
  body_invalid email_registered hash_failed user_not_created invalid_credentials : Message
  token_not_generated unauthorized_user events_not_fetched invalid_event_id : Message
  event_unknown invalid_expires_at event_not_created orderbook_silent price_required : Message
  event_unknown_or_inactive event_inactive invalid_order_id order_unknown not_your_order : Message
  no_route : Message
  auth : AuthError → Message

pub data Body : Type 0 where
  error : Message → Body
  signed_up : Text → Text → ℕ → Body
  signed_in : Text → Text → Text → Body
  user_is position_of balances_of : Text → Body
  event_list : List EventRow → Body
  one_event : EventRow → Body
  from_engine : Response → Body
  hello pong : Body

pub record Answer : Type 0 where
  pub code : StatusCode
  pub body : Body

abbrev pub deny : StatusCode → Message → Answer
deny code why = record { code = code; body = error why }

abbrev pub give : StatusCode → Body → Answer
give code body = record { code = code; body = body }

-- A guard of a handler answers, or lets the request through with what it found.
pub data Guarded (A : Type 0) : Type 0 where
  stop : Answer → Guarded A
  pass : A → Guarded A

infixl 5 ◌>>=◌ ◌>>◌
abbrev pub ◌>>=◌ : {A B : Type 0} → Guarded A → (A → Guarded B) → Guarded B
stop a >>= k = stop a
pass x >>= k = k x

abbrev pub ◌>>◌ : {B : Type 0} → Guarded (Unit {0}) → Guarded B → Guarded B
g >> after = g >>= (λ u. after)

-- `if test { answer; return }`
abbrev pub stop_if : Bool → Answer → Guarded (Unit {0})
stop_if true a = stop a
stop_if false a = pass tt

-- `x, err := …; if err != nil { answer; return }`
abbrev pub need : {A : Type 0} → Option A → Answer → Guarded A
need none a = stop a
need (some x) a = pass x

-- The statements of the API that can fail for a reason that the tables do not show.
pub data Query : Type 0 where
  get_user create_user_row get_active_events get_event create_event_row delete_event_row get_order :
      Query

-- The float64 of a price, and the operations on it that `ScalePrice` and the handlers use.
pub record Floats (Float : Type 0) : Type 0 where
  pub of_int : ℤ → Float
  pub one_half : Float
  pub add : Float → Float → Float
  pub multiply : Float → Float → Float
  pub divide : Float → Float → Float
  pub truncate : Float → ℤ
  pub is_zero_float : Float → Bool
  pub is_positive : Float → Bool

-- What the outside does with one request: `uuid.Parse`, the formats that the validator checks, `time.Parse` and its
-- `Format`, bcrypt, the tokens, the statements that are refused, the ids and times that the database and the process
-- make, and the calls of Redis with what is heard.
pub record Outside : Type 0 where
  pub parse_uuid : Text → Option Text
  pub is_email : Text → Bool
  pub is_url : Text → Bool
  pub rune_count : Text → ℕ
  pub parse_time : Text → Option ℕ
  pub hash_password : Text → Option Text
  pub matches : Text → Text → Bool
  pub jwt : Jwt
  pub secret : Text
  pub now : ℕ
  pub refuses : Query → Bool
  pub row_id : Text
  pub order_uuid : Text
  pub router : Option Router
  pub call : Call
  pub calls : ℕ → Call
  pub client : Text
  pub subscribed : Bool
  pub heard : List Heard

-- `resp.Success`
unfoldable pub response_success : Response → Bool
response_success (reply r) = is_success r
response_success (depth d) = true
response_success (open_orders os) = true

-- `err != nil || !resp.Success`, with the response otherwise.
unfoldable pub succeeded : Option SendError × Option Response → Option Response
unfolding response_success
succeeded (some e, x) = none
succeeded (none, none) = none
succeeded (none, some x) = elim (response_success x) [ true ↦ some x | false ↦ none ]

-- A chain that lets a request through has a first guard that does.
pub >>=-eq-pass :
    {A B : Type 0} (g : Guarded A) (k : A → Guarded B) {y : B}
    → g >>= k ≡ pass y
    → (x : A) × (g ≡ pass x) × (k x ≡ pass y)
>>=-eq-pass (stop a) k h = cc
>>=-eq-pass (pass x) k h = (x, refl, h)

pub stop_if-pass :
    {B : Type 0} (test : Bool) (a : Answer) (g : Guarded B) {y : B}
    → (stop_if test a >> g) ≡ pass y
    → (test ≡ false) × (g ≡ pass y)
stop_if-pass true a g h = cc
stop_if-pass false a g h = (refl, h)

pub need-pass :
    {A B : Type 0} (x : Option A) (a : Answer) (k : A → Guarded B) {y : B}
    → need x a >>= k ≡ pass y
    → (z : A) × (x ≡ some z) × (k z ≡ pass y)
need-pass none a k h = cc
need-pass (some z) a k h = (z, refl, h)

-- A guard that stops is the first one that does, or one behind it.
pub stop_if-stop :
    {B : Type 0} (test : Bool) (a : Answer) (g : Guarded B) {b : Answer}
    → (stop_if test a >> g) ≡ stop b
    → (a ≡ b) ⊎ (g ≡ stop b)
stop_if-stop true a g h = inl (cc)
stop_if-stop false a g h = inr h

pub need-stop :
    {A B : Type 0} (x : Option A) (a : Answer) (k : A → Guarded B) {b : Answer}
    → need x a >>= k ≡ stop b
    → (a ≡ b) ⊎ ((z : A) × (k z ≡ stop b))
need-stop none a k h = inl (cc)
need-stop (some z) a k h = inr (z, h)

pub need-eq-pass : {A : Type 0} (x : Option A) (a : Answer) {y : A} → need x a ≡ pass y → x ≡ some y
need-eq-pass none a h = cc
need-eq-pass (some x) a h = cc

pub stop_if-eq-pass :
    (test : Bool) (a : Answer) {u : Unit {0}} → stop_if test a ≡ pass u → test ≡ false
stop_if-eq-pass true a h = cc
stop_if-eq-pass false a h = refl

pub Guarded-cases :
    {A : Type 0} (g : Guarded A) → ((a : Answer) × (g ≡ stop a)) ⊎ ((x : A) × (g ≡ pass x))
Guarded-cases (stop a) = inl (a, refl)
Guarded-cases (pass x) = inr (x, refl)

pub succeeded-eq-some :
    (r : Option SendError × Option Response) {x : Response}
    → succeeded r ≡ some x
    → r ≡ (none, some x)
unfolding succeeded response_success
succeeded-eq-some (some e, y) h = absurd (ground arith)
succeeded-eq-some (none, none) h = absurd (ground arith)
succeeded-eq-some (none, some y) h = ground arith
