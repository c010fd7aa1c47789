-- ===== src/Api/Orders.antt =====
-- internal/handler/order.go and orderbook.go, and internal/dto/order.go; `ScalePrice` and `UnscalePrice` of
-- internal/engine/types.go.
--
-- The answer of a handler that waits for the engine is `none` as long as it waits.
use golang_predix.Common.{
  Bool, true, false, not, ◌&&◌, ◌||◌, ite, Option, none, some, Text, Text-discrete, if◌then◌else◌,
}
use golang_predix.Common.Int.{ℤ, pos, ltb_ℤ}
use golang_predix.Common.Dict.{lookup}
use golang_predix.Engine.Types.{
  Side, unknown_side, Outcome, unknown_outcome, OrderType, unknown_type, is_limit, price_scale,
}
use golang_predix.Engine.Orders.{is_empty, CreateRequest}
use golang_predix.Engine.Commands.{
  CommandType, create_order_command, cancel_order_command, get_depth_command, Payload, Response,
}
use golang_predix.Database.Rows.{OrderRow}
use golang_predix.Manager.{SendError, send_and_await}
use golang_predix.Api.Tables.{EventRow, Site, find_event, is_true}
use golang_predix.Api.Answers.{
  ok_200, bad_request_400, forbidden_403, not_found_404, invalid_event_id, event_unknown,
  orderbook_silent, price_required, event_unknown_or_inactive, event_inactive, invalid_order_id,
  order_unknown, not_your_order, from_engine, Answer, deny, give, Guarded, stop, pass, ◌>>=◌, ◌>>◌,
  stop_if, need, get_event, get_order, Floats, Outside, succeeded,
}
use golang_predix.Api.Users.{payload_of, no_fields, bad_body, need_user}

-- `CreateOrderRequest`
pub record OrderBody (Float : Type 0) : Type 0 where
  pub order_id : Text
  pub event_id : Text
  pub order_type : OrderType
  pub outcome : Outcome
  pub side : Side
  pub quantity : ℤ
  pub price : Float

-- `oneof` on the three enumerations.
unfoldable pub one_of_types : OrderType → Bool
one_of_types (unknown_type t) = false
one_of_types _ = true

unfoldable pub one_of_outcomes : Outcome → Bool
one_of_outcomes (unknown_outcome t) = false
one_of_outcomes _ = true

unfoldable pub one_of_sides : Side → Bool
one_of_sides (unknown_side t) = false
one_of_sides _ = true

-- `GetEventByID` and `GetOrderByID`
unfoldable pub get_event_by_id : Outside → Text → Site → Option EventRow
get_event_by_id o id s = if o.refuses get_event then none else find_event id s.events

unfoldable pub get_order_by_id : Outside → Text → Site → Option OrderRow
get_order_by_id o id s = if o.refuses get_order then none else lookup id s.db.orders

-- What a handler makes of the end of `SendAndAwait`.
unfoldable pub settled : Option (Option SendError × Option Response) → Option (Option Response)
settled none = none
settled (some r) = some (succeeded r)

-- `SendAndAwait`, and what it leaves of the streams.
unfoldable pub send :
    Outside → Text → CommandType → Payload → Site → Option (Option Response) × Site
send o event kind payload s =
    let (result, b) =
      send_and_await o.router o.call o.client o.subscribed event kind payload o.heard s.broker in
    (settled result, record s { broker = b })

-- The end of a handler that passes on what the engine answers.
unfoldable pub relay : Option (Option Response) → Option Answer
relay none = none
relay (some none) = some (deny bad_request_400 orderbook_silent)
relay (some (some x)) = some (give ok_200 (from_engine x))

unfoldable pub send_and_relay : Outside → Text → CommandType → Payload → Site → Option Answer × Site
send_and_relay o event kind payload s =
    let (result, s') = send o event kind payload s in (relay result, s')

module _ {Float : Type 0} (fl : Floats Float) where
  -- `ScalePrice`
  unfoldable pub scale_price : Float → ℤ
  scale_price f = fl.truncate (fl.add (fl.multiply f (fl.of_int (pos price_scale))) fl.one_half)

  -- `UnscalePrice`
  unfoldable pub unscale_price : ℤ → Float
  unscale_price v = fl.divide (fl.of_int v) (fl.of_int (pos price_scale))

  -- The binding tags of `CreateOrderRequest`.
  unfoldable pub binds_order : OrderBody Float → Bool
  unfolding one_of_types one_of_outcomes one_of_sides
  binds_order q =
      not (is_empty q.event_id)
      && one_of_types q.order_type
      && one_of_outcomes q.outcome
      && one_of_sides q.side
      && ltb_ℤ (pos 0) q.quantity
      && (fl.is_zero_float q.price || fl.is_positive q.price)

  -- The fields of the payload that `CreateOrder` sends.
  unfoldable pub request_of : Outside → Text → OrderBody Float → CreateRequest
  unfolding scale_price
  request_of o user_id q = record {
    order_id = if is_empty q.order_id then o.order_uuid else q.order_id;
    event_id = q.event_id;
    user_id = user_id;
    order_type = q.order_type;
    outcome = q.outcome;
    side = q.side;
    quantity = q.quantity;
    price = scale_price q.price;
  }

  -- The guards of `CreateOrder`, and what it sends.
  unfoldable pub check_order :
      Outside → Option Text → Option (OrderBody Float) → Site → Guarded CreateRequest
  check_order o user body s = do
    user_id ← need_user user
    q ← need body bad_body
    stop_if (not (binds_order q)) bad_body
    stop_if (is_limit q.order_type && not (fl.is_positive q.price))
        (deny bad_request_400 price_required)
    id ← need (o.parse_uuid q.event_id) (deny bad_request_400 invalid_event_id)
    event ← need (get_event_by_id o id s) (deny bad_request_400 event_unknown_or_inactive)
    stop_if (not (is_true event.is_active)) (deny bad_request_400 event_inactive)
    pass (request_of o user_id q)

  -- `CreateOrder`
  unfoldable pub create_order :
      Outside → Option Text → Option (OrderBody Float) → Site → Option Answer × Site
  create_order o user body s = elim (check_order o user body s) [
    | stop a ↦ (some a, s)
    | pass q ↦ send_and_relay o q.event_id create_order_command (payload_of q) s
  ]

-- The guards of `DeleteOrder`, and the event of the order.
unfoldable pub check_delete : Outside → Option Text → Text → Site → Guarded Text
check_delete o user order_id s = do
  user_id ← need_user user
  id ← need (o.parse_uuid order_id) (deny bad_request_400 invalid_order_id)
  row ← need (get_order_by_id o id s) (deny not_found_404 order_unknown)
  stop_if (ite (Text-discrete row.user_id user_id) false true) (deny forbidden_403 not_your_order)
  pass row.event_id

-- `DeleteOrder`
unfoldable pub delete_order : Outside → Option Text → Text → Site → Option Answer × Site
delete_order o user order_id s = elim (check_delete o user order_id s) [
  | stop a ↦ (some a, s)
  | pass event ↦
      let payload = payload_of (record no_fields { order_id = order_id; event_id = event }) in
      send_and_relay o event cancel_order_command payload s
]

-- The guards of `GetOrderbook` and of `GetOrderbookDepth`, which are the same.
unfoldable pub check_orderbook : Outside → Text → Site → Guarded EventRow
check_orderbook o event_id s = do
  id ← need (o.parse_uuid event_id) (deny bad_request_400 invalid_event_id)
  need (get_event_by_id o id s) (deny not_found_404 event_unknown)

-- `GetOrderbook`, `GetOrderbookDepth`
unfoldable pub get_orderbook : Outside → Text → Site → Option Answer × Site
get_orderbook o event_id s = elim (check_orderbook o event_id s) [
  | stop a ↦ (some a, s)
  | pass row ↦
      let payload = payload_of (record no_fields { event_id = event_id }) in
      send_and_relay o event_id get_depth_command payload s
]
