-- ===== src/Api/Routes.antt =====
-- internal/router/router.go: which handler answers, and which routes want a token.
use golang_predix.Common.{Option, some, Text}
use golang_predix.Api.Auth.{Identity, refused, known, authenticate}
use golang_predix.Api.Tables.{Site}
use golang_predix.Api.Answers.{
  ok_200, unauthorized_401, not_found_404, auth, no_route, hello, pong, Answer, deny, give, Guarded,
  stop, pass, Floats, Outside,
}
use golang_predix.Api.Users.{Credentials, signup, signin, me, get_position, get_balances}
use golang_predix.Api.Orders.{OrderBody, create_order, delete_order, get_orderbook}
use golang_predix.Api.Events.{EventBody, get_events, get_event, create_event_handler}

-- The routes behind the middleware.
pub data Protected (Float : Type 0) : Type 0 where
  me_route position_route balances_route events_route : Protected Float
  event_route : Text → Protected Float
  new_event_route : Option EventBody → Protected Float
  new_order_route : Option (OrderBody Float) → Protected Float
  drop_order_route : Text → Protected Float
  orderbook_route depth_route : Text → Protected Float

-- A request, with its header and its decoded body.
pub data Request (Float : Type 0) : Type 0 where
  home_route ping_route : Request Float
  signup_route signin_route : Option Credentials → Request Float
  protected_route : Text → Protected Float → Request Float
  unknown_route : Request Float

-- The answer of a handler that changes nothing.
unfoldable pub answered : Guarded Answer → Site → Option Answer × Site
answered (stop a) s = (some a, s)
answered (pass a) s = (some a, s)

module _ {Float : Type 0} (fl : Floats Float) (o : Outside) where
  -- The handlers of the protected group, for a user.
  unfoldable pub handle_protected : Protected Float → Option Text → Site → Option Answer × Site
  handle_protected me_route user s = answered (me user) s
  handle_protected position_route user s = answered (get_position user) s
  handle_protected balances_route user s = answered (get_balances user) s
  handle_protected events_route user s = answered (get_events o s) s
  handle_protected (event_route id) user s = answered (get_event o id s) s
  handle_protected (new_event_route body) user s = create_event_handler o body s
  handle_protected (new_order_route body) user s = create_order fl o user body s
  handle_protected (drop_order_route id) user s = delete_order o user id s
  handle_protected (orderbook_route id) user s = get_orderbook o id s
  handle_protected (depth_route id) user s = get_orderbook o id s

  -- `c.Set("userID", …)` and `c.Next()`, or the answer of the middleware.
  unfoldable pub through : Protected Float → Identity → Site → Option Answer × Site
  through route (refused e) s = (some (deny unauthorized_401 (auth e)), s)
  through route (known user email) s = handle_protected route (some user) s

  unfoldable pub signed : Answer × Site → Option Answer × Site
  signed (a, s) = (some a, s)

  -- `SetupRoutes`
  unfoldable pub serve : Request Float → Site → Option Answer × Site
  unfolding signed
  serve home_route s = (some (give ok_200 hello), s)
  serve ping_route s = (some (give ok_200 pong), s)
  serve (signup_route body) s = signed (signup o body s)
  serve (signin_route body) s = answered (signin o body s) s
  serve (protected_route header route) s =
      through route (authenticate o.jwt o.secret o.now header) s
  serve unknown_route s = (some (deny not_found_404 no_route), s)
