-- ===== src/Engine/Orders.antt =====
-- internal/engine/engine.go: the life of an order, from `handleCreateOrderP` and `matchOrder` to
-- `handleCancelOrderP`.
--
-- A payload that `json.Unmarshal` refuses is `none`. Marshalling an order, a struct of strings,
-- numbers and a time, does not fail. The mutex is released between the reservation, the emission and
-- the matching; the functions of the three parts are separate, and `create_order` runs them in turn.
pub mod Resting
use golang_predix.Common.{
  ◌+◌, ◌==◌, Bool, true, false, ◌||◌, Option, none, some, List, [], ◌∷◌, Text, if◌then◌else◌,
}
use golang_predix.Common.Int.{ℤ, pos, pos_part, neg_part, ltb_ℤ, leb_ℤ}
use golang_predix.Common.Dict.{lookup, contains, insert}
use golang_predix.Engine.Types.{
  Side, unknown_side, Outcome, unknown_outcome, OrderType, limit, market, unknown_type, Status,
  pending, partial, filled, canceled, rejected, Order, Trade, Market, OrderBook, Store, book_of,
  set_book, is_limit, is_market, update, registered,
}
use golang_predix.Engine.Ledger.{
  LedgerError, insufficient_funds, insufficient_shares, reserve_order, settle_trades, release_order,
}
use golang_predix.Engine.Matching.{
  Env, MatchState, is_filled, is_canceled, match_against_book, set_opposing,
}
use golang_predix.Engine.Book.{add_to_book}
use golang_predix.Engine.Events.{World}

-- The messages of `failure`.
pub data Failure : Type 0 where
  invalid_payload unknown_message_type event_id_required user_id_required order_id_required :
      Failure
  quantity_not_positive invalid_side invalid_outcome price_not_positive invalid_order_type : Failure
  event_not_found order_not_found order_not_cancelable wrong_event : Failure
  no_funds no_shares not_streamed : Failure

-- The bodies of `successJSON`.
pub data Reply : Type 0 where
  failed : Failure → Reply
  event_created event_exists user_ok : Reply
  order_exists : Text → Status → Reply
  order_placed : Text → Status → ℤ → ℤ → Reply
  order_gone : Text → Status → Reply

-- `resp.Success`
unfoldable pub is_success : Reply → Bool
is_success (failed f) = false
is_success _ = true

pub record CreateRequest : Type 0 where
  pub order_id : Text
  pub event_id : Text
  pub user_id : Text
  pub order_type : OrderType
  pub outcome : Outcome
  pub side : Side
  pub quantity : ℤ
  pub price : ℤ

pub record CancelRequest : Type 0 where
  pub order_id : Text
  pub event_id : Text

-- `s == ""`
unfoldable pub is_empty : Text → Bool
is_empty [] = true
is_empty (c ∷ s) = false

unfoldable pub check_side : Side → Option Failure
check_side (unknown_side t) = some invalid_side
check_side _ = none

unfoldable pub check_outcome : Outcome → Option Failure
check_outcome (unknown_outcome t) = some invalid_outcome
check_outcome _ = none

unfoldable pub check_price : OrderType → ℤ → Option Failure
check_price limit p = if leb_ℤ p (pos 0) then some price_not_positive else none
check_price market p = none
check_price (unknown_type t) p = some invalid_order_type

-- The first failure of two checks.
abbrev pub ◌orelse◌ : Option Failure → Option Failure → Option Failure
◌orelse◌ (some f) g = some f
◌orelse◌ none g = g

infixr 20 ◌orelse◌
abbrev pub when : Bool → Failure → Option Failure
when true f = some f
when false f = none

-- `validateOrder`
unfoldable pub validate_order : Order → Option Failure
validate_order o =
    when (is_empty o.event_id) event_id_required
    orelse when (is_empty o.user_id) user_id_required
    orelse when (leb_ℤ o.quantity (pos 0)) quantity_not_positive
    orelse check_side o.side
    orelse check_outcome o.outcome
    orelse check_price o.order_type o.price

-- The order that `handleCreateOrderCore` builds.
unfoldable pub new_order : World → CreateRequest → Order
new_order w q = record {
  id = if is_empty q.order_id then w.order_uuid else q.order_id;
  event_id = q.event_id;
  user_id = q.user_id;
  order_type = q.order_type;
  outcome = q.outcome;
  side = q.side;
  quantity = q.quantity;
  filled_quantity = pos 0;
  remaining_quantity = q.quantity;
  price = q.price;
  status = pending;
  locked_funds = pos 0;
  created_at = w.now;
}

unfoldable pub ledger_failure : LedgerError → Failure
ledger_failure insufficient_funds = no_funds
ledger_failure insufficient_shares = no_shares

-- A reservation, and the entry of the order into the map of orders if it succeeds.
unfoldable pub register : Text → Option LedgerError × Store → Option Reply × Store
register r (some e, s) = (some (failed (ledger_failure e)), s)
register r (none, s) = (none, record s { orders = r ∷ s.orders })

-- The first critical section: the checks against the state, the reservation and the registration.
-- A reply ends the call.
unfoldable pub admit : Order → Store → Option Reply × Store
admit o s =
    if registered o.id s.orders
    then (some (order_exists o.id (s.heap o.id).status), s)
    else if contains o.event_id s.markets
    then register o.id (reserve_order o.id (record s { heap = update o.id o s.heap }))
    else (some (failed event_not_found), s)

unfoldable pub set_status : Text → Status → Store → Store
set_status r x s = record s { heap = update r (record (s.heap r) { status = x }) s.heap }

-- `order.RemainingQuantity == 0`
abbrev pub is_zero : ℤ → Bool
is_zero z = pos_part z + neg_part z == 0

-- The state of the incoming order behind the loop, and whether its remainder rests in the book.
unfoldable pub outcome_of_match : Order → Status × Bool
outcome_of_match o =
    if is_zero o.remaining_quantity
    then (filled, false)
    else if ltb_ℤ (pos 0) o.filled_quantity
    then (if is_limit o.order_type then (partial, true) else (canceled, false))
    else (if is_market o.order_type then (canceled, false) else (pending, true))

-- The book behind the loop, with the incoming order where its remainder rests.
unfoldable pub book_after : Text → MatchState → OrderBook → OrderBook
book_after r m b =
    let o = m.heap r in
    let swept = set_opposing o.side m.resting b in
    if (outcome_of_match o).1 then add_to_book m.heap r swept else swept

-- The store behind the loop, before the ledger is told.
unfoldable pub matched : Text → Text → Market → OrderBook → MatchState → Store → Store
matched r event mk b m s =
    let o = m.heap r in
    set_status r (outcome_of_match o).0 (record s {
      heap = m.heap;
      markets = insert event (set_book o.outcome (book_after r m b) mk) s.markets;
    })

unfoldable pub release_if_done : Text → Store → Store
release_if_done r s =
    if is_filled (s.heap r).status || is_canceled (s.heap r).status then release_order r s else s

-- The matching of an order in a book of its market.
unfoldable pub match_in : Env → Text → Market → OrderBook → Store → List Trade × Store
match_in env r mk b s =
    let m = match_against_book env r s.heap b in
    (m.trades, release_if_done r (settle_trades m.trades (matched r (s.heap r).event_id mk b m s)))

unfoldable pub match_in_market : Env → Text → Option Market → Store → List Trade × Store
match_in_market env r none s = ([], set_status r rejected s)
match_in_market env r (some mk) s = elim (book_of mk (s.heap r).outcome) [
  | none ↦ ([], set_status r rejected s)
  | some b ↦ match_in env r mk b s
]

-- `matchOrder`, the part under the mutex.
unfoldable pub match_order : Env → Text → Store → List Trade × Store
match_order env r s =
    if is_canceled (s.heap r).status
    then ([], s)
    else match_in_market env r (lookup (s.heap r).event_id s.markets) s
