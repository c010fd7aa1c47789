-- ===== src/Engine/Handlers.antt =====
-- internal/engine/engine.go, the command handlers, and `handleUserCreated` of ledger.go.
pub mod Frame
pub mod Cancel
pub mod Resubmit
pub mod Announce
pub mod Stream
use golang_predix.Common.{
  ℕ, ◌+◌, Bool, true, false, Option, none, some, List, [], ◌∷◌, ite, Text, Text-discrete,
  if◌then◌else◌,
}
use golang_predix.Common.Int.{pos, leb_ℤ}
use golang_predix.Common.Dict.{lookup, contains, insert}
use golang_predix.Engine.Types.{
  rejected, canceled, Order, Trade, Market, OrderBook, Store, new_market, book_of, set_book, is_buy,
  registered, unregister,
}
use golang_predix.Engine.Ledger.{release_order, create_user}
use golang_predix.Engine.Matching.{Env, is_filled, is_canceled, is_rejected}
use golang_predix.Engine.Book.{remove_order}
use golang_predix.Engine.Events.{
  trade_executed, order_created, order_canceled, trade_data, order_data, cancel_data, Engine, World,
  emit_event,
}
use golang_predix.Engine.Orders.{
  Failure, invalid_payload, event_id_required, user_id_required, order_id_required,
  quantity_not_positive, order_not_found, wrong_event, order_not_cancelable, event_not_found,
  not_streamed, Reply, failed, event_created, event_exists, user_ok, order_placed, order_gone,
  is_success, CreateRequest, CancelRequest, is_empty, validate_order, new_order, admit, set_status,
  match_order,
}

unfoldable pub set_store : Store → Engine → Engine
set_store s e = record e { store = s }

unfoldable pub env_of : World → Env
env_of w = record { uuid = w.trade_uuid; now = w.now }

-- `handleCreateEvent`
unfoldable pub create_event : Option Text → Engine → Reply × Engine
create_event none e = (failed invalid_payload, e)
create_event (some event) e =
    let s = e.store in
    if is_empty event
    then (failed event_id_required, e)
    else if contains event s.markets
    then (event_exists, e)
    else (event_created, set_store (record s { markets = insert event new_market s.markets }) e)

-- `handleUserCreated`
unfoldable pub user_created : Option Text → Engine → Reply × Engine
user_created none e = (failed invalid_payload, e)
user_created (some user) e =
    if is_empty user
    then (failed user_id_required, e)
    else (user_ok, set_store (create_user user e.store) e)

unfoldable pub count_filled : Bool → Engine → Engine
count_filled done e =
    let m = e.metrics in
    if done then record e { metrics = record m { orders_filled = m.orders_filled + 1 } } else e

-- The loop of `matchOrder` that publishes the trades; a failed publication is logged.
unfoldable pub publish_trades : World → ℕ → List Trade → Engine → Engine
publish_trades w partition [] e = e
publish_trades w partition (t ∷ ts) e =
    let m = e.metrics in
    let counted = record e { metrics = record m { trades_executed = m.trades_executed + 1 } } in
    publish_trades w partition ts
      (emit_event w partition trade_executed (trade_data t) true counted).1

-- `matchOrder`: the match under the mutex, then, unless the partition replays, the reports.
unfoldable pub match_and_report : World → ℕ → Text → Engine → Engine
match_and_report w partition r e =
    let (trades, s) = match_order (env_of w) r e.store in
    let e' = set_store s e in
    if e.replaying partition
    then e'
    else publish_trades w partition trades (count_filled (is_filled (s.heap r).status) e')

-- The answer to a placed order, and the counter of processed orders.
unfoldable pub placed : Text → Engine → Reply × Engine
placed r e =
    let o = e.store.heap r in
    let m = e.metrics in
    (
      order_placed o.id o.status o.filled_quantity o.remaining_quantity,
      record e { metrics = record m { orders_processed = m.orders_processed + 1 } },
    )

-- The undoing of a registration that could not be announced. The reservation is kept.
unfoldable pub withdraw : Text → Store → Store
withdraw r s = set_status r rejected (record s { orders = unregister r s.orders })

unfoldable pub announce : World → ℕ → Text → Engine → Reply × Engine
announce w partition r e =
    let (err, e') = emit_event w partition order_created (order_data (e.store.heap r)) false e in
    elim err [
      | some x ↦ (failed not_streamed, set_store (withdraw r e'.store) e')
      | none ↦ placed r (match_and_report w partition r e')
    ]

unfoldable pub admit_and_announce : World → ℕ → Order → Engine → Reply × Engine
admit_and_announce w partition o e =
    let (answer, s) = admit o e.store in
    elim answer [
      | some reply ↦ (reply, set_store s e)
      | none ↦ announce w partition o.id (set_store s e)
    ]

-- `handleCreateOrderCore`
unfoldable pub create_order_core : World → ℕ → Option CreateRequest → Engine → Reply × Engine
create_order_core w partition none e = (failed invalid_payload, e)
create_order_core w partition (some q) e =
    let o = new_order w q in
    if leb_ℤ q.quantity (pos 0)
    then (failed quantity_not_positive, e)
    else elim (validate_order o) [
      | some f ↦ (failed f, e)
      | none ↦ admit_and_announce w partition o e
    ]

unfoldable pub count_answer : Bool → Engine → Engine
count_answer accepted e =
    let m = e.metrics in
    if accepted
    then record e { metrics = record m { orders_accepted = m.orders_accepted + 1 } }
    else record e { metrics = record m { orders_rejected = m.orders_rejected + 1 } }

-- `handleCreateOrderP`
unfoldable pub create_order : World → ℕ → Option CreateRequest → Engine → Reply × Engine
create_order w partition q e =
    let (reply, e') = create_order_core w partition q e in
    (reply, if e'.replaying partition then e' else count_answer (is_success reply) e')

-- The removal of a canceled order from its side of the book.
unfoldable pub take_from_book : Order → Market → OrderBook → Store → Store
take_from_book o mk b s =
    let b' =
      if is_buy o.side
      then record b { bids = remove_order o.id b.bids }
      else record b { asks = remove_order o.id b.asks } in
    record s { markets = insert o.event_id (set_book o.outcome b' mk) s.markets }

-- The cancellation of an order in its market. A book is missing only for an outcome that
-- `validateOrder` refuses; the source would stop there with a nil pointer.
unfoldable pub cancel_in : Text → Market → Store → Store
cancel_in r mk s =
    let o = s.heap r in
    let swept : Store = elim (book_of mk o.outcome) [
      | none ↦ s
      | some b ↦ take_from_book o mk b s
    ] in
    release_order r (set_status r canceled swept)

-- The critical section of `handleCancelOrderP`. The last failure cannot occur while an order that
-- can be canceled has its market.
unfoldable pub cancel_checked : Text → Text → Store → Option Failure × Store
cancel_checked r event s =
    let o = s.heap r in
    let closed : Option Failure × Store = (some order_not_cancelable, s) in
    let elsewhere : Option Failure × Store = (some wrong_event, s) in
    let go : Option Failure × Store =
      if is_filled o.status
      then closed
      else if is_canceled o.status
      then closed
      else if is_rejected o.status
      then closed
      else elim (lookup o.event_id s.markets) [
        | none ↦ (some event_not_found, s)
        | some mk ↦ (none, cancel_in r mk s)
      ] in
    if registered r s.orders
    then (if is_empty event then go else ite (Text-discrete o.event_id event) go elsewhere)
    else (some order_not_found, s)

unfoldable pub count_canceled : Engine → Engine
count_canceled e =
    let m = e.metrics in record e { metrics = record m { orders_canceled = m.orders_canceled + 1 } }

-- `handleCancelOrderP`; a failed emission is logged.
unfoldable pub cancel_order : World → ℕ → Option CancelRequest → Engine → Reply × Engine
cancel_order w partition none e = (failed invalid_payload, e)
cancel_order w partition (some q) e =
    let (answer, s) = cancel_checked q.order_id q.event_id e.store in
    let e' = set_store s e in
    let counted = if e.replaying partition then e' else count_canceled e' in
    if is_empty q.order_id then (failed order_id_required, e) else elim answer [
      | some f ↦ (failed f, e')
      | none ↦ (
        order_gone q.order_id canceled,
        (emit_event w partition order_canceled (cancel_data q.order_id) false counted).1,
      )
    ]
