-- ===== src/Database/Settlement.antt =====
-- internal/dbworker/worker.go, `validateTrade`, `settleTrade` and `applyOrderFill`.
--
-- A transaction is a chain of states of the tables: where it fails the tables are what they were,
-- since the deferred rollback drops it, and so it is where the trade is there already.
pub mod Steps
pub mod Frame
use golang_predix.Common.{Bool, true, false, not, Option, none, some, Text, if◌then◌else◌}
use golang_predix.Common.Int.{ℤ, pos, ltb_ℤ, leb_ℤ}
use golang_predix.Common.Int64.{add64, sub64, mul64}
use golang_predix.Common.Dict.{lookup}
use golang_predix.Engine.Types.{Outcome, unknown_outcome, Status, partial, filled, Trade}
use golang_predix.Engine.Orders.{is_empty}
use golang_predix.Database.Result.{
  Statement, begin, insert_trade_row, load_taker, fill_taker, load_maker, fill_maker, deduct_buyer,
  credit_seller, move_buyer, move_seller, record_buyer, record_seller, add_volume, commit,
  no_trade_id, no_event_id, no_taker_id, no_maker_id, no_buyer_id, no_seller_id, bad_outcome,
  bad_quantity, bad_price, WorkerError, bad_uuid, missing_order, insufficient_balance, bad_trade,
  refused, Result, ok, err, ◌>>=◌, ◌>>◌, refuse_if,
}
use golang_predix.Database.Rows.{
  OrderRow, TradeRow, PositionRow, EntryType, buy_entry, sell_entry, TransactionRow, Db, Server,
}
use golang_predix.Database.Queries.{
  update_order_fill, insert_trade, deduct_balance, add_balance, upsert_position, insert_transaction,
  increment_event_volume,
}

-- `trade.Outcome != "YES" && trade.Outcome != "NO"`
unfoldable pub is_unknown : Outcome → Bool
is_unknown (unknown_outcome t) = true
is_unknown _ = false

-- `validateTrade`
unfoldable pub validate_trade : Trade → Result (Unit {0})
unfolding is_unknown
validate_trade t = do
  refuse_if (is_empty t.id) (bad_trade no_trade_id)
  refuse_if (is_empty t.event_id) (bad_trade no_event_id)
  refuse_if (is_empty t.order_id) (bad_trade no_taker_id)
  refuse_if (is_empty t.match_order_id) (bad_trade no_maker_id)
  refuse_if (is_empty t.buyer_id) (bad_trade no_buyer_id)
  refuse_if (is_empty t.seller_id) (bad_trade no_seller_id)
  refuse_if (is_unknown t.outcome) (bad_trade bad_outcome)
  refuse_if (leb_ℤ t.quantity (pos 0)) (bad_trade bad_quantity)
  refuse_if (ltb_ℤ t.price (pos 0)) (bad_trade bad_price)

module _ (s : Server) where
  -- A statement that the server may refuse.
  abbrev pub send : Statement → Result (Unit {0})
  send st = refuse_if (s.refuses st) (refused st)

  -- `uuid.Parse`
  unfoldable pub parse : Text → Result Text
  parse t = elim (s.parse_uuid t) [ none ↦ err bad_uuid | some id ↦ ok id ]

  unfoldable pub require : WorkerError → Option Db → Result Db
  require e none = err e
  require e (some db) = ok db

  -- The row of a trade, with its ids parsed in the order of the source.
  unfoldable pub trade_row : Trade → Result TradeRow
  unfolding parse
  trade_row t = do
    id ← parse t.id
    event ← parse t.event_id
    buyer ← parse t.buyer_id
    seller ← parse t.seller_id
    taker ← parse t.order_id
    maker ← parse t.match_order_id
    ok (record {
      id = id;
      event_id = event;
      outcome = t.outcome;
      taker_order_id = taker;
      maker_order_id = maker;
      buyer_id = buyer;
      seller_id = seller;
      taker_side = t.taker_side;
      quantity = t.quantity;
      price = t.price;
    })

  -- `GetOrderByID`
  unfoldable pub get_order : Text → Db → Result OrderRow
  get_order id db = elim (lookup id db.orders) [ none ↦ err missing_order | some row ↦ ok row ]

  -- The state that `applyOrderFill` computes.
  unfoldable pub fill_status : ℤ → OrderRow → Status
  fill_status n row =
      if leb_ℤ (s.through_float row.quantity) (add64 (s.through_float row.filled_quantity) n)
      then filled
      else partial

  -- `applyOrderFill`, with the names of its two statements.
  unfoldable pub apply_order_fill : Statement → Statement → Text → ℤ → Db → Result Db
  unfolding get_order
  apply_order_fill load update id n db = do
    send load
    row ← get_order id db
    send update
    ok (update_order_fill id n (fill_status n row) db)

  unfoldable pub entry_for : EntryType → Text → Text → ℤ → TradeRow → TransactionRow
  entry_for type user order total r = record {
    user_id = user;
    order_id = order;
    trade_id = r.id;
    entry_type = type;
    outcome = r.outcome;
    quantity = r.quantity;
    price = r.price;
    amount = total;
  }

  unfoldable pub position_for : Text → ℤ → TradeRow → PositionRow
  position_for user shares r = record {
    user_id = user;
    event_id = r.event_id;
    outcome = r.outcome;
    shares = shares;
    avg_price = r.price;
  }

  -- Step 3 of `settleTrade`: the buyer pays, the seller receives.
  unfoldable pub pay : TradeRow → ℤ → Db → Result Db
  unfolding require
  pay r total db = do
    send deduct_buyer
    paid ← require insufficient_balance (deduct_balance r.buyer_id total db)
    send credit_seller
    ok (add_balance r.seller_id total paid)

  -- Steps 4 to 6, which fail only where a statement is refused.
  unfoldable pub book_trade : TradeRow → ℤ → Db → Result Db
  book_trade r total db = do
    send move_buyer
    let db₁ = upsert_position s (position_for r.buyer_id r.quantity r) db
    send move_seller
    let db₂ = upsert_position s (position_for r.seller_id (sub64 (pos 0) r.quantity) r) db₁
    send record_buyer
    let db₃ = insert_transaction (entry_for buy_entry r.buyer_id r.taker_order_id total r) db₂
    send record_seller
    let db₄ = insert_transaction (entry_for sell_entry r.seller_id r.maker_order_id total r) db₃
    send add_volume
    ok (increment_event_volume r.event_id total db₄)

  -- Steps 2 to 6, and the commit.
  unfoldable pub settle_new : TradeRow → Db → Result Db
  settle_new r db = do
    db₁ ← apply_order_fill load_taker fill_taker r.taker_order_id r.quantity db
    db₂ ← apply_order_fill load_maker fill_maker r.maker_order_id r.quantity db₁
    db₃ ← pay r (mul64 r.quantity r.price) db₂
    db₄ ← book_trade r (mul64 r.quantity r.price) db₃
    send commit
    ok db₄

  -- The end of `settleTrade`, from the insertion of the trade on.
  unfoldable pub settle_row : TradeRow → Db → Result Db
  settle_row r db = elim (insert_trade r db) [ none ↦ ok db | some db' ↦ settle_new r db' ]

  -- `settleTrade`
  unfoldable pub settle_in_tables : Trade → Db → Result Db
  settle_in_tables t db = do send begin; r ← trade_row t; send insert_trade_row; settle_row r db
