-- ===== src/Database/Settlement/Steps.antt =====
-- internal/dbworker/worker.go, `settleTrade`: what a settlement that succeeds has done.
use golang_predix.Common.{
  ◌≡◌, ◌∙◌, ap, some, true, false, ◌∷◌, Text, arith, Bool-cases, Option-cases, inl, inr, ◌⊎◌,
}
use golang_predix.Common.Int.{ℤ, pos}
use golang_predix.Common.Int64.{sub64, mul64}
use golang_predix.Common.Dict.{lookup}
use golang_predix.Engine.Types.{Trade}
use golang_predix.Database.Result.{
  Statement, begin, insert_trade_row, load_taker, fill_taker, load_maker, fill_maker, ok, >>=-eq-ok,
}
use golang_predix.Database.Rows.{OrderRow, TradeRow, buy_entry, sell_entry, Db, Server}
use golang_predix.Database.Queries.{
  update_order_fill, has_trade, insert_trade, deduct_balance, add_balance, upsert_position,
  insert_transaction, increment_event_volume,
}
use golang_predix.Database.Settlement.{
  fill_status, apply_order_fill, entry_for, position_for, pay, book_trade, settle_new, settle_row,
  settle_in_tables, trade_row, send,
}

module _ (s : Server) where
  -- The tables behind steps 4 to 6.
  abbrev pub booked : TradeRow → ℤ → Db → Db
  booked r total db = increment_event_volume r.event_id total (
      insert_transaction (entry_for s sell_entry r.seller_id r.maker_order_id total r) (
        insert_transaction (entry_for s buy_entry r.buyer_id r.taker_order_id total r) (
          upsert_position s (position_for s r.seller_id (sub64 (pos 0) r.quantity) r)
            (upsert_position s (position_for s r.buyer_id r.quantity r) db))))

  pub book_trade-ok :
      (r : TradeRow) (total : ℤ) (db : Db) {db' : Db}
      → book_trade s r total db ≡ ok db'
      → db' ≡ booked r total db
  unfolding book_trade
  book_trade-ok r total db h = ground arith

  pub pay-ok :
      (r : TradeRow) (total : ℤ) (db : Db) {db' : Db}
      → pay s r total db ≡ ok db'
      → (p : Db) × (deduct_balance r.buyer_id total db ≡ some p)
        × (db' ≡ add_balance r.seller_id total p)
  unfolding pay
  pay-ok r total db h = elim (Option-cases (deduct_balance r.buyer_id total db)) [
    | inl e ↦ absurd (ground arith)
    | inr (p, e) ↦ (p, e, ground arith)
  ]

  pub apply_order_fill-ok :
      (load update : Statement) (id : Text) (n : ℤ) (db : Db) {db' : Db}
      → apply_order_fill s load update id n db ≡ ok db'
      → (row : OrderRow) × (lookup id db.orders ≡ some row)
        × (db' ≡ update_order_fill id n (fill_status s n row) db)
  unfolding apply_order_fill
  apply_order_fill-ok load update id n db h = elim (Option-cases (lookup id db.orders)) [
    | inl e ↦ absurd (ground arith)
    | inr (row, e) ↦ (row, e, ground arith)
  ]

  -- The steps of a new trade's settlement, each from the tables that the one before left.
  pub record Settled (r : TradeRow) (db db' : Db) : Type 0 where
    pub taker : OrderRow
    pub maker : OrderRow
    pub filled_taker : Db
    pub filled_maker : Db
    pub paid : Db
    pub taker_there : lookup r.taker_order_id db.orders ≡ some taker
    pub taker_step :
        filled_taker
        ≡ update_order_fill r.taker_order_id r.quantity (fill_status s r.quantity taker) db
    pub maker_there : lookup r.maker_order_id filled_taker.orders ≡ some maker
    pub maker_step :
        filled_maker
        ≡ update_order_fill r.maker_order_id r.quantity
            (fill_status s r.quantity maker)
            filled_taker
    pub debit_step : deduct_balance r.buyer_id (mul64 r.quantity r.price) filled_maker ≡ some paid
    pub rest :
        db'
        ≡ booked r
            (mul64 r.quantity r.price)
            (add_balance r.seller_id (mul64 r.quantity r.price) paid)

  pub settle_new-ok :
      (r : TradeRow) (db : Db) {db' : Db} → settle_new s r db ≡ ok db' → Settled r db db'
  unfolding settle_new
  settle_new-ok r db {db' = db'} h =
      let total = mul64 r.quantity r.price in
      let (a, ea, ha) =
        >>=-eq-ok (apply_order_fill s load_taker fill_taker r.taker_order_id r.quantity db) _ h in
      let (b, eb, hb) =
        >>=-eq-ok (apply_order_fill s load_maker fill_maker r.maker_order_id r.quantity a) _ ha in
      let (c, ec, hc) = >>=-eq-ok (pay s r total b) _ hb in
      let (d, ed, hd) = >>=-eq-ok (book_trade s r total c) _ hc in
      let (x, tx, sx) =
        apply_order_fill-ok load_taker fill_taker r.taker_order_id r.quantity db ea in
      let (y, ty, sy) =
        apply_order_fill-ok load_maker fill_maker r.maker_order_id r.quantity a eb in
      let (p, dp, sp) = pay-ok r total b ec in
      let last : db' ≡ d = ground arith in
      record {
        taker = x;
        maker = y;
        filled_taker = a;
        filled_maker = b;
        paid = p;
        taker_there = tx;
        taker_step = sx;
        maker_there = ty;
        maker_step = sy;
        debit_step = dp;
        rest = last ∙ (book_trade-ok r total c ed ∙ ap (booked r total) sp);
      }

  insert_trade_new :
      (r : TradeRow) (db : Db)
      → has_trade r.id db.trades ≡ false
      → insert_trade r db ≡ some (record db { trades = r ∷ db.trades })
  unfolding insert_trade
  insert_trade_new r db new = rw new

  -- A settlement that succeeds found the trade there, or settled it.
  pub settle_row-ok :
      (r : TradeRow) (db : Db) {db' : Db}
      → settle_row s r db ≡ ok db'
      → ((has_trade r.id db.trades ≡ true) × (db' ≡ db))
        ⊎ ((has_trade r.id db.trades ≡ false)
            × Settled r (record db { trades = r ∷ db.trades }) db')
  unfolding settle_row insert_trade
  settle_row-ok r db h = elim (Bool-cases (has_trade r.id db.trades)) [
    | inl old ↦ inl (old, ground arith)
    | inr new ↦ inr (new, settle_new-ok r _ (rw (insert_trade_new r db new, settle_row) at h))
  ]

  -- A settlement that succeeds parsed the ids of its trade.
  pub settle_in_tables-ok :
      (t : Trade) (db : Db) {db' : Db}
      → settle_in_tables s t db ≡ ok db'
      → (r : TradeRow) × (trade_row s t ≡ ok r) × (settle_row s r db ≡ ok db')
  unfolding settle_in_tables
  settle_in_tables-ok t db h =
      let (a, ea, ha) = >>=-eq-ok (send s begin) _ h in
      let (r, er, hr) = >>=-eq-ok (trade_row s t) _ ha in
      let (b, eb, hb) = >>=-eq-ok (send s insert_trade_row) _ hr in (r, er, hb)
