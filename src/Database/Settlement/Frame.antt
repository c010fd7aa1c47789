-- ===== src/Database/Settlement/Frame.antt =====
-- internal/dbworker/worker.go: which tables each part of a settlement leaves alone.
use golang_predix.Common.{◌≡◌, ◌∙◌, ap, some, Text, arith}
use golang_predix.Common.Int.{ℤ, pos}
use golang_predix.Common.Int64.{sub64, mul64}
use golang_predix.Engine.Types.{Status}
use golang_predix.Database.Rows.{TradeRow, Db, Server}
use golang_predix.Database.Queries.{
  update_order_fill, deduct_balance, add_balance, upsert_rows, upsert_position, insert_transaction,
  increment_event_volume,
}
use golang_predix.Database.Settlement.{position_for}
use golang_predix.Database.Settlement.Steps.{booked, Settled}

pub update_order_fill-frame :
    (id : Text) (n : ℤ) (status : Status) (db : Db)
    → ((update_order_fill id n status db).trades ≡ db.trades)
      × ((update_order_fill id n status db).balances ≡ db.balances)
      × ((update_order_fill id n status db).positions ≡ db.positions)
unfolding update_order_fill
update_order_fill-frame id n status db = ground arith

pub deduct_balance-frame :
    (user : Text) (n : ℤ) (db : Db) {db' : Db}
    → deduct_balance user n db ≡ some db'
    → (db'.trades ≡ db.trades) × (db'.orders ≡ db.orders) × (db'.positions ≡ db.positions)
unfolding deduct_balance
deduct_balance-frame user n db h = ground arith

pub add_balance-frame :
    (user : Text) (n : ℤ) (db : Db)
    → ((add_balance user n db).trades ≡ db.trades)
      × ((add_balance user n db).orders ≡ db.orders)
      × ((add_balance user n db).positions ≡ db.positions)
unfolding add_balance
add_balance-frame user n db = ground arith

pub booked-frame :
    (s : Server) (r : TradeRow) (n : ℤ) (db : Db)
    → ((booked s r n db).trades ≡ db.trades)
      × ((booked s r n db).orders ≡ db.orders)
      × ((booked s r n db).balances ≡ db.balances)
unfolding increment_event_volume insert_transaction upsert_position
booked-frame s r n db = ground arith

pub booked-positions :
    (s : Server) (r : TradeRow) (n : ℤ) (db : Db)
    → (booked s r n db).positions
      ≡ upsert_rows s
          (position_for s r.seller_id (sub64 (pos 0) r.quantity) r)
          (upsert_rows s (position_for s r.buyer_id r.quantity r) db.positions)
unfolding increment_event_volume insert_transaction upsert_position
booked-positions s r n db = ground arith

-- A settlement adds no trade, and changes orders in its two fills only.
pub Settled-frame :
    (s : Server) (r : TradeRow) (db db' : Db) (d : Settled s r db db')
    → (db'.trades ≡ db.trades) × (db'.orders ≡ d.filled_maker.orders)
Settled-frame s r db db' d =
    let total = mul64 r.quantity r.price in
    let a = update_order_fill-frame r.taker_order_id r.quantity _ db in
    let b = update_order_fill-frame r.maker_order_id r.quantity _ d.filled_taker in
    let c = deduct_balance-frame r.buyer_id total d.filled_maker d.debit_step in
    let e = add_balance-frame r.seller_id total d.paid in
    let f = booked-frame s r total (add_balance r.seller_id total d.paid) in
    (
      ap (λ x. x.trades) d.rest
          ∙ (f.0
              ∙ (e.0
                  ∙ (c.0
                      ∙ (ap (λ x. x.trades) d.maker_step
                          ∙ (b.0 ∙ (ap (λ x. x.trades) d.taker_step ∙ a.0)))))),
      ap (λ x. x.orders) d.rest ∙ (f.1 ∙ (e.1 ∙ c.1)),
    )
