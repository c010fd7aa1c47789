-- ===== src/Database/Worker/Fills.antt =====
-- internal/dbworker/worker.go and the statements on orders: what the row of an order says of its fills.
use golang_predix.Common.{
  ◌≡◌, refl, ◌∙◌, sym, ap, subst, none, some, ◌∷◌, Text, All, inl, inr, Option-cases, arith,
}
use golang_predix.Common.Int.{pos}
use golang_predix.Common.Dict.{lookup, insert, contains}
use golang_predix.Engine.Types.{Status}
use golang_predix.Database.Rows.{OrderRow, TradeRow, Db, Server}
use golang_predix.Database.Queries.{insert_order, update_order_status, update_order_fill}
use golang_predix.Database.Worker.{or_same}
use golang_predix.Database.Settlement.{fill_status}
use golang_predix.Database.Settlement.Steps.{Settled}
use golang_predix.Database.Settlement.Frame.{Settled-frame}
use golang_predix.Database.Worker.Says.{
  filled_of, Says, HasOrders, IsFilled, HasOrders-insert, AllSay-insert, update_order_fill-AllSay,
  update_order_fill-contains, update_order_fill-HasOrders, contains_found, filled_of-unknown,
}

-- A settlement that succeeds keeps the rows of the orders right.
pub Settled-IsFilled :
    (s : Server) (r : TradeRow) (db db' : Db)
    → Settled s r (record db { trades = r ∷ db.trades }) db'
    → IsFilled db
    → IsFilled db'
unfolding contains
Settled-IsFilled s r db db' d v =
    let (same_trades, same_orders) = Settled-frame s r _ db' d in
    let status = fill_status s r.quantity in
    let start = record db { trades = r ∷ db.trades } in
    let first = update_order_fill r.taker_order_id r.quantity (status d.taker) start in
    let second = update_order_fill r.maker_order_id r.quantity (status d.maker) first in
    let orders : db'.orders ≡ second.orders =
      same_orders
      ∙ (ap (λ x. x.orders) d.maker_step
          ∙ ap (λ x. (update_order_fill r.maker_order_id r.quantity (status d.maker) x).orders)
              d.taker_step) in
    let says_first =
      update_order_fill-AllSay (λ id. filled_of id db.trades) r.taker_order_id r.quantity
        (status d.taker) start v.says in
    let says_second =
      update_order_fill-AllSay _ r.maker_order_id r.quantity (status d.maker) first says_first in
    let known_first =
      update_order_fill-HasOrders r.taker_order_id r.quantity (status d.taker) start db.trades
        v.known in
    let taker_first =
      update_order_fill-contains r.taker_order_id r.taker_order_id r.quantity (status d.taker) start
        (contains_found r.taker_order_id d.taker db.orders d.taker_there) in
    let maker_first =
      contains_found r.maker_order_id d.maker first.orders
        (ap (λ x. lookup r.maker_order_id x.orders) (sym d.taker_step) ∙ d.maker_there) in
    let known =
      update_order_fill-HasOrders r.maker_order_id r.quantity (status d.maker) first (r ∷ db.trades)
        ((taker_first, maker_first), known_first) in
    record {
      known =
          subst (λ x. All (HasOrders x) db'.trades) (sym orders)
            (subst (λ x. All (HasOrders second.orders) x) (sym same_trades) known);
      says = rw (same_trades, orders) says_second;
    }

insert_order_known :
    (id : Text) (row old : OrderRow) (db : Db)
    → lookup id db.orders ≡ some old
    → or_same db (insert_order id row db) ≡ db
unfolding insert_order or_same
insert_order_known id row old db e = ground arith

insert_order_new :
    (id : Text) (row : OrderRow) (db : Db)
    → lookup id db.orders ≡ none
    → or_same db (insert_order id row db) ≡ record db { orders = insert id row db.orders }
unfolding insert_order or_same
insert_order_new id row db e = ground arith

-- A row that is written to the orders, and says what the trades add up to.
write-IsFilled :
    (id : Text) (row : OrderRow) (db : Db)
    → Says (filled_of id db.trades) row
    → IsFilled db
    → IsFilled (record db { orders = insert id row db.orders })
write-IsFilled id row db says v = record {
  known = HasOrders-insert id row db.orders db.trades v.known;
  says =
      AllSay-insert _ (λ x. filled_of x db.trades) id row db.orders v.says says (λ x differ. refl);
}

pub insert_order-IsFilled :
    (id : Text) (row : OrderRow) (db : Db)
    → Says (pos 0) row
    → IsFilled db
    → IsFilled (or_same db (insert_order id row db))
insert_order-IsFilled id row db fresh v = elim (Option-cases (lookup id db.orders)) [
  | inl e ↦
      rw (insert_order_new id row db e)
        (write-IsFilled id row db (rw (filled_of-unknown id db.orders db.trades v.known e) fresh) v)
  | inr (old, e) ↦ rw (insert_order_known id row old db e) v
]

update_order_status-none :
    (id : Text) (status : Status) (db : Db)
    → lookup id db.orders ≡ none
    → update_order_status id status db ≡ db
unfolding update_order_status
update_order_status-none id status db e = ground arith

update_order_status-some :
    (id : Text) (status : Status) (row : OrderRow) (db : Db)
    → lookup id db.orders ≡ some row
    → update_order_status id status db
      ≡ record db { orders = insert id (record row { status = status }) db.orders }
unfolding update_order_status
update_order_status-some id status row db e = ground arith

pub update_order_status-IsFilled :
    (id : Text) (status : Status) (db : Db)
    → IsFilled db
    → IsFilled (update_order_status id status db)
update_order_status-IsFilled id status db v = elim (Option-cases (lookup id db.orders)) [
  | inl e ↦ rw (update_order_status-none id status db e) v
  | inr (row, e) ↦
      let said = v.says id row e in
      rw (update_order_status-some id status row db e) (
        write-IsFilled id (record row { status = status }) db
          (record { filled = said.filled; remaining = said.remaining }) v)
]
