-- ===== src/Database/Queries.antt =====
-- internal/repository/*.sql.go: the SQL statements of the worker, on the tables.
use golang_predix.Common.{
  Bool, true, false, Option, none, some, List, [], ◌∷◌, ◌++◌, ite, Text, Text-discrete,
  if◌then◌else◌,
}
use golang_predix.Common.Int.{ℤ, pos, ltb_ℤ, leb_ℤ, ◌+ℤ◌, ◌-ℤ◌, ◌*ℤ◌}
use golang_predix.Common.Dict.{lookup, insert}
use golang_predix.Engine.Types.{Status}
use golang_predix.Engine.Matching.{Outcome-discrete}
use golang_predix.Engine.Orders.{is_zero}
use golang_predix.Database.Rows.{OrderRow, TradeRow, PositionRow, TransactionRow, Db, Server}

-- `InsertOrder`; `none` is the violation of the primary key.
unfoldable pub insert_order : Text → OrderRow → Db → Option Db
insert_order id row db = elim (lookup id db.orders) [
  | some _ ↦ none
  | none ↦ some (record db { orders = insert id row db.orders })
]

-- `UpdateOrderStatus`: an unknown id matches no row.
unfoldable pub update_order_status : Text → Status → Db → Db
update_order_status id status db = elim (lookup id db.orders) [
  | none ↦ db
  | some row ↦ record db { orders = insert id (record row { status = status }) db.orders }
]

-- `GREATEST(x, 0)`
unfoldable pub greatest_zero : ℤ → ℤ
greatest_zero x = if ltb_ℤ x (pos 0) then pos 0 else x

unfoldable pub filled_row : ℤ → Status → OrderRow → OrderRow
filled_row n status row = record row {
  filled_quantity = row.filled_quantity +ℤ n;
  remaining_quantity = greatest_zero (row.quantity -ℤ (row.filled_quantity +ℤ n));
  status = status;
}

-- `UpdateOrderFill`
unfoldable pub update_order_fill : Text → ℤ → Status → Db → Db
update_order_fill id n status db = elim (lookup id db.orders) [
  | none ↦ db
  | some row ↦ record db { orders = insert id (filled_row n status row) db.orders }
]

unfoldable pub has_trade : Text → List TradeRow → Bool
has_trade id [] = false
has_trade id (t ∷ ts) = ite (Text-discrete t.id id) true (has_trade id ts)

-- `InsertTrade`; `none` is the violation of the primary key.
unfoldable pub insert_trade : TradeRow → Db → Option Db
insert_trade t db =
    if has_trade t.id db.trades then none else some (record db { trades = t ∷ db.trades })

-- `DeductBalance`; `none` stands for no affected row.
unfoldable pub deduct_balance : Text → ℤ → Db → Option Db
deduct_balance user amount db = elim (lookup user db.balances) [
  | none ↦ none
  | some balance ↦
      if leb_ℤ amount balance
      then some (record db { balances = insert user (balance -ℤ amount) db.balances })
      else none
]

-- `AddBalance`
unfoldable pub add_balance : Text → ℤ → Db → Db
add_balance user amount db = elim (lookup user db.balances) [
  | none ↦ db
  | some balance ↦ record db { balances = insert user (balance +ℤ amount) db.balances }
]

-- The conflict of two rows on the primary key of positions.
unfoldable pub same_position : PositionRow → PositionRow → Bool
same_position p q =
    ite (Text-discrete p.user_id q.user_id)
      (ite (Text-discrete p.event_id q.event_id)
        (ite (Outcome-discrete p.outcome q.outcome) true false) false)
      false

-- `DO UPDATE` of `UpsertPosition`, of an old row by the excluded one.
unfoldable pub merge_position : Server → PositionRow → PositionRow → PositionRow
merge_position s old new =
    let shares = old.shares +ℤ new.shares in
    record old {
      shares = shares;
      avg_price =
          if is_zero shares
          then new.avg_price
          else s.divide (old.avg_price *ℤ old.shares +ℤ new.avg_price *ℤ new.shares) shares;
    }

unfoldable pub upsert_rows : Server → PositionRow → List PositionRow → List PositionRow
upsert_rows s new [] = new ∷ []
upsert_rows s new (p ∷ ps) =
    if same_position p new then merge_position s p new ∷ ps else p ∷ upsert_rows s new ps

-- `UpsertPosition`
unfoldable pub upsert_position : Server → PositionRow → Db → Db
upsert_position s new db = record db { positions = upsert_rows s new db.positions }

-- `InsertTransaction`
unfoldable pub insert_transaction : TransactionRow → Db → Db
insert_transaction t db = record db { transactions = db.transactions ++ t ∷ [] }

-- `IncrementEventVolume`
unfoldable pub increment_event_volume : Text → ℤ → Db → Db
increment_event_volume event amount db = elim (lookup event db.volumes) [
  | none ↦ db
  | some volume ↦ record db { volumes = insert event (volume +ℤ amount) db.volumes }
]
