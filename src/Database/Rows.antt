-- ===== src/Database/Rows.antt =====
-- db/migrations and internal/repository/models.go: the tables that the worker writes.
--
-- A DECIMAL column of shares is an integer, one of money an integer number of 1/10000: the worker
-- writes no other value. Times, and the columns that no statement of the worker reads or writes,
-- are left out. A uuid is its text as `uuid.Parse` normalises it.
use golang_predix.Common.{Bool, Option, List, Text}
use golang_predix.Common.Int.{ℤ}
use golang_predix.Common.Dict.{Dict}
use golang_predix.Engine.Types.{Side, Outcome, OrderType, Status}
use golang_predix.Database.Result.{Statement}

pub record OrderRow : Type 0 where
  pub event_id : Text
  pub user_id : Text
  pub order_type : OrderType
  pub outcome : Outcome
  pub side : Side
  pub quantity : ℤ
  pub price : ℤ
  pub status : Status
  pub filled_quantity : ℤ
  pub remaining_quantity : ℤ

pub record TradeRow : Type 0 where
  pub id : Text
  pub event_id : Text
  pub outcome : Outcome
  pub taker_order_id : Text
  pub maker_order_id : Text
  pub buyer_id : Text
  pub seller_id : Text
  pub taker_side : Side
  pub quantity : ℤ
  pub price : ℤ

pub record PositionRow : Type 0 where
  pub user_id : Text
  pub event_id : Text
  pub outcome : Outcome
  pub shares : ℤ
  pub avg_price : ℤ

pub data EntryType : Type 0 where
  buy_entry sell_entry : EntryType

pub record TransactionRow : Type 0 where
  pub user_id : Text
  pub order_id : Text
  pub trade_id : Text
  pub entry_type : EntryType
  pub outcome : Outcome
  pub quantity : ℤ
  pub price : ℤ
  pub amount : ℤ

-- The balances of the users and the volumes of the events stand for their tables.
pub record Db : Type 0 where
  pub balances : Dict ℤ
  pub orders : Dict OrderRow
  pub trades : List TradeRow
  pub positions : List PositionRow
  pub transactions : List TransactionRow
  pub volumes : Dict ℤ

-- What is outside: `uuid.Parse`, the statements that the server refuses for a reason that the
-- tables do not show (a lost connection, a foreign key, a range), the division of DECIMALs, and the
-- reading of a DECIMAL through a float64.
pub record Server : Type 0 where
  pub parse_uuid : Text → Option Text
  pub refuses : Statement → Bool
  pub divide : ℤ → ℤ → ℤ
  pub through_float : ℤ → ℤ
