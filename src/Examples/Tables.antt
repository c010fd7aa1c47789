-- ===== src/Examples/Tables.antt =====
-- Concrete tables, and a worker that settles a trade in them.
use golang_predix.Common.{
  ℕ, ◌<◌, ◌≡◌, refl, true, false, Option, none, some, List, [], ◌∷◌, ◌++◌, All, Text, Text-discrete,
  codes, arith,
}
use golang_predix.Common.Int.{pos}
use golang_predix.Common.Dict.{lookup}
use golang_predix.Engine.Types.{buy, sell, outcome_yes, Trade}
use golang_predix.Database.Result.{Result, ok, err, begin, insert_trade_row}
use golang_predix.Database.Rows.{TradeRow, Db, Server}
use golang_predix.Database.Settlement.{validate_trade, settle_row, settle_in_tables}
use golang_predix.Database.Worker.{order_row}
use golang_predix.Database.Worker.Once.{settle_in_tables_again}
use golang_predix.Database.Worker.Money.{settle_row-conserves}
use golang_predix.Database.Worker.Sums.{cash_in, shares_of}
use golang_predix.Samples.{offer}

-- A server that takes all uuids and refuses nothing, and one that refuses all but two statements.
abbrev pub willing : Server
willing = record {
  parse_uuid = some;
  refuses = λ s. false;
  divide = λ a b. a;
  through_float = λ a. a;
}

abbrev failing : Server
failing = record willing {
  refuses = λ s. elim s [ begin ↦ false | insert_trade_row ↦ false | _ ↦ true ];
}

-- A buyer, a seller, and an order of each.
abbrev pub tables : Db
tables = record {
  balances = (codes "bea", pos 50000) ∷ (codes "sal", pos 100) ∷ [];
  orders =
      (codes "b1", order_row (codes "e") (codes "bea") (offer "b1" "bea" buy 3 5000))
      ∷ (codes "s1", order_row (codes "e") (codes "sal") (offer "s1" "sal" sell 2 4000))
      ∷ [];
  trades = [];
  positions = [];
  transactions = [];
  volumes = (codes "e", pos 0) ∷ [];
}

abbrev pub bargain : Trade
bargain = record {
  id = codes "t";
  order_id = codes "b1";
  match_order_id = codes "s1";
  event_id = codes "e";
  outcome = outcome_yes;
  buyer_id = codes "bea";
  seller_id = codes "sal";
  taker_side = buy;
  quantity = pos 2;
  price = pos 4000;
  created_at = 1;
}

abbrev bargain_row : TradeRow
bargain_row = record {
  id = codes "t";
  event_id = codes "e";
  outcome = outcome_yes;
  taker_order_id = codes "b1";
  maker_order_id = codes "s1";
  buyer_id = codes "bea";
  seller_id = codes "sal";
  taker_side = buy;
  quantity = pos 2;
  price = pos 4000;
}

abbrev or_empty : Result Db → Db
or_empty (ok db) = db
or_empty (err e) = tables

abbrev settled : Db
settled = or_empty (settle_in_tables willing bargain tables)

settles : settle_in_tables willing bargain tables ≡ ok settled
unfolding settle_in_tables golang_predix.Database.Settlement.trade_row settle_row
    golang_predix.Database.Queries.insert_trade golang_predix.Database.Queries.has_trade
    golang_predix.Database.Settlement.settle_new golang_predix.Database.Settlement.apply_order_fill
    lookup golang_predix.Common.Text-discrete golang_predix.Database.Queries.update_order_fill
    golang_predix.Common.Dict.insert golang_predix.Database.Settlement.pay
    golang_predix.Database.Queries.deduct_balance golang_predix.Common.Int64.mul64
    golang_predix.Database.Settlement.book_trade
settles = refl

settle_in_tables_again_example : settle_in_tables failing bargain settled ≡ ok settled
settle_in_tables_again_example =
    settle_in_tables_again willing failing bargain tables settled settles refl refl refl

settles_row : settle_row willing bargain_row tables ≡ ok settled
unfolding settle_row golang_predix.Database.Queries.insert_trade
    golang_predix.Database.Queries.has_trade golang_predix.Database.Settlement.settle_new
    golang_predix.Database.Settlement.apply_order_fill lookup golang_predix.Common.Text-discrete
    golang_predix.Database.Queries.update_order_fill golang_predix.Common.Dict.insert
    golang_predix.Database.Settlement.pay golang_predix.Database.Queries.deduct_balance
    golang_predix.Common.Int64.mul64 golang_predix.Database.Settlement.book_trade settle_in_tables
    golang_predix.Database.Queries.increment_event_volume
    golang_predix.Database.Settlement.trade_row golang_predix.Database.Queries.insert_transaction
settles_row = refl

settle_row-conserves_example :
    (cash_in settled.balances ≡ cash_in tables.balances)
    × (shares_of (codes "e") outcome_yes settled.positions
        ≡ shares_of (codes "e") outcome_yes tables.positions)
unfolding lookup golang_predix.Common.Text-discrete
settle_row-conserves_example =
    settle_row-conserves willing bargain_row tables settled (pos 100) 2 (codes "e") outcome_yes
      settles_row refl refl (omega arith)
