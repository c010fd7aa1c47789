-- ===== src/Examples/Funds.antt =====
-- Concrete ledgers: omar has cash, maya has shares, and each has an open order.
use golang_predix.Common.{
  ◌≢◌, ◌+◌, ◌*◌, ◌≡◌, refl, inl, inr, none, List, [], ◌∷◌, Text, codes, arith,
}
use golang_predix.Common.Int.{pos, pos_part}
use golang_predix.Engine.Types.{
  buy, sell, market, outcome_yes, Order, Heap, Store, Trade, Holding, update,
}
use golang_predix.Engine.Ledger.{
  reserve_order, release_order, settle_trade, settle_trades, position_key, balance_of,
}
use golang_predix.Engine.Ledger.Totals.{total}
use golang_predix.Engine.Ledger.Conservation.{IsSound, Keeps, IsPriced, reserve_order-Keeps}
use golang_predix.Engine.Ledger.Settlement.{IsCovered, settle_trade-Keeps}
use golang_predix.Engine.Ledger.RoundTrip.{SameHoldings, release-reserve_order}
use golang_predix.Engine.Ledger.Gaps.{reserve_wrapping_buy, settle_trade_uncovered}
use golang_predix.Samples.{blank, offer}

abbrev bid : Order
bid = record (offer "b1" "omar" buy 3 5000) { locked_funds = pos 15000 }

abbrev ask : Order
ask = record (offer "s1" "maya" sell 2 4000) { locked_funds = pos 2 }

abbrev ledger : Store
ledger = record {
  markets = [];
  heap = update (codes "b1") bid (update (codes "s1") ask (λ r. blank));
  orders = codes "b1" ∷ codes "s1" ∷ [];
  balances = (codes "omar", record { available = pos 50000; reserved = pos 15000 }) ∷ [];
  positions = (codes "maya:e:YES", record { available = pos 3; reserved = pos 2 }) ∷ [];
}

ledger-IsSound : IsSound ledger
ledger-IsSound = record {
  cash = (record { spendable = refl; frozen = refl }, tt);
  shares = (record { spendable = refl; frozen = refl }, tt);
  cash_fits = omega arith;
  shares_fits = omega arith;
}

bid-IsPriced : IsPriced (ledger.heap (codes "b1"))
unfolding update golang_predix.Common.Text-discrete
bid-IsPriced = record { some_left = refl; exact = inr (refl, omega arith) }

reserve_order-Keeps_example : Keeps ledger (reserve_order (codes "b1") ledger).1
reserve_order-Keeps_example = reserve_order-Keeps (codes "b1") ledger ledger-IsSound bid-IsPriced

release-reserve_order_example :
    SameHoldings ledger (release_order (codes "b1") (reserve_order (codes "b1") ledger).1)
unfolding reserve_order update golang_predix.Common.Text-discrete golang_predix.Engine.Types.is_buy
    golang_predix.Engine.Ledger.reserve_funds golang_predix.Common.Dict.value_or
    golang_predix.Common.Dict.lookup golang_predix.Engine.Ledger.buy_cost
    golang_predix.Engine.Types.is_market golang_predix.Common.Int64.mul64
release-reserve_order_example =
    release-reserve_order (codes "b1") ledger ledger-IsSound bid-IsPriced refl

abbrev sale : Trade
sale = record {
  id = codes "t";
  order_id = codes "b1";
  match_order_id = codes "s1";
  event_id = codes "e";
  outcome = outcome_yes;
  buyer_id = codes "omar";
  seller_id = codes "maya";
  taker_side = buy;
  quantity = pos 2;
  price = pos 4000;
  created_at = 9;
}

sale-IsCovered : IsCovered sale ledger
unfolding golang_predix.Common.Text-discrete golang_predix.Common.Dict.value_or
    golang_predix.Common.Dict.lookup position_key golang_predix.Engine.Types.outcome_text
sale-IsCovered = record {
  some_shares = refl;
  some_price = refl;
  fits = omega arith;
  funded = omega arith;
  owned = omega arith;
}

settle_trade-Keeps_example : Keeps ledger (settle_trade sale ledger)
settle_trade-Keeps_example = settle_trade-Keeps sale ledger ledger-IsSound sale-IsCovered

-- More shares than omar has frozen cash for.
abbrev big_sale : Trade
big_sale = record sale { quantity = pos 20 }

settle_trade_uncovered_example :
    let s' = settle_trade big_sale ledger in
    let cost = pos_part (pos 20) * pos_part (pos 4000) in
    (total s'.balances + pos_part (balance_of ledger (codes "omar")).reserved
      ≡ total ledger.balances + cost)
    × ((balance_of s' (codes "maya")).available
        ≡ pos (pos_part (balance_of ledger (codes "maya")).available + cost))
    × ((balance_of s' (codes "omar")).reserved ≡ pos 0)
    × ((u : Text)
        → u ≢ codes "maya"
        → (balance_of s' u).available ≡ (balance_of ledger u).available)
unfolding golang_predix.Common.Text-discrete golang_predix.Common.Dict.value_or
    golang_predix.Common.Dict.lookup
settle_trade_uncovered_example =
    settle_trade_uncovered big_sale ledger ledger-IsSound refl refl (omega arith) (omega arith)

abbrev wrapping_ledger : Store
wrapping_ledger = record ledger { heap = λ r. offer "w1" "omar" buy 4294967296 4294967296 }

reserve_wrapping_buy_example :
    let (err, t) = reserve_order (codes "w1") wrapping_ledger in
    (err ≡ none)
    × ((t.heap (codes "w1")).locked_funds ≡ pos 0)
    × ((u : Text) → balance_of t u ≡ balance_of wrapping_ledger u)
    × (t.positions ≡ wrapping_ledger.positions)
unfolding golang_predix.Common.Text-discrete golang_predix.Engine.Types.is_buy
    golang_predix.Engine.Types.is_market golang_predix.Common.Dict.value_or
    golang_predix.Common.Dict.lookup
reserve_wrapping_buy_example =
    reserve_wrapping_buy (codes "w1") wrapping_ledger 4294967296 4294967296 refl refl refl refl refl
      (record { spendable = refl; frozen = refl }) (omega arith)
