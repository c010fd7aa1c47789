-- ===== src/Engine/Handlers/Frame.antt =====
-- internal/engine: what the operations on the store leave alone.
use golang_predix.Common.{
  ◌≡◌, refl, ap, ◌∙◌, ◌||◌, Option, none, some, List, [], ◌∷◌, Text, arith, Bool-cases,
  Option-cases, inl, inr,
}
use golang_predix.Common.Int.{ℤ, pos, leb_ℤ}
use golang_predix.Common.Dict.{lookup}
use golang_predix.Engine.Types.{
  Status, Trade, Store, Market, OrderBook, is_buy, book_of, update_lem, registered,
}
use golang_predix.Engine.Ledger.{
  put_balance, put_position, put_locked, reserve_funds, reserve_shares, reserve_order, pay_buyer,
  pay_seller, unlock_fill, settle_trade, settle_trades, release_funds, release_shares,
  release_order,
}
use golang_predix.Engine.Matching.{Env, MatchState, is_filled, is_canceled}
use golang_predix.Engine.Orders.{
  set_status, matched, release_if_done, match_in, match_in_market, match_order,
}

pub reserve_order-orders : (r : Text) (s : Store) → (reserve_order r s).1.orders ≡ s.orders
unfolding reserve_order reserve_funds reserve_shares put_balance put_position put_locked
reserve_order-orders r s = ground arith

unlock_fill-orders : (c n : ℤ) (r : Text) (s : Store) → (unlock_fill c n r s).orders ≡ s.orders
unfolding unlock_fill put_locked
unlock_fill-orders c n r s = ground arith

settle_trade-orders : (t : Trade) (s : Store) → (settle_trade t s).orders ≡ s.orders
unfolding settle_trade pay_seller pay_buyer put_balance put_position
settle_trade-orders t s = unlock_fill-orders _ _ _ _ ∙ unlock_fill-orders _ _ _ _

settle_trades-orders : (ts : List Trade) (s : Store) → (settle_trades ts s).orders ≡ s.orders
unfolding settle_trades
settle_trades-orders [] s = refl
settle_trades-orders (t ∷ ts) s =
    settle_trades-orders ts (settle_trade t s) ∙ settle_trade-orders t s

pub release_order-orders : (r : Text) (s : Store) → (release_order r s).orders ≡ s.orders
unfolding release_order release_funds release_shares put_balance put_position put_locked
release_order-orders r s = ground arith

match_in-orders :
    (env : Env) (r : Text) (mk : Market) (b : OrderBook) (s : Store)
    → (match_in env r mk b s).1.orders ≡ s.orders
unfolding match_in
match_in-orders env r mk b s = done _ ∙ settle_trades-orders _ _ ∙ kept _
  where
    done : (t : Store) → (release_if_done r t).orders ≡ t.orders
    done t =
        unfold release_if_done in
        elim (Bool-cases (is_filled (t.heap r).status || is_canceled (t.heap r).status)) [
          | inl e ↦ rw e (release_order-orders r t)
          | inr e ↦ rw e
        ]

    kept : (m : MatchState) → (matched r (s.heap r).event_id mk b m s).orders ≡ s.orders
    kept m = unfold matched set_status in refl

-- Matching registers and removes no order.
pub match_order-orders :
    (env : Env) (r : Text) (s : Store) → (match_order env r s).1.orders ≡ s.orders
unfolding match_order
match_order-orders env r s = elim (Bool-cases (is_canceled (s.heap r).status)) [
  | inl e ↦ rw e
  | inr e ↦ rw e (market (lookup (s.heap r).event_id s.markets))
]
  where
    market : (o : Option Market) → (match_in_market env r o s).1.orders ≡ s.orders
    market none = unfold match_in_market set_status in refl
    market (some mk) =
        unfold match_in_market in
        elim (Option-cases (book_of mk (s.heap r).outcome)) [
          | inl e ↦ rw (e, match_in_market) (unfold set_status in refl)
          | inr (b, e) ↦ rw (e, match_in_market) (match_in-orders env r mk b s)
        ]

-- A release changes no order but for its lock.
pub release_order-status :
    (r : Text) (s : Store)
    → (((release_order r s).heap r).status ≡ (s.heap r).status)
      × (((release_order r s).heap r).event_id ≡ (s.heap r).event_id)
unfolding release_order release_funds release_shares put_balance put_position put_locked
release_order-status r s =
    let w = update_lem r r (record (s.heap r) { locked_funds = pos 0 }) s.heap in
    elim (Bool-cases (leb_ℤ (s.heap r).locked_funds (pos 0))) [
      | inl e ↦ rw e (refl, refl)
      | inr e ↦ rw e (elim (Bool-cases (is_buy (s.heap r).side)) [
        | inl b ↦ rw b (ground (arith, w))
        | inr b ↦ rw b (ground (arith, w))
      ])
    ]

pub release_order-registered :
    (r : Text) (s : Store) → registered r (release_order r s).orders ≡ registered r s.orders
release_order-registered r s = ap (registered r) (release_order-orders r s)

pub set_status-heap :
    (r : Text) (x : Status) (s : Store)
    → (set_status r x s).heap r ≡ record (s.heap r) { status = x }
unfolding set_status
set_status-heap r x s = ground (arith, update_lem r r (record (s.heap r) { status = x }) s.heap)

pub set_status-orders : (r : Text) (x : Status) (s : Store) → (set_status r x s).orders ≡ s.orders
unfolding set_status
set_status-orders r x s = refl
