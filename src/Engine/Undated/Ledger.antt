-- ===== src/Engine/Undated/Ledger.antt =====
-- internal/engine/ledger.go: the ledger does not look at the times of orders and trades.
use golang_predix.Common.{
  ◌≡◌, refl, ◌∙◌, ap, Option, none, some, List, [], ◌∷◌, map, Text, if◌then◌else◌,
}
use golang_predix.Common.Int.{ℤ, pos, leb_ℤ, ltb_ℤ}
use golang_predix.Common.Int64.{mul64}
use golang_predix.Engine.Types.{Order, Trade, Store, Status, is_buy, update, registered}
use golang_predix.Engine.Ledger.{
  put_locked, put_balance, put_position, buy_cost, reserve_funds, reserve_shares, reserve_order,
  unlock_fill, pay_buyer, pay_seller, settle_trade, settle_trades, release_funds, release_shares,
  release_order, at_least_zero, LedgerError, insufficient_funds, insufficient_shares, balance_of,
  position_of, freeze, position_key,
}
use golang_predix.Common.Int64.{sub64}
use golang_predix.Engine.Orders.{set_status}
use golang_predix.Engine.Undated.{
  if-apply, undated, undated_heap, undated_trade, undated_store, update-undated,
}

-- What an operation answers, with the store that it leaves.
abbrev pub undated_after : {A : Type 0} → A × Store → A × Store
undated_after (x, s) = (x, undated_store s)

pub write-undated :
    (r : Text) (o : Order) (s : Store)
    → undated_store (record s { heap = update r o s.heap })
      ≡ record s { heap = update r (undated o) (undated_heap s.heap) }
write-undated r o s = ap (λ h. record s { heap = h }) (update-undated r o s.heap)

pub put_locked-undated :
    (r : Text) (v : ℤ) (s : Store)
    → undated_store (put_locked r v s) ≡ put_locked r v (undated_store s)
unfolding put_locked
put_locked-undated r v s = write-undated r (record (s.heap r) { locked_funds = v }) s

pub set_status-undated :
    (r : Text) (x : Status) (s : Store)
    → undated_store (set_status r x s) ≡ set_status r x (undated_store s)
unfolding set_status
set_status-undated r x s = write-undated r (record (s.heap r) { status = x }) s

unlock_fill-undated :
    (c n : ℤ) (r : Text) (s : Store)
    → undated_store (unlock_fill c n r s) ≡ unlock_fill c n r (undated_store s)
unfolding unlock_fill
unlock_fill-undated c n r s =
    let o = s.heap r in
    let v = at_least_zero (sub64 o.locked_funds (if is_buy o.side then c else n)) in
    if-apply (λ t. undated_store t) (registered r s.orders) (put_locked r v s) s
    ∙ ap (λ t. if registered r s.orders then t else undated_store s) (put_locked-undated r v s)

settle_trade-undated :
    (t : Trade) (s : Store)
    → undated_store (settle_trade t s) ≡ settle_trade (undated_trade t) (undated_store s)
unfolding settle_trade pay_buyer pay_seller put_balance put_position
settle_trade-undated t s =
    let c = mul64 t.quantity t.price in
    let paid = pay_seller t c (pay_buyer t c s) in
    unlock_fill-undated c t.quantity t.match_order_id (unlock_fill c t.quantity t.order_id paid)
    ∙ ap (unlock_fill c t.quantity t.match_order_id)
        (unlock_fill-undated c t.quantity t.order_id paid)

pub settle_trades-undated :
    (ts : List Trade) (s : Store)
    → undated_store (settle_trades ts s) ≡ settle_trades (map undated_trade ts) (undated_store s)
unfolding settle_trades
settle_trades-undated [] s = refl
settle_trades-undated (t ∷ ts) s =
    settle_trades-undated ts (settle_trade t s)
    ∙ ap (settle_trades (map undated_trade ts)) (settle_trade-undated t s)

pub release_order-undated :
    (r : Text) (s : Store) → undated_store (release_order r s) ≡ release_order r (undated_store s)
unfolding release_order release_funds release_shares put_balance put_position
release_order-undated r s =
    let o = s.heap r in
    let back = if is_buy o.side then release_funds r s else release_shares r s in
    if-apply (λ t. undated_store t) (leb_ℤ o.locked_funds (pos 0)) s (put_locked r (pos 0) back)
    ∙ ap (λ t. if leb_ℤ o.locked_funds (pos 0) then undated_store s else t)
        (put_locked-undated r (pos 0) back
          ∙ ap (put_locked r (pos 0)) (
              if-apply (λ t. undated_store t) (is_buy o.side) (release_funds r s)
                (release_shares r s)))

reserve_funds-undated :
    (r : Text) (s : Store) → undated_after (reserve_funds r s) ≡ reserve_funds r (undated_store s)
unfolding reserve_funds buy_cost put_balance
reserve_funds-undated r s =
    let o = s.heap r in
    let bal = balance_of s o.user_id in
    let cost = buy_cost o bal in
    let test = ltb_ℤ bal.available cost in
    let short : Option LedgerError × Store =
      (some insufficient_funds, put_balance o.user_id bal s) in
    let frozen = put_balance o.user_id (freeze cost bal) s in
    if-apply (λ t. undated_after t) test short (none, put_locked r cost frozen)
    ∙ ap (λ t. if test then undated_after short else (none, t)) (put_locked-undated r cost frozen)

reserve_shares-undated :
    (r : Text) (s : Store) → undated_after (reserve_shares r s) ≡ reserve_shares r (undated_store s)
unfolding reserve_shares put_position
reserve_shares-undated r s =
    let o = s.heap r in
    let key = position_key o.user_id o.event_id o.outcome in
    let p = position_of s key in
    let n = o.remaining_quantity in
    let test = ltb_ℤ p.available n in
    let short : Option LedgerError × Store = (some insufficient_shares, put_position key p s) in
    let frozen = put_position key (freeze n p) s in
    if-apply (λ t. undated_after t) test short (none, put_locked r n frozen)
    ∙ ap (λ t. if test then undated_after short else (none, t)) (put_locked-undated r n frozen)

pub reserve_order-undated :
    (r : Text) (s : Store) → undated_after (reserve_order r s) ≡ reserve_order r (undated_store s)
unfolding reserve_order
reserve_order-undated r s =
    let b = is_buy (s.heap r).side in
    if-apply (λ t. undated_after t) b (reserve_funds r s) (reserve_shares r s)
    ∙ (ap (λ t. if b then t else undated_after (reserve_shares r s)) (reserve_funds-undated r s)
        ∙ ap (λ t. if b then reserve_funds r (undated_store s) else t) (reserve_shares-undated r s))
