-- ===== src/Engine/Ledger/Gaps.antt =====
-- internal/engine/ledger.go: what a BUY can do without cash. A market order freezes what there is
-- and is not held to it; the cost of a limit order is a product of int64s that wraps.
use golang_predix.Common.{
  ℕ, ◌+◌, ◌*◌, ◌%◌, ◌≤◌, ◌<◌, ◌≡◌, refl, ◌∙◌, ap, ◌≢◌, true, false, none, Text, arith,
}
use golang_predix.Common.Int.{ℤ, pos, pos_part, ltb_ℤ}
use golang_predix.Common.Int64.{
  word, int64_limit, IsNonneg, mul64, sub64, mul64_nonneg, add64_nonneg,
}
use golang_predix.Common.Dict.{Dict, insert, value_or-insert}
use golang_predix.Engine.Types.{Holding, Trade, Store, is_buy, is_market}
use golang_predix.Engine.Ledger.{
  no_balance, at_least_zero, freeze, debit, credit, balance_of, put_balance, put_position,
  put_locked, buy_cost, reserve_funds, reserve_order, pay_buyer, pay_seller, unlock_fill,
  settle_trade,
}
use golang_predix.Engine.Ledger.Totals.{
  held, total, IsSolvent, at, AllSolvent, at-IsSolvent, held-le-total,
}
use golang_predix.Engine.Ledger.Moves.{Moves, put-Moves, credit-Moves}
use golang_predix.Engine.Ledger.Conservation.{IsSound}
use golang_predix.Engine.Ledger.RoundTrip.{freeze_nothing, write_same, read_back, locked_heap}

-- A market BUY is accepted whatever its quantity, and freezes exactly what the user has available.
pub reserve_market_buy :
    (r : Text) (s : Store)
    → is_buy (s.heap r).side ≡ true
    → is_market (s.heap r).order_type ≡ true
    → let (err, t) = reserve_order r s in
      (err ≡ none) × ((t.heap r).locked_funds ≡ (balance_of s (s.heap r).user_id).available)
unfolding reserve_order reserve_funds buy_cost
reserve_market_buy r s b m =
    let a = (balance_of s (s.heap r).user_id).available in
    let fits : ltb_ℤ a a ≡ false = ground arith in
    rw (b, m, fits) (refl, ap (λ o. o.locked_funds) (locked_heap r a _))

mul64_wraps : (a b : ℕ) → (a * b) % word ≡ 0 → mul64 (pos a) (pos b) ≡ pos 0
unfolding mul64
mul64_wraps a b h = ground arith

locked_accounts :
    (r : Text) (v : ℤ) (s : Store)
    → ((put_locked r v s).balances ≡ s.balances) × ((put_locked r v s).positions ≡ s.positions)
unfolding put_locked
locked_accounts r v s = (refl, refl)

-- A BUY that is not a market order, whose quantity times its price is a multiple of 2 ^ 64, by a
-- user with a balance that is not negative and whose sum fits an int64, is accepted and freezes nothing: the locked
-- funds of the order are zero, and every user's cash and shares, available and reserved, are as before.
pub reserve_wrapping_buy :
    (r : Text) (s : Store) (n p : ℕ)
    → is_buy (s.heap r).side ≡ true
    → is_market (s.heap r).order_type ≡ false
    → (s.heap r).remaining_quantity ≡ pos n
    → (s.heap r).price ≡ pos p
    → (n * p) % word ≡ 0
    → IsSolvent (balance_of s (s.heap r).user_id)
    → held (balance_of s (s.heap r).user_id) < int64_limit
    → let (err, t) = reserve_order r s in
      (err ≡ none)
      × ((t.heap r).locked_funds ≡ pos 0)
      × ((u : Text) → balance_of t u ≡ balance_of s u)
      × (t.positions ≡ s.positions)
unfolding reserve_order reserve_funds buy_cost put_balance
reserve_wrapping_buy r s n p b l en ep wraps v small =
    let user = (s.heap r).user_id in
    let h = balance_of s user in
    let fits : ltb_ℤ h.available (pos 0) ≡ false = ground (arith, v.spendable) in
    let same = freeze_nothing (pos 0) h refl refl v small in
    let accounts = locked_accounts r (pos 0) (put_balance user (freeze (pos 0) h) s) in
    rw (b, l, en, ep, mul64_wraps n p wraps, fits)
      (
        refl,
        ap (λ o. o.locked_funds) (locked_heap r (pos 0) _),
        λ u. ap (λ d. at u d) accounts.0 ∙ write_same u user (freeze (pos 0) h) s.balances same,
        accounts.1,
      )

debit_short :
    (n : ℤ) (h : Holding)
    → IsNonneg n
    → IsSolvent h
    → pos_part h.reserved ≤ pos_part n
    → pos_part n < int64_limit
    → (debit n h).reserved ≡ pos 0
unfolding debit at_least_zero sub64
debit_short n h nonneg v short small = ground arith

debit_short-Moves :
    (k : Text) (n : ℤ) (d : Dict Holding)
    → IsNonneg n
    → AllSolvent d
    → pos_part (at k d).reserved ≤ pos_part n
    → pos_part n < int64_limit
    → Moves d (insert k (debit n (at k d)) d) 0 (pos_part (at k d).reserved)
unfolding debit
debit_short-Moves k n d nonneg v short small =
    let hv = at-IsSolvent k d v in
    let e = debit_short n (at k d) nonneg hv short small in
    put-Moves k _ d 0 _ v (record { spendable = hv.spendable; frozen = rw e refl })
      (rw e (omega arith))

unlock_fill_balances :
    (c n : ℤ) (r : Text) (s : Store) → (unlock_fill c n r s).balances ≡ s.balances
unfolding unlock_fill put_locked
unlock_fill_balances c n r s = ground arith

debit-available :
    (j k : Text) (n : ℤ) (d : Dict Holding)
    → (at j (insert k (debit n (at k d)) d)).available ≡ (at j d).available
unfolding debit
debit-available j k n d = ground (arith, value_or-insert j k (debit n (at k d)) no_balance d)

write_other : (j k : Text) (x : Holding) (d : Dict Holding) → j ≢ k → at j (insert k x d) ≡ at j d
write_other j k x d ne = ground (arith, value_or-insert j k x no_balance d)

credit-reserved :
    (j k : Text) (n : ℤ) (d : Dict Holding)
    → (at j (insert k (credit n (at k d)) d)).reserved ≡ (at j d).reserved
unfolding credit
credit-reserved j k n d = ground (arith, value_or-insert j k (credit n (at k d)) no_balance d)

credit_lem :
    (n : ℤ) (h : Holding)
    → IsNonneg n
    → IsNonneg h.available
    → pos_part h.available + pos_part n < int64_limit
    → (credit n h).available ≡ pos (pos_part h.available + pos_part n)
unfolding credit
credit_lem n h nonneg v fits = add64_nonneg h.available n v nonneg fits

-- The balances behind a settlement: the buyer's are debited first, then the seller's credited.
settled_balances :
    (t : Trade) (s : Store)
    → let c = mul64 t.quantity t.price in
      let d = insert t.buyer_id (debit c (at t.buyer_id s.balances)) s.balances in
      (settle_trade t s).balances ≡ insert t.seller_id (credit c (at t.seller_id d)) d
unfolding settle_trade pay_buyer pay_seller put_balance put_position
settled_balances t s = unlock_fill_balances _ _ _ _ ∙ unlock_fill_balances _ _ _ _

-- In a ledger where no holding is negative and the cash and the shares of all users fit an
-- int64, also with the cost of the trade added, the settlement of a trade for which the buyer
-- has frozen no more than the cost raises the sum of all cash by the difference: the seller's available cash grows by
-- the whole cost, while the buyer's reserved cash ends at zero and the available cash of everyone but the seller
-- is as before.
pub settle_trade_uncovered :
    (t : Trade) (s : Store)
    → IsSound s
    → IsNonneg t.quantity
    → IsNonneg t.price
    → total s.balances + pos_part t.quantity * pos_part t.price < int64_limit
    → pos_part (balance_of s t.buyer_id).reserved ≤ pos_part t.quantity * pos_part t.price
    → let s' = settle_trade t s in
      let cost = pos_part t.quantity * pos_part t.price in
      (total s'.balances + pos_part (balance_of s t.buyer_id).reserved ≡ total s.balances + cost)
      × ((balance_of s' t.seller_id).available
          ≡ pos (pos_part (balance_of s t.seller_id).available + cost))
      × ((balance_of s' t.buyer_id).reserved ≡ pos 0)
      × ((u : Text) → u ≢ t.seller_id → (balance_of s' u).available ≡ (balance_of s u).available)
settle_trade_uncovered t s v nq np fits short =
    let c = mul64 t.quantity t.price in
    let e = mul64_nonneg t.quantity t.price nq np (omega arith) in
    let nonneg : IsNonneg c = rw e refl in
    let b = at t.buyer_id s.balances in
    let d = insert t.buyer_id (debit c b) s.balances in
    let d' = insert t.seller_id (credit c (at t.seller_id d)) d in
    let within : pos_part c < int64_limit = rw e (omega arith) in
    let paid = debit_short-Moves t.buyer_id c s.balances nonneg v.cash (rw e short) within in
    let kept = debit-available t.seller_id t.buyer_id c s.balances in
    let received =
      credit-Moves t.seller_id c d nonneg paid.solvent
        (omega (arith, ap pos_part e, fits, paid.sum, held-le-total t.seller_id d)) in
    rw (settled_balances t s) (
      omega (arith, ap pos_part e, paid.sum, received.sum),
      ap (λ h. h.available) (read_back t.seller_id (credit c (at t.seller_id d)) d)
          ∙ (credit_lem c (at t.seller_id d) nonneg
                (at-IsSolvent t.seller_id d paid.solvent).spendable
                (omega (arith, ap pos_part e, fits, paid.sum, held-le-total t.seller_id d))
              ∙ ap (λ n. pos n) (omega (arith, ap pos_part e, ap pos_part kept))),
      credit-reserved t.buyer_id t.seller_id c d
          ∙ (ap (λ h. h.reserved) (read_back t.buyer_id (debit c b) s.balances)
              ∙ debit_short c b nonneg (at-IsSolvent t.buyer_id s.balances v.cash) (rw e short)
                  within),
      λ u. λ ne.
          ap (λ h. h.available) (write_other u t.seller_id (credit c (at t.seller_id d)) d ne)
          ∙ debit-available u t.buyer_id c s.balances,
    )
