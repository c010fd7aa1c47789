-- ===== src/Engine/Ledger/Settlement.antt =====
-- internal/engine/ledger.go, `settleTradeLocked`: an executed trade conserves cash and shares.
use golang_predix.Common.{◌*◌, ◌≤◌, ◌<◌, ◌≡◌, refl, ap, Text, arith, Bool-cases, inl, inr}
use golang_predix.Common.Int.{ℤ, pos, pos_part}
use golang_predix.Common.Int64.{int64_limit, IsNonneg, mul64, mul64_nonneg}
use golang_predix.Common.Dict.{insert}
use golang_predix.Engine.Types.{Trade, Store, registered}
use golang_predix.Engine.Ledger.{
  credit, debit, balance_of, position_of, put_balance, put_position, position_key, pay_buyer,
  pay_seller, unlock_fill, settle_trade,
}
use golang_predix.Engine.Ledger.Totals.{at, held-le-total}
use golang_predix.Engine.Ledger.Moves.{
  debit-Moves, credit-Moves, reserved-credit, available-reserved-le-total,
}
use golang_predix.Engine.Ledger.Conservation.{IsSound, Keeps, put_locked-Keeps}

abbrev pub seller_key : Trade → Text
seller_key t = position_key t.seller_id t.event_id t.outcome

-- The buyer has frozen the cost of the trade, and the seller its shares.
pub record IsCovered (t : Trade) (s : Store) : Type 0 where
  pub some_shares : IsNonneg t.quantity
  pub some_price : IsNonneg t.price
  pub fits : pos_part t.quantity * pos_part t.price < int64_limit
  pub funded : pos_part t.quantity * pos_part t.price ≤ pos_part (balance_of s t.buyer_id).reserved
  pub owned : pos_part t.quantity ≤ pos_part (position_of s (seller_key t)).reserved

unlock_fill-Keeps : (c n : ℤ) (r : Text) {s u : Store} → Keeps s u → Keeps s (unlock_fill c n r u)
unfolding unlock_fill
unlock_fill-Keeps c n r {u = u} k = elim (Bool-cases (registered r u.orders)) [
  | inl known ↦ rw known (put_locked-Keeps r _ k)
  | inr unknown ↦ rw unknown k
]

-- Both sides of the payment, on the two maps.
paid-Keeps :
    (t : Trade) (c : ℤ) (s : Store)
    → IsSound s
    → IsCovered t s
    → c ≡ pos (pos_part t.quantity * pos_part t.price)
    → Keeps s (pay_seller t c (pay_buyer t c s))
unfolding pay_seller pay_buyer put_balance put_position
paid-Keeps t c s v h e =
    let q = t.quantity in
    let nonneg : IsNonneg c = rw e refl in
    let seller = seller_key t in
    let buyer = position_key t.buyer_id t.event_id t.outcome in
    let paid =
      debit-Moves t.buyer_id c s.balances nonneg v.cash (rw e h.funded)
        (omega (arith, v.cash_fits, held-le-total t.buyer_id s.balances)) in
    let d = insert t.buyer_id (debit c (at t.buyer_id s.balances)) s.balances in
    let received =
      credit-Moves t.seller_id c d nonneg paid.solvent
        (omega (arith, v.cash_fits, paid.sum, held-le-total t.seller_id d)) in
    let gained = credit-Moves buyer q s.positions h.some_shares v.shares (
      omega
        (arith, h.owned, v.shares_fits, available-reserved-le-total buyer seller s.positions)) in
    let p = insert buyer (credit q (at buyer s.positions)) s.positions in
    let same = ap pos_part (reserved-credit seller buyer q s.positions) in
    let given =
      debit-Moves seller q p h.some_shares gained.solvent (omega (arith, same, h.owned))
        (omega (arith, same, v.shares_fits, held-le-total seller s.positions)) in
    record {
      cash = omega (arith, paid.sum, received.sum);
      shares = omega (arith, gained.sum, given.sum);
      sound = record {
        cash = received.solvent;
        shares = given.solvent;
        cash_fits = omega (arith, paid.sum, received.sum, v.cash_fits);
        shares_fits = omega (arith, gained.sum, given.sum, v.shares_fits);
      };
    }

-- In a ledger where no holding is negative and the cash and the shares of all users fit an
-- int64, the settlement of a trade whose cost fits an int64 and is frozen by the buyer, and
-- whose shares are frozen by the seller, leaves the cash and the shares of all users together as
-- they were, and all of that still holds of the ledger.
pub settle_trade-Keeps :
    (t : Trade) (s : Store) → IsSound s → IsCovered t s → Keeps s (settle_trade t s)
unfolding settle_trade
settle_trade-Keeps t s v h =
    let c = mul64 t.quantity t.price in
    unlock_fill-Keeps c t.quantity t.match_order_id (
      unlock_fill-Keeps c t.quantity t.order_id
        (paid-Keeps t c s v h (mul64_nonneg t.quantity t.price h.some_shares h.some_price h.fits)))
