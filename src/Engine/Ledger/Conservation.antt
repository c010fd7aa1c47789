-- ===== src/Engine/Ledger/Conservation.antt =====
-- internal/engine/ledger.go: reservations, settlements and releases move cash and shares, and
-- neither make nor lose any.
use golang_predix.Common.{
  ◌*◌, ◌≤◌, ◌<◌, ◌≡◌, refl, ◌⊎◌, inl, inr, true, false, if◌then◌else◌, Text, arith, Bool-cases,
}
use golang_predix.Common.Int.{ℤ, pos, pos_part, ltb_ℤ, leb_ℤ}
use golang_predix.Common.Int64.{int64_limit, IsNonneg, mul64_nonneg}
use golang_predix.Common.Dict.{Dict, insert}
use golang_predix.Engine.Types.{Holding, Order, Store, is_buy, is_market}
use golang_predix.Engine.Ledger.{
  balance_of, position_of, put_balance, put_position, put_locked, position_key, buy_cost,
  reserve_funds, reserve_shares, reserve_order, release_funds, release_shares, release_order,
}
use golang_predix.Engine.Ledger.Totals.{total, IsSolvent, at, AllSolvent, at-IsSolvent}
use golang_predix.Engine.Ledger.Moves.{Moves, put-Moves, freeze-Moves, thaw-Moves}

-- No holding is negative, and the sums are in the range of int64.
pub record IsSound (s : Store) : Type 0 where
  pub cash : AllSolvent s.balances
  pub shares : AllSolvent s.positions
  pub cash_fits : total s.balances < int64_limit
  pub shares_fits : total s.positions < int64_limit

-- The cash and the shares of all users together are what they were, and none is negative.
pub record Keeps (s t : Store) : Type 0 where
  pub cash : total t.balances ≡ total s.balances
  pub shares : total t.positions ≡ total s.positions
  pub sound : IsSound t

pub Keeps-refl : (s : Store) → IsSound s → Keeps s s
Keeps-refl s v = record { cash = refl; shares = refl; sound = v }

pub Keeps-trans : {s t u : Store} → Keeps s t → Keeps t u → Keeps s u
Keeps-trans a b = record { cash = omega arith; shares = omega arith; sound = b.sound }

put_balance-Keeps :
    (k : Text) (h : Holding) (s : Store)
    → IsSound s
    → Moves s.balances (insert k h s.balances) 0 0
    → Keeps s (put_balance k h s)
unfolding put_balance
put_balance-Keeps k h s v m = record {
  cash = omega arith;
  shares = refl;
  sound = record {
    cash = m.solvent;
    shares = v.shares;
    cash_fits = omega arith;
    shares_fits = v.shares_fits;
  };
}

put_position-Keeps :
    (k : Text) (h : Holding) (s : Store)
    → IsSound s
    → Moves s.positions (insert k h s.positions) 0 0
    → Keeps s (put_position k h s)
unfolding put_position
put_position-Keeps k h s v m = record {
  cash = refl;
  shares = omega arith;
  sound = record {
    cash = v.cash;
    shares = m.solvent;
    cash_fits = v.cash_fits;
    shares_fits = omega arith;
  };
}

pub put_locked-Keeps : (r : Text) (x : ℤ) {s t : Store} → Keeps s t → Keeps s (put_locked r x t)
unfolding put_locked
put_locked-Keeps r x k = record {
  cash = k.cash;
  shares = k.shares;
  sound = record {
    cash = k.sound.cash;
    shares = k.sound.shares;
    cash_fits = k.sound.cash_fits;
    shares_fits = k.sound.shares_fits;
  };
}

put_same : (k : Text) (d : Dict Holding) → AllSolvent d → Moves d (insert k (at k d) d) 0 0
put_same k d v = put-Moves k (at k d) d 0 0 v (at-IsSolvent k d v) refl

-- The cost of a limit BUY is exact: neither factor is negative, and the product fits.
pub record IsPriced (o : Order) : Type 0 where
  pub some_left : IsNonneg o.remaining_quantity
  pub exact :
      (is_market o.order_type ≡ true)
      ⊎ (IsNonneg o.price × (pos_part o.remaining_quantity * pos_part o.price < int64_limit))

pub buy_cost-IsNonneg :
    (o : Order) (h : Holding) → IsPriced o → IsSolvent h → IsNonneg (buy_cost o h)
unfolding buy_cost
buy_cost-IsNonneg o h p v = ground (arith, mul64_nonneg o.remaining_quantity o.price)

pub le_of_not_ltb :
    (a b : ℤ) → IsNonneg a → IsNonneg b → ltb_ℤ a b ≡ false → pos_part b ≤ pos_part a
le_of_not_ltb a b ha hb h = ground arith

reserve_funds-Keeps :
    (r : Text) (s : Store) → IsSound s → IsPriced (s.heap r) → Keeps s (reserve_funds r s).1
unfolding reserve_funds
reserve_funds-Keeps r s v p =
    let o = s.heap r in
    let h = balance_of s o.user_id in
    let hv = at-IsSolvent o.user_id s.balances v.cash in
    let cost = buy_cost o h in
    let cv = buy_cost-IsNonneg o h p hv in
    elim (Bool-cases (ltb_ℤ h.available cost)) [
      | inl short ↦
          rw short (put_balance-Keeps o.user_id h s v (put_same o.user_id s.balances v.cash))
      | inr enough ↦ rw enough (
          put_locked-Keeps r cost (
            put_balance-Keeps o.user_id _ s v (
              freeze-Moves o.user_id cost s.balances cv v.cash v.cash_fits
                (le_of_not_ltb h.available cost hv.spendable cv enough))))
    ]

reserve_shares-Keeps :
    (r : Text) (s : Store) → IsSound s → IsPriced (s.heap r) → Keeps s (reserve_shares r s).1
unfolding reserve_shares
reserve_shares-Keeps r s v p =
    let o = s.heap r in
    let key = position_key o.user_id o.event_id o.outcome in
    let h = position_of s key in
    let hv = at-IsSolvent key s.positions v.shares in
    let n = o.remaining_quantity in
    elim (Bool-cases (ltb_ℤ h.available n)) [
      | inl short ↦ rw short (put_position-Keeps key h s v (put_same key s.positions v.shares))
      | inr enough ↦ rw enough (
          put_locked-Keeps r n (
            put_position-Keeps key _ s v (
              freeze-Moves key n s.positions p.some_left v.shares v.shares_fits
                (le_of_not_ltb h.available n hv.spendable p.some_left enough))))
    ]

-- In a ledger where no holding is negative and the cash and the shares of all users fit an
-- int64, a reservation, also one that is refused, leaves the cash and the shares of all users
-- together as they were, and all of that still holds of the ledger. The remaining quantity of
-- the order is not negative, and the price of a limit order is not negative and its cost fits an
-- int64.
pub reserve_order-Keeps :
    (r : Text) (s : Store) → IsSound s → IsPriced (s.heap r) → Keeps s (reserve_order r s).1
unfolding reserve_order
reserve_order-Keeps r s v p = elim (Bool-cases (is_buy (s.heap r).side)) [
  | inl b ↦ rw b (reserve_funds-Keeps r s v p)
  | inr b ↦ rw b (reserve_shares-Keeps r s v p)
]

-- The account that an order froze funds or shares in covers its lock.
abbrev pub IsBacked : Order → Store → Type 0
IsBacked o s =
    pos_part o.locked_funds
    ≤ pos_part (
        if is_buy o.side
        then (balance_of s o.user_id).reserved
        else (position_of s (position_key o.user_id o.event_id o.outcome)).reserved)

release_funds-Keeps :
    (r : Text) (s : Store)
    → IsSound s
    → IsNonneg (s.heap r).locked_funds
    → pos_part (s.heap r).locked_funds ≤ pos_part (balance_of s (s.heap r).user_id).reserved
    → Keeps s (release_funds r s)
unfolding release_funds
release_funds-Keeps r s v n h =
    let o = s.heap r in
    put_balance-Keeps o.user_id _ s v
      (thaw-Moves o.user_id o.locked_funds s.balances n v.cash v.cash_fits h)

release_shares-Keeps :
    (r : Text) (s : Store)
    → IsSound s
    → IsNonneg (s.heap r).locked_funds
    → pos_part (s.heap r).locked_funds
      ≤ pos_part
          (position_of s
            (position_key (s.heap r).user_id (s.heap r).event_id (s.heap r).outcome)).reserved
    → Keeps s (release_shares r s)
unfolding release_shares
release_shares-Keeps r s v n h =
    let o = s.heap r in
    let key = position_key o.user_id o.event_id o.outcome in
    put_position-Keeps key _ s v
      (thaw-Moves key o.locked_funds s.positions n v.shares v.shares_fits h)

-- In a ledger where no holding is negative and the cash and the shares of all users fit an
-- int64, the release of an order whose lock is not negative and is still covered by what its
-- account has frozen leaves the cash and the shares of all users together as they were, and all
-- of that still holds of the ledger.
pub release_order-Keeps :
    (r : Text) (s : Store)
    → IsSound s
    → IsNonneg (s.heap r).locked_funds
    → IsBacked (s.heap r) s
    → Keeps s (release_order r s)
unfolding release_order
release_order-Keeps r s v n backed = elim (Bool-cases (leb_ℤ (s.heap r).locked_funds (pos 0))) [
  | inl nothing ↦ rw nothing (Keeps-refl s v)
  | inr something ↦ rw something (elim (Bool-cases (is_buy (s.heap r).side)) [
    | inl b ↦ rw b (put_locked-Keeps r (pos 0) (release_funds-Keeps r s v n (rw b at backed)))
    | inr b ↦ rw b (put_locked-Keeps r (pos 0) (release_shares-Keeps r s v n (rw b at backed)))
  ])
]
