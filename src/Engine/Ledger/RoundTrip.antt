-- ===== src/Engine/Ledger/RoundTrip.antt =====
-- internal/engine/ledger.go: a release undoes a reservation.
use golang_predix.Common.{
  ◌+◌, ◌-◌, ◌≤◌, ◌<◌, ◌≡◌, refl, ap, ◌∙◌, true, false, none, Text, arith, Bool-cases, inl, inr,
}
use golang_predix.Common.Int.{ℤ, pos, pos_part, ltb_ℤ, leb_ℤ}
use golang_predix.Common.Int64.{int64_limit, IsNonneg, add64_nonneg, sub64_nonneg}
use golang_predix.Common.Dict.{Dict, insert, value_or-insert}
use golang_predix.Engine.Types.{Holding, Store, is_buy, update_lem}
use golang_predix.Engine.Ledger.{
  no_balance, at_least_zero, freeze, thaw, balance_of, position_of, put_balance, put_position,
  put_locked, position_key, buy_cost, reserve_funds, reserve_shares, reserve_order, release_funds,
  release_shares, release_order,
}
use golang_predix.Engine.Ledger.Totals.{
  held, total, IsSolvent, at, AllSolvent, held-le-total, at-IsSolvent,
}
use golang_predix.Engine.Ledger.Conservation.{IsSound, IsPriced, buy_cost-IsNonneg, le_of_not_ltb}

thaw-freeze :
    (n : ℤ) (h : Holding)
    → IsNonneg n
    → IsSolvent h
    → pos_part n ≤ pos_part h.available
    → held h < int64_limit
    → thaw n (freeze n h) ≡ h
unfolding thaw freeze at_least_zero
thaw-freeze n h nonneg v enough small = ground (
  arith,
  sub64_nonneg h.available n,
  add64_nonneg h.reserved n,
  sub64_nonneg (pos (pos_part h.reserved + pos_part n)) n,
  add64_nonneg (pos (pos_part h.available - pos_part n)) n,
)

pub freeze_nothing :
    (n : ℤ) (h : Holding)
    → IsNonneg n
    → leb_ℤ n (pos 0) ≡ true
    → IsSolvent h
    → held h < int64_limit
    → freeze n h ≡ h
unfolding freeze
freeze_nothing n h nonneg none_left v small =
    ground (arith, sub64_nonneg h.available n, add64_nonneg h.reserved n)

pub write_same :
    (k u : Text) (x : Holding) (d : Dict Holding) → x ≡ at u d → at k (insert u x d) ≡ at k d
write_same k u x d e = ground (arith, value_or-insert k u x no_balance d)

write_back :
    (k u : Text) (x y : Holding) (d : Dict Holding)
    → x ≡ at u d
    → at k (insert u x (insert u y d)) ≡ at k d
write_back k u x y d e =
    ground
      (arith, value_or-insert k u x no_balance (insert u y d), value_or-insert k u y no_balance d)

pub read_back : (u : Text) (x : Holding) (d : Dict Holding) → at u (insert u x d) ≡ x
read_back u x d = ground (arith, value_or-insert u u x no_balance d)

-- To freeze an amount and to give back what is still locked restores a map of holdings.
module _ (u : Text) (n : ℤ) (d : Dict Holding) (nonneg : IsNonneg n) (v : AllSolvent d)
    (small : total d < int64_limit) (enough : pos_part n ≤ pos_part (at u d).available) where
  frozen : Dict Holding
  frozen = insert u (freeze n (at u d)) d

  released-frozen : (k : Text) → at k (insert u (thaw n (at u frozen)) frozen) ≡ at k d
  unfolding frozen
  released-frozen k = write_back k u _ (freeze n (at u d)) d (
      ap (thaw n) (read_back u (freeze n (at u d)) d)
      ∙ thaw-freeze n (at u d) nonneg (at-IsSolvent u d v) enough
          (omega (arith, held-le-total u d)))

  frozen_nothing : leb_ℤ n (pos 0) ≡ true → (k : Text) → at k frozen ≡ at k d
  unfolding frozen
  frozen_nothing none_left k = write_same k u _ d (
      freeze_nothing n (at u d) nonneg none_left (at-IsSolvent u d v)
        (omega (arith, held-le-total u d)))

-- Every user has the cash and the shares that he had.
abbrev pub SameHoldings : Store → Store → Type 0
SameHoldings s t =
    (k : Text) → (at k t.balances ≡ at k s.balances) × (at k t.positions ≡ at k s.positions)

pub locked_heap :
    (r : Text) (n : ℤ) (s : Store)
    → (put_locked r n s).heap r ≡ record (s.heap r) { locked_funds = n }
unfolding put_locked
locked_heap r n s = ground (arith, update_lem r r (record (s.heap r) { locked_funds = n }) s.heap)

release-reserve_funds :
    (r : Text) (s : Store)
    → IsSound s
    → IsPriced (s.heap r)
    → is_buy (s.heap r).side ≡ true
    → (reserve_funds r s).0 ≡ none
    → SameHoldings s (release_order r (reserve_funds r s).1)
unfolding reserve_funds release_order release_funds put_balance put_locked frozen
release-reserve_funds r s v p buys done k =
    let o = s.heap r in
    let u = o.user_id in
    let h = balance_of s u in
    let hv = at-IsSolvent u s.balances v.cash in
    let n = buy_cost o h in
    let nonneg = buy_cost-IsNonneg o h p hv in
    let t = put_balance u (freeze n h) s in
    elim (Bool-cases (ltb_ℤ h.available n)) [
      | inl short ↦ absurd (cc (rw short at done))
      | inr enough ↦
          let le = le_of_not_ltb h.available n hv.spendable nonneg enough in
          rw (enough, locked_heap r n t)
            (elim (Bool-cases (leb_ℤ n (pos 0))) [
              | inl z ↦ rw z (frozen_nothing u n s.balances nonneg v.cash v.cash_fits le z k, refl)
              | inr more ↦
                  rw (more, buys)
                    (released-frozen u n s.balances nonneg v.cash v.cash_fits le k, refl)
            ])
    ]

release-reserve_shares :
    (r : Text) (s : Store)
    → IsSound s
    → IsPriced (s.heap r)
    → is_buy (s.heap r).side ≡ false
    → (reserve_shares r s).0 ≡ none
    → SameHoldings s (release_order r (reserve_shares r s).1)
unfolding reserve_shares release_order release_shares put_position put_locked frozen
release-reserve_shares r s v p sells done k =
    let o = s.heap r in
    let u = position_key o.user_id o.event_id o.outcome in
    let h = position_of s u in
    let hv = at-IsSolvent u s.positions v.shares in
    let n = o.remaining_quantity in
    let nonneg = p.some_left in
    let t = put_position u (freeze n h) s in
    elim (Bool-cases (ltb_ℤ h.available n)) [
      | inl short ↦ absurd (cc (rw short at done))
      | inr enough ↦
          let le = le_of_not_ltb h.available n hv.spendable nonneg enough in
          rw (enough, locked_heap r n t)
            (elim (Bool-cases (leb_ℤ n (pos 0))) [
              | inl z ↦
                  rw z (refl, frozen_nothing u n s.positions nonneg v.shares v.shares_fits le z k)
              | inr more ↦
                  rw (more, sells)
                    (refl, released-frozen u n s.positions nonneg v.shares v.shares_fits le k)
            ])
    ]

-- In a ledger where no holding is negative and the cash and the shares of all users fit an
-- int64, where the reservation of an order succeeds, a release right after it gives every user
-- the cash and the shares that he had before, for a BUY and for a SELL. The remaining quantity
-- is not negative, and the price of a limit order is not negative and its cost fits an int64.
pub release-reserve_order :
    (r : Text) (s : Store)
    → IsSound s
    → IsPriced (s.heap r)
    → (reserve_order r s).0 ≡ none
    → SameHoldings s (release_order r (reserve_order r s).1)
unfolding reserve_order
release-reserve_order r s v p done = elim (Bool-cases (is_buy (s.heap r).side)) [
  | inl b ↦ rw b (release-reserve_funds r s v p b (rw b at done))
  | inr b ↦ rw b (release-reserve_shares r s v p b (rw b at done))
]
