-- ===== src/Engine/Matching/Fills.antt =====
-- internal/engine/engine.go, `executePair`: what is filled and what remains add up.
use golang_predix.Common.{
  ℕ, ◌+◌, ◌≤◌, ◌<◌, ◌≡◌, ◌≢◌, ap, true, List, [], ◌∷◌, ◌++◌, Text, Text-discrete, arith, Bool-cases,
  inl, inr,
}
use golang_predix.Common.Int.{ℤ, pos, pos_part, leb_ℤ}
use golang_predix.Common.Int64.{int64_limit, IsNonneg, add64_nonneg, sub64_nonneg}
use golang_predix.Engine.Types.{Order, Trade, Heap, update, update_lem}
use golang_predix.Engine.Matching.{
  Env, MatchState, min64, fill, rest_after_fill, build_trade, execute_pair, match_loop, is_eligible,
}
use golang_predix.Engine.Matching.Loop.{Called, match_loop_inv}
use golang_predix.Engine.Matching.Terms.{is_eligible-Agrees}

-- The quantities of an order are in range, and the filled and the remaining part make up the whole.
pub record IsBalanced (o : Order) : Type 0 where
  pub whole : IsNonneg o.quantity
  pub done : IsNonneg o.filled_quantity
  pub left : IsNonneg o.remaining_quantity
  pub sum : pos_part o.filled_quantity + pos_part o.remaining_quantity ≡ pos_part o.quantity
  pub fits : pos_part o.quantity < int64_limit

abbrev pub AllBalanced : Heap → Type 0
AllBalanced h = (r : Text) → IsBalanced (h r)

pub traded : List Trade → ℕ
traded [] = 0
traded (t ∷ ts) = pos_part t.quantity + traded ts

traded-append : (ts us : List Trade) → traded (ts ++ us) ≡ traded ts + traded us
unfolding traded
traded-append [] us = omega arith
traded-append (t ∷ ts) us = omega (arith, traded-append ts us)

fill_lem :
    (n : ℤ) (o : Order)
    → IsBalanced o
    → IsNonneg n
    → pos_part n ≤ pos_part o.remaining_quantity
    → IsBalanced (fill n o)
      × (pos_part (fill n o).remaining_quantity + pos_part n ≡ pos_part o.remaining_quantity)
unfolding fill
fill_lem n o b nn h =
    ground (arith, sub64_nonneg o.remaining_quantity n, add64_nonneg o.filled_quantity n)

rest-IsBalanced : (o : Order) → IsBalanced o → IsBalanced (rest_after_fill o)
unfolding rest_after_fill
rest-IsBalanced o b = ground arith

pub update-AllBalanced :
    (r : Text) (o : Order) (h : Heap) → IsBalanced o → AllBalanced h → AllBalanced (update r o h)
update-AllBalanced r o h b all q = elim (Text-discrete q r) [
  | yes here ↦ ground (arith, update_lem r q o h)
  | no there ↦ ground (arith, update_lem r q o h, all q)
]

min64_lem :
    (a b : ℤ)
    → IsNonneg a
    → IsNonneg b
    → IsNonneg (min64 a b)
      × (pos_part (min64 a b) ≤ pos_part a)
      × (pos_part (min64 a b) ≤ pos_part b)
unfolding min64
min64_lem a b ha hb = ground arith

-- The orders are balanced, and what the incoming order has lost is what was traded.
pub record Accounts (start : ℕ) (incoming : Text) (m : MatchState) : Type 0 where
  pub balanced : AllBalanced m.heap
  pub sum : pos_part (m.heap incoming).remaining_quantity + traded m.trades ≡ start

-- An eligible resting order is not the incoming one.
pub eligible-ne : (h : Heap) (i r : Text) → is_eligible (h i) (h r) ≡ true → r ≢ i
eligible-ne h i r fits e =
    (is_eligible-Agrees (h i) (h r) fits).other_user (ap (λ q. (h q).user_id) e)

pub execute_pair-Accounts :
    (env : Env) (start : ℕ) (incoming : Text) (m : MatchState) (idx : ℕ) (r : Text)
    → Called incoming m idx r
    → Accounts start incoming m
    → Accounts start incoming (execute_pair env incoming r idx m)
unfolding execute_pair traded build_trade
execute_pair-Accounts env start incoming m idx r c a =
    let i = m.heap incoming in
    let q = m.heap r in
    let n = min64 i.remaining_quantity q.remaining_quantity in
    let (nn, le_i, le_q) =
      min64_lem i.remaining_quantity q.remaining_quantity (a.balanced incoming).left
        (a.balanced r).left in
    let (bi, si) = fill_lem n i (a.balanced incoming) nn le_i in
    let (bq, _) = fill_lem n q (a.balanced r) nn le_q in
    let apart = eligible-ne m.heap incoming r c.fits in
    let h₁ = update incoming (fill n i) m.heap in
    let same : h₁ r ≡ q = ground (arith, update_lem incoming r (fill n i) m.heap) in
    let o = rest_after_fill (fill n (h₁ r)) in
    let kept : update r o h₁ incoming ≡ fill n i =
      ground (arith, update_lem r incoming o h₁, update_lem incoming incoming (fill n i) m.heap) in
    elim (Bool-cases (leb_ℤ n (pos 0))) [
      | inl nothing ↦ rw nothing a
      | inr something ↦ rw something (record {
        balanced =
            update-AllBalanced r o h₁ (rw same (rest-IsBalanced _ bq))
              (update-AllBalanced incoming _ m.heap bi a.balanced);
        sum = rw (traded-append, kept) (omega (arith, si, a.sum));
      })
    ]

-- After any number of rounds every order is balanced, and the incoming order has lost exactly
-- what was traded.
pub match_loop-Accounts :
    (fuel : ℕ) (env : Env) (incoming : Text) (h : Heap) (rs : List Text)
    → AllBalanced h
    → let m = match_loop fuel env incoming (record { heap = h; resting = rs; trades = [] }) in
      AllBalanced m.heap
      × (pos_part (m.heap incoming).remaining_quantity + traded m.trades
          ≡ pos_part (h incoming).remaining_quantity)
unfolding traded
match_loop-Accounts fuel env incoming h rs all =
    let start = pos_part (h incoming).remaining_quantity in
    let a =
      match_loop_inv env incoming (Accounts start incoming)
        (λ m k. record { balanced = k.balanced; sum = k.sum })
        (λ m idx r c k. execute_pair-Accounts env start incoming m idx r c k) fuel
        (record { heap = h; resting = rs; trades = [] })
        (record { balanced = all; sum = omega arith }) in
    (a.balanced, a.sum)
