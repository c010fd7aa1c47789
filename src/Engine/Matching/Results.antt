-- ===== src/Engine/Matching/Results.antt =====
-- internal/engine/engine.go, `matchAgainstBook` as a whole: what one call of it guarantees.
use golang_predix.Common.{◌+◌, ◌≡◌, ◌≢◌, [], All, All-map, Text, arith, Bool-cases, inl, inr}
use golang_predix.Common.Int.{pos_part}
use golang_predix.Engine.Types.{Trade, Heap, OrderBook, is_buy}
use golang_predix.Engine.Matching.{Env, match_against_book, opposing}
use golang_predix.Engine.Matching.Terms.{IsFair, SameTerms, match_loop-FairSoFar}
use golang_predix.Engine.Matching.Fills.{AllBalanced, traded, match_loop-Accounts}
use golang_predix.Engine.Matching.Termination.{IsFinished, match_loop_finishes}

IsFair-apart :
    (h : Heap) (incoming : Text) (t : Trade) → IsFair h incoming t → t.buyer_id ≢ t.seller_id
IsFair-apart h incoming t f e = elim (Bool-cases (is_buy (h incoming).side)) [
  | inl buys ↦ ground (arith, f.buyer, f.seller, f.agreed.other_user, buys, e)
  | inr sells ↦ ground (arith, f.buyer, f.seller, f.agreed.other_user, sells, e)
]

-- Every trade of `matchAgainstBook` is made on the terms that its two orders had before the
-- call: for the event of the incoming order and the outcome of both, with an order of another
-- user, at the resting order's price, which the price of the incoming order allows unless that
-- is a market order, and for a quantity above 0. No trade has one user on both sides, and no
-- order's terms change.
pub match_against_book-IsFair :
    (env : Env) (incoming : Text) (h : Heap) (b : OrderBook)
    → let m = match_against_book env incoming h b in
      All (IsFair h incoming) m.trades
      × All (λ t. t.buyer_id ≢ t.seller_id) m.trades
      × SameTerms h m.heap
unfolding match_against_book
match_against_book-IsFair env incoming h b =
    let (same, fair) = match_loop-FairSoFar _ env incoming h (opposing (h incoming).side b) in
    (fair, All-map (IsFair-apart h incoming) _ fair, same)

-- Where the quantities of every order are in range and its filled and remaining quantity make up
-- the whole before the call, they do so after it, the incoming order has lost exactly what was
-- traded, and the loop has ended by itself: the order is exhausted, or no resting order is
-- eligible.
pub match_against_book_complete :
    (env : Env) (incoming : Text) (h : Heap) (b : OrderBook)
    → AllBalanced h
    → let m = match_against_book env incoming h b in
      AllBalanced m.heap
      × (pos_part (m.heap incoming).remaining_quantity + traded m.trades
          ≡ pos_part (h incoming).remaining_quantity)
      × IsFinished incoming m
unfolding match_against_book
match_against_book_complete env incoming h b all =
    let rs = opposing (h incoming).side b in
    let (balanced, sum) = match_loop-Accounts _ env incoming h rs all in
    (
      balanced,
      sum,
      match_loop_finishes _ env incoming (record { heap = h; resting = rs; trades = [] }) all
          (ground arith),
    )
