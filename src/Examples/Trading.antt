-- ===== src/Examples/Trading.antt =====
-- Concrete books and matches: a BUY of three shares against two offers.
use golang_predix.Common.{
  ℕ, ◌+◌, ◌≤◌, ◌≡◌, ◌≢◌, refl, ◌⊎◌, inl, inr, none, some, true, false, List, [], ◌∷◌, ◌++◌, All,
  Text, codes, arith,
}
use golang_predix.Common.Int.{pos_part, ltb_ℤ}
use golang_predix.Engine.Types.{buy, sell, Heap, Order, OrderBook, update, is_buy}
use golang_predix.Engine.Matching.{Env, match_against_book}
use golang_predix.Engine.Matching.Terms.{IsFair, SameTerms}
use golang_predix.Engine.Matching.Fills.{IsBalanced, AllBalanced, traded, update-AllBalanced}
use golang_predix.Engine.Matching.Termination.{IsFinished}
use golang_predix.Engine.Matching.Results.{match_against_book-IsFair, match_against_book_complete}
use golang_predix.Engine.Book.{add_to_book, bid_before, ask_before}
use golang_predix.Engine.Book.Priority.{
  IsSorted, IsBookSorted, IsPlaced, add_to_book_keeps_priority,
}
use golang_predix.Engine.Depth.{aggregate_bids, aggregate_asks}
use golang_predix.Engine.Depth.Sums.{
  shares_in, orders_in, open_shares, open_count, aggregate_adds_up,
}
use golang_predix.Engine.Orders.{book_after}
use golang_predix.Engine.Orders.Resting.{book_after-IsBookSorted}
use golang_predix.Samples.{blank, offer}

abbrev env : Env
env = record { uuid = λ n. n ∷ []; now = 5 }

abbrev cheap : Order
cheap = offer "s1" "maya" sell 2 4000

abbrev dear : Order
dear = offer "s2" "noor" sell 5 4500

abbrev taker : Order
taker = offer "b1" "omar" buy 3 5000

abbrev three_orders : Heap
three_orders =
    update (codes "b1") taker (update (codes "s1") cheap (update (codes "s2") dear (λ r. blank)))

abbrev two_asks : OrderBook
two_asks = record { bids = []; asks = codes "s1" ∷ codes "s2" ∷ [] }

blank-IsBalanced : IsBalanced blank
blank-IsBalanced = record { whole = refl; done = refl; left = refl; sum = refl; fits = omega arith }

three_orders-AllBalanced : AllBalanced three_orders
three_orders-AllBalanced =
    update-AllBalanced (codes "b1") taker _
      (record { whole = refl; done = refl; left = refl; sum = refl; fits = omega arith })
      (update-AllBalanced (codes "s1") cheap _
        (record { whole = refl; done = refl; left = refl; sum = refl; fits = omega arith })
        (update-AllBalanced (codes "s2") dear _
          (record { whole = refl; done = refl; left = refl; sum = refl; fits = omega arith })
          (λ r. blank-IsBalanced)))

match_against_book-IsFair_example :
    let m = match_against_book env (codes "b1") three_orders two_asks in
    All (IsFair three_orders (codes "b1")) m.trades
    × All (λ t. t.buyer_id ≢ t.seller_id) m.trades
    × SameTerms three_orders m.heap
match_against_book-IsFair_example = match_against_book-IsFair env (codes "b1") three_orders two_asks

match_against_book_complete_example :
    let m = match_against_book env (codes "b1") three_orders two_asks in
    AllBalanced m.heap
    × (pos_part (m.heap (codes "b1")).remaining_quantity + traded m.trades
        ≡ pos_part (three_orders (codes "b1")).remaining_quantity)
    × IsFinished (codes "b1") m
match_against_book_complete_example =
    match_against_book_complete env (codes "b1") three_orders two_asks three_orders-AllBalanced

two_asks-IsBookSorted : IsBookSorted three_orders two_asks
unfolding update golang_predix.Common.Text-discrete
two_asks-IsBookSorted = (tt, ((refl, tt), (tt, tt)))

add_to_book_keeps_priority_example :
    let c = add_to_book three_orders (codes "b1") two_asks in
    IsBookSorted three_orders c
    × (((is_buy (three_orders (codes "b1")).side ≡ true)
          × IsPlaced (bid_before three_orders) (codes "b1") two_asks.bids c.bids
          × (c.asks ≡ two_asks.asks))
        ⊎ ((is_buy (three_orders (codes "b1")).side ≡ false)
            × IsPlaced (ask_before three_orders) (codes "b1") two_asks.asks c.asks
            × (c.bids ≡ two_asks.bids)))
add_to_book_keeps_priority_example =
    add_to_book_keeps_priority three_orders (codes "b1") two_asks two_asks-IsBookSorted

aggregate_adds_up_example :
    (shares_in (aggregate_bids three_orders two_asks.asks) ≡ open_shares three_orders two_asks.asks)
    × (orders_in (aggregate_bids three_orders two_asks.asks)
        ≡ open_count three_orders two_asks.asks)
    × IsSorted (λ a b. ltb_ℤ b.price a.price) (aggregate_bids three_orders two_asks.asks)
    × (shares_in (aggregate_asks three_orders two_asks.asks)
        ≡ open_shares three_orders two_asks.asks)
    × (orders_in (aggregate_asks three_orders two_asks.asks)
        ≡ open_count three_orders two_asks.asks)
    × IsSorted (λ a b. ltb_ℤ a.price b.price) (aggregate_asks three_orders two_asks.asks)
unfolding open_shares golang_predix.Engine.Depth.is_shown golang_predix.Engine.Depth.is_open update
    golang_predix.Common.Text-discrete
aggregate_adds_up_example = aggregate_adds_up three_orders two_asks.asks (omega arith)

book_after-IsBookSorted_example :
    let m = match_against_book env (codes "b1") three_orders two_asks in
    IsBookSorted m.heap (book_after (codes "b1") m two_asks)
book_after-IsBookSorted_example =
    book_after-IsBookSorted env (codes "b1") three_orders two_asks two_asks-IsBookSorted
