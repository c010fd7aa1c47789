-- ===== src/Engine/Orders/Resting.antt =====
-- internal/engine/engine.go, `matchOrder`: the book stays in price order through a match.
use golang_predix.Common.{
  ℕ, zero, suc, ◌≡◌, refl, ap, ap₂, sym, subst, fun_ext, ◌∙◌, Bool, true, false, List, [], ◌∷◌, All,
  Text, length, Bool-cases, inl, inr, if◌then◌else◌,
}
use golang_predix.Common.Int.{pos, leb_ℤ, ltb_ℤ}
use golang_predix.Engine.Types.{Heap, OrderBook, is_buy}
use golang_predix.Engine.Matching.{
  Env, MatchState, is_invalid, remove_invalid, remove_order_index, min64, execute_pair, match_loop,
  opposing, set_opposing, match_against_book,
}
use golang_predix.Engine.Matching.Loop.{match_loop_inv}
use golang_predix.Engine.Matching.Terms.{SameTerms, execute_pair_terms}
use golang_predix.Engine.Book.{bid_before, ask_before}
use golang_predix.Engine.Book.Priority.{IsSorted, IsBookSorted, add_to_book_keeps_priority}
use golang_predix.Engine.Orders.{book_after, outcome_of_match}

pub All-remove :
    (P : Text → Type 0) (rs : List Text) (i : ℕ) → All P rs → All P (remove_order_index rs i)
unfolding remove_order_index
All-remove P [] i a = a
All-remove P (r ∷ rs) zero a = a.1
All-remove P (r ∷ rs) (suc i) a = (a.0, All-remove P rs i a.1)

module _ (less : Text → Text → Bool) where
  remove_invalid-IsSorted :
      (h : Heap) (rs : List Text) → IsSorted less rs → IsSorted less (remove_invalid h rs)
  unfolding remove_invalid
  remove_invalid-IsSorted h [] s = s
  remove_invalid-IsSorted h (r ∷ rs) s = elim (Bool-cases (is_invalid (h r))) [
    | inl dead ↦ rw dead (remove_invalid-IsSorted h rs s.1)
    | inr alive ↦ rw alive s
  ]

  remove_order_index-IsSorted :
      (rs : List Text) (i : ℕ) → IsSorted less rs → IsSorted less (remove_order_index rs i)
  unfolding remove_order_index
  remove_order_index-IsSorted [] i s = s
  remove_order_index-IsSorted (r ∷ rs) zero s = s.1
  remove_order_index-IsSorted (r ∷ rs) (suc i) s =
      (All-remove (λ y. less y r ≡ false) rs i s.0, remove_order_index-IsSorted rs i s.1)

  if-IsSorted :
      (b : Bool) (xs ys : List Text)
      → IsSorted less xs
      → IsSorted less ys
      → IsSorted less (if b then xs else ys)
  if-IsSorted true xs ys s t = s
  if-IsSorted false xs ys s t = t

  execute_pair-IsSorted :
      (env : Env) (incoming r : Text) (idx : ℕ) (m : MatchState)
      → IsSorted less m.resting
      → IsSorted less (execute_pair env incoming r idx m).resting
  unfolding execute_pair
  execute_pair-IsSorted env incoming r idx m s =
      let n = min64 (m.heap incoming).remaining_quantity (m.heap r).remaining_quantity in
      elim (Bool-cases (leb_ℤ n (pos 0))) [
        | inl nothing ↦ rw nothing s
        | inr something ↦
            rw something (if-IsSorted _ _ m.resting (remove_order_index-IsSorted m.resting idx s) s)
      ]

  -- A run of the loop keeps the order of the slice, and the terms of all orders.
  match_loop-IsSorted :
      (fuel : ℕ) (env : Env) (incoming : Text) (h : Heap) (rs : List Text)
      → IsSorted less rs
      → let m = match_loop fuel env incoming (record { heap = h; resting = rs; trades = [] }) in
        SameTerms h m.heap × IsSorted less m.resting
  match_loop-IsSorted fuel env incoming h rs s =
      match_loop_inv env incoming (λ m. SameTerms h m.heap × IsSorted less m.resting)
        (λ m k. (k.0, remove_invalid-IsSorted m.heap m.resting k.1))
        (λ m idx r c k. (
          execute_pair_terms env incoming h m idx r k.0,
          execute_pair-IsSorted env incoming r idx m k.1,
        ))
        fuel _ ((λ r. refl), s)

-- Only prices matter for the order of a book.
IsBookSorted-terms :
    (h k : Heap) (b : OrderBook) → SameTerms h k → IsBookSorted h b → IsBookSorted k b
IsBookSorted-terms h k b same s =
    let bids : bid_before h ≡ bid_before k =
      fun_ext
        (λ x. fun_ext (λ y. ap₂ (λ o q. ltb_ℤ q.price o.price) (sym (same x)) (sym (same y)))) in
    let asks : ask_before h ≡ ask_before k =
      fun_ext
        (λ x. fun_ext (λ y. ap₂ (λ o q. ltb_ℤ o.price q.price) (sym (same x)) (sym (same y)))) in
    (subst (λ f. IsSorted f b.bids) bids s.0, subst (λ f. IsSorted f b.asks) asks s.1)

swept-IsBookSorted :
    (env : Env) (r : Text) (h : Heap) (b : OrderBook)
    → IsBookSorted h b
    → let m = match_against_book env r h b in
      SameTerms h m.heap × IsBookSorted h (set_opposing (m.heap r).side m.resting b)
unfolding match_against_book opposing set_opposing
swept-IsBookSorted env r h b s = elim (Bool-cases (is_buy (h r).side)) [
  | inl buys ↦
      let (same, sorted) =
        match_loop-IsSorted (ask_before h) (suc (length b.asks)) env r h b.asks s.1 in
      let still = ap (λ o. is_buy o.side) (same r) ∙ buys in rw (buys, still) (same, (s.0, sorted))
  | inr sells ↦
      let (same, sorted) =
        match_loop-IsSorted (bid_before h) (suc (length b.bids)) env r h b.bids s.0 in
      let still = ap (λ o. is_buy o.side) (same r) ∙ sells in
      rw (sells, still) (same, (sorted, s.1))
]

-- If both sides of a book are in price order, they are so behind a match of an order against the book, with
-- the orders as the match leaves them, whether or not the remainder of the order rests in the book.
pub book_after-IsBookSorted :
    (env : Env) (r : Text) (h : Heap) (b : OrderBook)
    → IsBookSorted h b
    → let m = match_against_book env r h b in IsBookSorted m.heap (book_after r m b)
unfolding book_after
book_after-IsBookSorted env r h b s =
    let m = match_against_book env r h b in
    let (same, sorted) = swept-IsBookSorted env r h b s in
    let swept = IsBookSorted-terms h m.heap _ same sorted in
    elim (Bool-cases ((outcome_of_match (m.heap r)).1)) [
      | inl rests ↦ rw rests ((add_to_book_keeps_priority m.heap r _ swept).0)
      | inr gone ↦ rw gone swept
    ]
