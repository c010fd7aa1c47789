-- ===== src/Engine/Book/Priority.antt =====
-- internal/engine/engine.go, `addToBook`: a side of the book stays in price-time order.
use golang_predix.Common.{
  ◌≡◌, refl, ap, sym, ◌∙◌, Bool, true, false, List, [], ◌∷◌, ◌++◌, All, All-middle, Text, arith,
  Bool-cases, ◌⊎◌, inl, inr,
}
use mathlib.Core.List.{append-nil, append_assoc}
use golang_predix.Engine.Types.{Heap, OrderBook, is_buy}
use golang_predix.Engine.Book.{
  insert_stable, insert_all, sort_stable, bid_before, ask_before, add_to_book,
}

module _ {ℓ} {A : Type ℓ} (less : A → A → Bool) where
  -- Nothing stands behind an element that goes after it.
  abbrev pub IsSorted : List A → Type ℓ
  IsSorted [] = Unit
  IsSorted (x ∷ xs) = All (λ y. less y x ≡ false) xs × IsSorted xs

  -- `ys` is `xs` with `x` put behind all that it does not go before, and before all others.
  pub record IsPlaced (x : A) (xs ys : List A) : Type ℓ where
    pub front : List A
    pub back : List A
    pub was : xs ≡ front ++ back
    pub is : ys ≡ front ++ x ∷ back
    pub not_before : All (λ y. less x y ≡ false) front
    pub before : All (λ y. less x y ≡ true) back

module _ {ℓ} {A : Type ℓ} (less : A → A → Bool)
    (asym : (a b : A) → less a b ≡ true → less b a ≡ false)
    (cotrans : (a b c : A) → less b a ≡ false → less c b ≡ false → less c a ≡ false)
    (trans : (a b c : A) → less a b ≡ true → less c b ≡ false → less a c ≡ true) where
  All-after :
      (x y : A) (ys : List A)
      → less x y ≡ true
      → All (λ z. less z y ≡ false) ys
      → All (λ z. less x z ≡ true) ys
  All-after x y [] e h = tt
  All-after x y (z ∷ zs) e h = (trans x y z e h.0, All-after x y zs e h.1)

  insert_stable-IsPlaced :
      (x : A) (xs : List A) → IsSorted less xs → IsPlaced less x xs (insert_stable less x xs)
  unfolding insert_stable
  insert_stable-IsPlaced x [] s = record {
    front = [];
    back = [];
    was = refl;
    is = refl;
    not_before = tt;
    before = tt;
  }
  insert_stable-IsPlaced x (y ∷ ys) s = elim (Bool-cases (less x y)) [
    | inl e ↦ record {
      front = [];
      back = y ∷ ys;
      was = refl;
      is = ground arith;
      not_before = tt;
      before = (e, All-after x y ys e s.0);
    }
    | inr e ↦
        let p = insert_stable-IsPlaced x ys s.1 in
        record {
          front = y ∷ p.front;
          back = p.back;
          was = ap (◌∷◌ y) p.was;
          is = rw e (ap (◌∷◌ y) p.is);
          not_before = (e, p.not_before);
          before = p.before;
        }
  ]

  All-insert {κ} :
      (P : A → Type κ) (x : A) (xs : List A) → P x → All P xs → All P (insert_stable less x xs)
  unfolding insert_stable
  All-insert P x [] p h = (p, tt)
  All-insert P x (y ∷ ys) p h = elim (Bool-cases (less x y)) [
    | inl e ↦ rw e (p, h)
    | inr e ↦ rw e (h.0, All-insert P x ys p h.1)
  ]

  All-above :
      (x y : A) (ys : List A)
      → less x y ≡ true
      → All (λ z. less z y ≡ false) ys
      → All (λ z. less z x ≡ false) ys
  All-above x y [] e h = tt
  All-above x y (z ∷ zs) e h = (asym x z (trans x y z e h.0), All-above x y zs e h.1)

  insert_stable-IsSorted :
      (x : A) (xs : List A) → IsSorted less xs → IsSorted less (insert_stable less x xs)
  unfolding insert_stable
  insert_stable-IsSorted x [] s = (tt, tt)
  insert_stable-IsSorted x (y ∷ ys) s = elim (Bool-cases (less x y)) [
    | inl e ↦ rw e ((asym x y e, All-above x y ys e s.0), s)
    | inr e ↦ rw e (All-insert (λ z. less z y ≡ false) x ys e s.0, insert_stable-IsSorted x ys s.1)
  ]

  insert_all-IsSorted : (xs ys : List A) → IsSorted less xs → IsSorted less (insert_all less xs ys)
  unfolding insert_all
  insert_all-IsSorted xs [] s = s
  insert_all-IsSorted xs (y ∷ ys) s =
      insert_all-IsSorted (insert_stable less y xs) ys (insert_stable-IsSorted y xs s)

  pub sort_stable-IsSorted : (xs : List A) → IsSorted less (sort_stable less xs)
  unfolding sort_stable
  sort_stable-IsSorted xs = insert_all-IsSorted [] xs tt

  insert_stable_last :
      (x : A) (xs : List A)
      → All (λ y. less x y ≡ false) xs
      → insert_stable less x xs ≡ xs ++ x ∷ []
  unfolding insert_stable
  insert_stable_last x [] h = refl
  insert_stable_last x (y ∷ ys) h = rw h.0 (ap (◌∷◌ y) (insert_stable_last x ys h.1))

  sorted_last :
      (xs : List A) (x : A) (ys : List A)
      → IsSorted less (xs ++ x ∷ ys)
      → All (λ y. less x y ≡ false) xs
  sorted_last [] x ys s = tt
  sorted_last (y ∷ xs) x ys s =
      (All-middle (λ z. less z y ≡ false) xs x ys s.0, sorted_last xs x ys s.1)

  insert_all_sorted : (xs ys : List A) → IsSorted less (xs ++ ys) → insert_all less xs ys ≡ xs ++ ys
  unfolding insert_all
  insert_all_sorted xs [] s = sym (append-nil xs)
  insert_all_sorted xs (y ∷ ys) s =
      rw (insert_stable_last y xs (sorted_last xs y ys s))
        (insert_all_sorted (xs ++ y ∷ []) ys (rw append_assoc s) ∙ append_assoc xs (y ∷ []) ys)

  insert_all-append :
      (acc xs ys : List A)
      → insert_all less acc (xs ++ ys) ≡ insert_all less (insert_all less acc xs) ys
  unfolding insert_all
  insert_all-append acc [] ys = refl
  insert_all-append acc (x ∷ xs) ys = insert_all-append (insert_stable less x acc) xs ys

  -- To sort a sorted slice with one more element at its end is to insert that element.
  sort_stable_push :
      (xs : List A) (x : A)
      → IsSorted less xs
      → sort_stable less (xs ++ x ∷ []) ≡ insert_stable less x xs
  unfolding sort_stable insert_all
  sort_stable_push xs x s =
      insert_all-append [] xs (x ∷ []) ∙ ap (insert_stable less x) (insert_all_sorted [] xs s)

  pub sort_stable_push-IsPlaced :
      (xs : List A) (x : A)
      → IsSorted less xs
      → let ys = sort_stable less (xs ++ x ∷ []) in IsPlaced less x xs ys × IsSorted less ys
  sort_stable_push-IsPlaced xs x s =
      rw (sort_stable_push xs x s) (insert_stable-IsPlaced x xs s, insert_stable-IsSorted x xs s)

-- The orders of one side, in the order in which they are matched.
abbrev pub IsBookSorted : Heap → OrderBook → Type 0
IsBookSorted h b = IsSorted (bid_before h) b.bids × IsSorted (ask_before h) b.asks

-- On a book with both sides in price order, `addToBook` puts a bid behind all bids of its price
-- or a higher one and before all lower ones, or an ask behind all asks of its price or a lower
-- one and before all higher ones; the book stays in order, and the other side is not touched.
pub add_to_book_keeps_priority :
    (h : Heap) (r : Text) (b : OrderBook)
    → IsBookSorted h b
    → let c = add_to_book h r b in
      IsBookSorted h c
      × (((is_buy (h r).side ≡ true) × IsPlaced (bid_before h) r b.bids c.bids × (c.asks ≡ b.asks))
          ⊎ ((is_buy (h r).side ≡ false)
              × IsPlaced (ask_before h) r b.asks c.asks
              × (c.bids ≡ b.bids)))
unfolding add_to_book
add_to_book_keeps_priority h r b (sb, sa) = elim (Bool-cases (is_buy (h r).side)) [
  | inl e ↦ rw e (
      let (placed, sorted) =
        sort_stable_push-IsPlaced (bid_before h) (λ x y p. ground arith) (λ x y z p q. ground arith)
          (λ x y z p q. ground arith) b.bids r sb in
      ((sorted, sa), inl (refl, placed, refl)))
  | inr e ↦ rw e (
      let (placed, sorted) =
        sort_stable_push-IsPlaced (ask_before h) (λ x y p. ground arith) (λ x y z p q. ground arith)
          (λ x y z p q. ground arith) b.asks r sa in
      ((sb, sorted), inr (refl, placed, refl)))
]
