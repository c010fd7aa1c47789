-- ===== src/Engine/Depth/Sums.antt =====
-- internal/engine/engine.go, `aggregateBids` and `aggregateAsks`: what a side of the depth adds up to.
use golang_predix.Common.{
  ℕ, ◌+◌, ◌≤◌, ◌<◌, ◌≡◌, refl, Bool, true, List, [], ◌∷◌, map, All, Text, arith, Bool-cases, inl,
  inr, ite, if◌then◌else◌,
}
use golang_predix.Common.Int.{pos, pos_part, ltb_ℤ}
use golang_predix.Common.Int64.{int64_limit, IsNonneg, add64, add64_nonneg}
use golang_predix.Engine.Types.{Order, Heap}
use golang_predix.Engine.Book.{insert_stable, insert_all, sort_stable}
use golang_predix.Engine.Book.Priority.{IsSorted, sort_stable-IsSorted}
use golang_predix.Engine.Depth.{
  Entry, Level, ℤ-discrete, is_shown, add_level, levels_of, entry_of, aggregate_bids,
  aggregate_asks,
}

-- What a list of entries, or of levels, adds up to: shares and orders.
abbrev pub shares_in : List Entry → ℕ
shares_in [] = 0
shares_in (e ∷ es) = pos_part e.quantity + shares_in es

abbrev pub orders_in : List Entry → ℕ
orders_in [] = 0
orders_in (e ∷ es) = pos_part e.order_count + orders_in es

-- The open orders of a side: the shares that remain, and how many they are.
unfoldable pub open_shares : Heap → List Text → ℕ
open_shares h [] = 0
open_shares h (r ∷ rs) =
    (if is_shown (h r) then pos_part (h r).remaining_quantity else 0) + open_shares h rs

pub open_count : Heap → List Text → ℕ
open_count h [] = 0
open_count h (r ∷ rs) = (if is_shown (h r) then 1 else 0) + open_count h rs

-- The levels hold so many shares and so many orders, and no negative number of either.
record Counts (ls : List Level) (shares count : ℕ) : Type 0 where
  nonneg : All (λ l. IsNonneg l.quantity × IsNonneg l.count) ls
  shares_sum : shares_in (map entry_of ls) ≡ shares
  count_sum : orders_in (map entry_of ls) ≡ count

-- The order joins the level, or the rest takes it in.
add_level_step :
    (o : Order) (l : Level) (ls ls' : List Level) (n m : ℕ) (d : Dec (o.price ≡ l.price))
    → Counts (l ∷ ls) n m
    → IsNonneg o.remaining_quantity
    → n + pos_part o.remaining_quantity < int64_limit
    → m + 1 < int64_limit
    → ((k j : ℕ)
        → Counts ls k j
        → k ≤ n
        → j ≤ m
        → Counts ls' (k + pos_part o.remaining_quantity) (j + 1))
    → Counts
        (ite d
          (record l {
            quantity = add64 l.quantity o.remaining_quantity;
            count = add64 l.count (pos 1);
          }
            ∷ ls)
          (l ∷ ls'))
        (n + pos_part o.remaining_quantity)
        (m + 1)
unfolding entry_of
add_level_step o l ls ls' n m (yes same) c nn fits few rest =
    let ((nq, nc), others) = c.nonneg in
    let q = add64_nonneg l.quantity o.remaining_quantity nq nn (omega (arith, c.shares_sum)) in
    let k = add64_nonneg l.count (pos 1) nc refl (omega (arith, c.count_sum)) in
    rw (q, k)
      (record {
        nonneg = ((refl, refl), others);
        shares_sum = omega (arith, c.shares_sum);
        count_sum = omega (arith, c.count_sum);
      })
add_level_step o l ls ls' n m (no other) c nn fits few rest =
    let (here, others) = c.nonneg in
    let r =
      rest (shares_in (map entry_of ls)) (orders_in (map entry_of ls))
        (record { nonneg = others; shares_sum = refl; count_sum = refl })
        (omega (arith, c.shares_sum)) (omega (arith, c.count_sum)) in
    record {
      nonneg = (here, r.nonneg);
      shares_sum = omega (arith, c.shares_sum, r.shares_sum);
      count_sum = omega (arith, c.count_sum, r.count_sum);
    }

add_level-Counts :
    (o : Order) (ls : List Level) (n m : ℕ)
    → Counts ls n m
    → IsNonneg o.remaining_quantity
    → n + pos_part o.remaining_quantity < int64_limit
    → m + 1 < int64_limit
    → Counts (add_level o ls) (n + pos_part o.remaining_quantity) (m + 1)
unfolding add_level entry_of
add_level-Counts o [] n m c nn fits few =
    let q = add64_nonneg (pos 0) o.remaining_quantity refl nn (omega arith) in
    let k = add64_nonneg (pos 0) (pos 1) refl refl (omega arith) in
    rw (q, k)
      (record {
        nonneg = ((refl, refl), tt);
        shares_sum = omega (arith, c.shares_sum);
        count_sum = omega (arith, c.count_sum);
      })
add_level-Counts o (l ∷ ls) n m c nn fits few =
    add_level_step o l ls (add_level o ls) n m (ℤ-discrete o.price l.price) c nn fits few
      (λ k j d le le'. add_level-Counts o ls k j d nn (omega arith) (omega arith))

-- A shown order has something left.
shown_left :
    (o : Order)
    → is_shown o ≡ true
    → IsNonneg o.remaining_quantity × (1 ≤ pos_part o.remaining_quantity)
unfolding is_shown
shown_left o h = ground arith

levels_of-Counts :
    (h : Heap) (rs : List Text) (ls : List Level) (n m : ℕ)
    → Counts ls n m
    → m ≤ n
    → n + open_shares h rs < int64_limit
    → Counts (levels_of h rs ls) (n + open_shares h rs) (m + open_count h rs)
unfolding levels_of open_shares open_count
levels_of-Counts h [] ls n m c le fits = record {
  nonneg = c.nonneg;
  shares_sum = omega (arith, c.shares_sum);
  count_sum = omega (arith, c.count_sum);
}
levels_of-Counts h (r ∷ rs) ls n m c le fits = elim (Bool-cases (is_shown (h r))) [
  | inl shown ↦
      let (nn, some_left) = shown_left (h r) shown in
      let n' = n + pos_part (h r).remaining_quantity in
      let below = rw shown at fits in
      let added =
        add_level-Counts (h r) ls n m c nn (omega (arith, below)) (omega (arith, below)) in
      let k =
        levels_of-Counts h rs (add_level (h r) ls) n' (m + 1) added (omega arith)
          (omega (arith, below)) in
      rw shown (record {
        nonneg = k.nonneg;
        shares_sum = omega (arith, k.shares_sum);
        count_sum = omega (arith, k.count_sum);
      })
  | inr hidden ↦
      let below = rw hidden at fits in
      let k = levels_of-Counts h rs ls n m c le (omega (arith, below)) in
      rw hidden (record {
        nonneg = k.nonneg;
        shares_sum = omega (arith, k.shares_sum);
        count_sum = omega (arith, k.count_sum);
      })
]

module _ (less : Entry → Entry → Bool) where
  insert_stable-sums :
      (x : Entry) (es : List Entry)
      → (shares_in (insert_stable less x es) ≡ pos_part x.quantity + shares_in es)
        × (orders_in (insert_stable less x es) ≡ pos_part x.order_count + orders_in es)
  unfolding insert_stable
  insert_stable-sums x [] = (refl, refl)
  insert_stable-sums x (e ∷ es) =
      let (s, o) = insert_stable-sums x es in
      elim (Bool-cases (less x e)) [
        | inl first ↦ rw first (refl, refl)
        | inr later ↦ rw later (omega (arith, s), omega (arith, o))
      ]

  insert_all-sums :
      (es xs : List Entry)
      → (shares_in (insert_all less es xs) ≡ shares_in es + shares_in xs)
        × (orders_in (insert_all less es xs) ≡ orders_in es + orders_in xs)
  unfolding insert_all
  insert_all-sums es [] = (omega arith, omega arith)
  insert_all-sums es (x ∷ xs) =
      let (s, o) = insert_stable-sums x es in
      let (s', o') = insert_all-sums (insert_stable less x es) xs in
      (omega (arith, s, s'), omega (arith, o, o'))

  sorted-sums :
      (h : Heap) (rs : List Text)
      → open_shares h rs < int64_limit
      → let es = sort_stable less (map entry_of (levels_of h rs [])) in
        (shares_in es ≡ open_shares h rs) × (orders_in es ≡ open_count h rs)
  unfolding sort_stable
  sorted-sums h rs fits =
      let none_yet : Counts [] 0 0 = record { nonneg = tt; shares_sum = refl; count_sum = refl } in
      let c = levels_of-Counts h rs [] 0 0 none_yet (omega arith) (omega arith) in
      let (s, o) = insert_all-sums [] (map entry_of (levels_of h rs [])) in
      (omega (arith, s, c.shares_sum), omega (arith, o, c.count_sum))

-- Where the shares that remain in the open orders of a side fit an int64, the entries of its depth add up to those
-- shares and to the number of those orders, for bids and for asks; the bids are sorted by falling price, the asks
-- by rising price.
pub aggregate_adds_up :
    (h : Heap) (rs : List Text)
    → open_shares h rs < int64_limit
    → (shares_in (aggregate_bids h rs) ≡ open_shares h rs)
      × (orders_in (aggregate_bids h rs) ≡ open_count h rs)
      × IsSorted (λ a b. ltb_ℤ b.price a.price) (aggregate_bids h rs)
      × (shares_in (aggregate_asks h rs) ≡ open_shares h rs)
      × (orders_in (aggregate_asks h rs) ≡ open_count h rs)
      × IsSorted (λ a b. ltb_ℤ a.price b.price) (aggregate_asks h rs)
unfolding aggregate_bids aggregate_asks
aggregate_adds_up h rs fits =
    let falling = λ (a b : Entry). ltb_ℤ b.price a.price in
    let rising = λ (a b : Entry). ltb_ℤ a.price b.price in
    let (s, o) = sorted-sums falling h rs fits in
    let (s', o') = sorted-sums rising h rs fits in
    (
      s,
      o,
      sort_stable-IsSorted falling (λ x y p. ground arith) (λ x y z p q. ground arith)
          (λ x y z p q. ground arith) _,
      s',
      o',
      sort_stable-IsSorted rising (λ x y p. ground arith) (λ x y z p q. ground arith)
          (λ x y z p q. ground arith) _,
    )
