-- ===== src/Engine/Book.antt =====
-- internal/engine/engine.go, `addToBook` and `removeOrderFromSlice`: the resting orders of a side.
pub mod Priority
use golang_predix.Common.{
  Bool, true, false, List, [], ◌∷◌, ◌++◌, ite, Text, Text-discrete, if◌then◌else◌,
}
use golang_predix.Common.Int.{ltb_ℤ}
use golang_predix.Engine.Types.{Heap, OrderBook, is_buy}

-- `sort.SliceStable`: each element goes behind those that it is not less than.
module _ {ℓ} {A : Type ℓ} (less : A → A → Bool) where
  unfoldable pub insert_stable : A → List A → List A
  insert_stable x [] = x ∷ []
  insert_stable x (y ∷ ys) = if less x y then x ∷ y ∷ ys else y ∷ insert_stable x ys

  unfoldable pub insert_all : List A → List A → List A
  insert_all sorted [] = sorted
  insert_all sorted (x ∷ xs) = insert_all (insert_stable x sorted) xs

  unfoldable pub sort_stable : List A → List A
  sort_stable xs = insert_all [] xs

-- The two comparisons of `addToBook`: the higher bid first, the lower ask first.
abbrev pub bid_before : Heap → Text → Text → Bool
bid_before h a b = ltb_ℤ (h b).price (h a).price

abbrev pub ask_before : Heap → Text → Text → Bool
ask_before h a b = ltb_ℤ (h a).price (h b).price

unfoldable pub add_to_book : Heap → Text → OrderBook → OrderBook
add_to_book h r b =
    if is_buy (h r).side
    then record b { bids = sort_stable (bid_before h) (b.bids ++ r ∷ []) }
    else record b { asks = sort_stable (ask_before h) (b.asks ++ r ∷ []) }

-- `removeOrderFromSlice`, which drops the first order of the id.
unfoldable pub remove_order : Text → List Text → List Text
remove_order r [] = []
remove_order r (q ∷ qs) = ite (Text-discrete q r) qs (q ∷ remove_order r qs)
