-- ===== src/Engine/Undated.antt =====
-- internal/engine: what an order, a trade and the store are when it is left out when they were made.
pub mod Match
pub mod Ledger
pub mod Orders
pub mod Cancel
use golang_predix.Common.{
  ℕ, ◌≡◌, refl, ap, if◌then◌else◌, Bool, true, false, Option, none, some, List, [], ◌∷◌, ◌++◌, map,
  Text, Text-discrete, arith,
}
use golang_predix.Common.Int.{ℤ, pos}
use golang_predix.Engine.Types.{Status, Order, Trade, Heap, Store, update}

-- A function of the result of a test.
pub if-apply {ℓ κ} :
    {A : Type ℓ} {B : Type κ} (f : A → B) (b : Bool) (x y : A)
    → f (if b then x else y) ≡ (if b then f x else f y)
if-apply f true x y = refl
if-apply f false x y = refl

-- An order without the time of its creation.
abbrev pub undated : Order → Order
undated o = record o { created_at = 0 }

abbrev pub undated_heap : Heap → Heap
undated_heap h = λ r. undated (h r)

-- A trade without its id and its time.
abbrev pub undated_trade : Trade → Trade
undated_trade t = record t { id = []; created_at = 0 }

abbrev pub undated_store : Store → Store
undated_store s = record s { heap = undated_heap s.heap }

update-undated_at :
    (r q : Text) (o : Order) (h : Heap)
    → undated (update r o h q) ≡ update r (undated o) (undated_heap h) q
unfolding update
update-undated_at r q o h = ground arith

pub update-undated :
    (r : Text) (o : Order) (h : Heap)
    → undated_heap (update r o h) ≡ update r (undated o) (undated_heap h)
update-undated r o h = λ i. λ q. update-undated_at r q o h i
