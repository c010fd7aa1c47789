-- ===== src/Engine/Depth.antt =====
-- internal/engine/engine.go, `handleGetDepth` and `handleGetOpenOrders`: the queries.
--
-- Go walks a map in no fixed order; a walk here follows the list behind the map, and the source
-- sorts what it has collected.
pub mod Sums
use golang_predix.Common.{
  ℕ_discrete, Bool, true, false, ◌&&◌, Option, none, some, List, [], ◌∷◌, map, ite, ltb, Text,
  Text-discrete, if◌then◌else◌,
}
use golang_predix.Common.Int.{ℤ, pos, ltb_ℤ}
use golang_predix.Common.Int64.{add64, mul64}
use golang_predix.Common.Dict.{lookup}
use golang_predix.Engine.Types.{Status, pending, partial, Order, Heap, Market, Store}
use golang_predix.Engine.Book.{sort_stable}

pub record Entry : Type 0 where
  pub price : ℤ
  pub quantity : ℤ
  pub total : ℤ
  pub order_count : ℤ

pub record DepthSide : Type 0 where
  pub bids : List Entry
  pub asks : List Entry

pub record Depth : Type 0 where
  pub event_id : Text
  pub yes_side : DepthSide
  pub no_side : DepthSide

-- `status == PENDING || status == PARTIAL`
unfoldable pub is_open : Status → Bool
is_open pending = true
is_open partial = true
is_open _ = false

-- The two `continue`s of the aggregation.
unfoldable pub is_shown : Order → Bool
is_shown o = is_open o.status && ltb_ℤ (pos 0) o.remaining_quantity

pub record Level : Type 0 where
  pub price : ℤ
  pub quantity : ℤ
  pub count : ℤ

pub ℤ-discrete : Discrete ℤ
ℤ-discrete = hlevel ℕ_discrete

-- `levels[order.Price]`, created where it is missing, and the two sums.
unfoldable pub add_level : Order → List Level → List Level
add_level o [] =
    record {
      price = o.price;
      quantity = add64 (pos 0) o.remaining_quantity;
      count = add64 (pos 0) (pos 1);
    }
    ∷ []
add_level o (l ∷ ls) =
    ite (ℤ-discrete o.price l.price)
      (record l { quantity = add64 l.quantity o.remaining_quantity; count = add64 l.count (pos 1) }
        ∷ ls)
      (l ∷ add_level o ls)

-- The loop over the orders of a side.
unfoldable pub levels_of : Heap → List Text → List Level → List Level
levels_of h [] ls = ls
levels_of h (r ∷ rs) ls = levels_of h rs (if is_shown (h r) then add_level (h r) ls else ls)

unfoldable pub entry_of : Level → Entry
entry_of l = record {
  price = l.price;
  quantity = l.quantity;
  total = mul64 l.price l.quantity;
  order_count = l.count;
}

unfoldable pub aggregate_bids : Heap → List Text → List Entry
aggregate_bids h rs = sort_stable (λ a b. ltb_ℤ b.price a.price) (map entry_of (levels_of h rs []))

unfoldable pub aggregate_asks : Heap → List Text → List Entry
aggregate_asks h rs = sort_stable (λ a b. ltb_ℤ a.price b.price) (map entry_of (levels_of h rs []))

unfoldable pub depth_of : Text → Heap → Market → Depth
depth_of event h m = record {
  event_id = event;
  yes_side = record {
    bids = aggregate_bids h m.yes_book.bids;
    asks = aggregate_asks h m.yes_book.asks;
  };
  no_side = record {
    bids = aggregate_bids h m.no_book.bids;
    asks = aggregate_asks h m.no_book.asks;
  };
}

-- `handleGetDepth`, past the decoding: `none` is the failure for an unknown event.
unfoldable pub get_depth : Text → Store → Option Depth
get_depth event s = elim (lookup event s.markets) [
  | none ↦ none
  | some m ↦ some (depth_of event s.heap m)
]

unfoldable pub is_wanted : Text → Text → Order → Bool
is_wanted event user o =
    ite (Text-discrete o.event_id event)
      (ite (Text-discrete o.user_id user) (is_open o.status) false) false

unfoldable pub wanted_orders : Text → Text → Heap → List Text → List Order
wanted_orders event user h [] = []
wanted_orders event user h (r ∷ rs) =
    let rest = wanted_orders event user h rs in
    if is_wanted event user (h r) then h r ∷ rest else rest

-- `handleGetOpenOrders`, past the decoding.
unfoldable pub get_open_orders : Text → Text → Store → List Order
get_open_orders event user s =
    sort_stable (λ a b. ltb a.created_at b.created_at) (wanted_orders event user s.heap s.orders)
