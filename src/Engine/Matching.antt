-- ===== src/Engine/Matching.antt =====
-- internal/engine/engine.go, `matchOrder` and what it calls: price-time matching of one order.
--
-- Ids of trades and the time come from outside: `Env` gives the clock and the uuid of the n-th
-- trade of a call. The loop of `matchAgainstBook` takes fuel; Matching/Termination.antt shows how
-- much it needs.
pub mod Counterparty
pub mod Loop
pub mod Terms
pub mod Fills
pub mod Termination
pub mod Results
use golang_predix.Common.{
  ℕ, zero, suc, Bool, true, false, not, ◌&&◌, ◌||◌, Option, none, some, List, [], ◌∷◌, ◌++◌, ite,
  Text, Text-discrete, if◌then◌else◌, length, get_elem?,
}
use golang_predix.Common.Int.{ℤ, pos, ltb_ℤ, leb_ℤ}
use golang_predix.Common.Int64.{add64, sub64}
use golang_predix.Engine.Types.{
  Side, Outcome, Status, pending, partial, filled, canceled, rejected, Order, Trade, Heap,
  OrderBook, is_buy, is_sell, is_market, update,
}
use mathlib.Core.Option

pub record Env : Type 0 where
  pub uuid : ℕ → Text
  pub now : ℕ

unfoldable pub is_filled : Status → Bool
is_filled filled = true
is_filled _ = false

unfoldable pub is_canceled : Status → Bool
is_canceled canceled = true
is_canceled _ = false

unfoldable pub is_rejected : Status → Bool
is_rejected rejected = true
is_rejected _ = false

pub Outcome-discrete : Discrete Outcome
Outcome-discrete = hlevel Text-discrete

unfoldable pub can_match : Order → Order → Bool
can_match incoming resting =
    ite (Outcome-discrete incoming.outcome resting.outcome)
      (if is_market incoming.order_type
        then true
        else if is_buy incoming.side
        then leb_ℤ resting.price incoming.price
        else if is_sell incoming.side
        then leb_ℤ incoming.price resting.price
        else false)
      false

-- The first `continue` of `findCounterparty`.
unfoldable pub is_dead : Order → Bool
is_dead o =
    is_filled o.status
    || is_canceled o.status
    || is_rejected o.status
    || leb_ℤ o.remaining_quantity (pos 0)

-- A round of `findCounterparty` that returns.
unfoldable pub is_eligible : Order → Order → Bool
is_eligible incoming resting =
    if is_dead resting
    then false
    else ite (Text-discrete resting.user_id incoming.user_id) false (can_match incoming resting)

-- `findCounterparty`, where `none` stands for -1.
unfoldable pub find_counterparty : Heap → Order → List Text → Option ℕ
find_counterparty h incoming [] = none
find_counterparty h incoming (r ∷ rs) =
    if is_eligible incoming (h r) then some 0 else Option.map suc (find_counterparty h incoming rs)

unfoldable pub remove_order_index : List Text → ℕ → List Text
remove_order_index [] i = []
remove_order_index (r ∷ rs) zero = rs
remove_order_index (r ∷ rs) (suc i) = r ∷ remove_order_index rs i

-- The test of `removeInvalidAsks` and `removeInvalidBids`.
unfoldable pub is_invalid : Order → Bool
is_invalid o = is_filled o.status || is_canceled o.status || leb_ℤ o.remaining_quantity (pos 0)

-- `removeInvalidAsks` and `removeInvalidBids`, on the one slice that each of them shortens.
unfoldable pub remove_invalid : Heap → List Text → List Text
remove_invalid h [] = []
remove_invalid h (r ∷ rs) = if is_invalid (h r) then remove_invalid h rs else r ∷ rs

-- `min` of engine.go.
unfoldable pub min64 : ℤ → ℤ → ℤ
min64 a b = if ltb_ℤ a b then a else b

unfoldable pub build_trade : Text → ℕ → Order → Order → ℤ → Trade
build_trade id now taker maker quantity = record {
  id = id;
  order_id = taker.id;
  match_order_id = maker.id;
  event_id = taker.event_id;
  outcome = taker.outcome;
  buyer_id = if is_buy taker.side then taker.user_id else maker.user_id;
  seller_id = if is_buy taker.side then maker.user_id else taker.user_id;
  taker_side = taker.side;
  quantity = quantity;
  price = maker.price;
  created_at = now;
}

-- What the loop works on: the orders, the slice that it matches against, the trades so far.
pub record MatchState : Type 0 where
  pub heap : Heap
  pub resting : List Text
  pub trades : List Trade

-- The fill of an order by a quantity.
unfoldable pub fill : ℤ → Order → Order
fill n o = record o {
  remaining_quantity = sub64 o.remaining_quantity n;
  filled_quantity = add64 o.filled_quantity n;
}

-- The state of a resting order after its fill.
unfoldable pub rest_after_fill : Order → Order
rest_after_fill o =
    if leb_ℤ o.remaining_quantity (pos 0)
    then record o { remaining_quantity = pos 0; status = filled }
    else record o { status = partial }

unfoldable pub execute_pair : Env → Text → Text → ℕ → MatchState → MatchState
execute_pair env incoming resting idx m =
    let i = m.heap incoming in
    let n = min64 i.remaining_quantity (m.heap resting).remaining_quantity in
    let trade = build_trade (env.uuid (length m.trades)) env.now i (m.heap resting) n in
    let h₁ = update incoming (fill n i) m.heap in
    let r = fill n (h₁ resting) in
    if leb_ℤ n (pos 0) then m else record {
      heap = update resting (rest_after_fill r) h₁;
      resting =
          if leb_ℤ r.remaining_quantity (pos 0)
          then remove_order_index m.resting idx
          else m.resting;
      trades = m.trades ++ trade ∷ [];
    }

pub data Progress : Type 0 where
  halt go_on : MatchState → Progress

-- The end of a round: the counterparty that was found, if any.
unfoldable pub trade_with : Env → Text → MatchState → Option ℕ → Progress
trade_with env incoming m none = halt m
trade_with env incoming m (some idx) = elim (get_elem? m.resting idx) [
  | none ↦ halt m
  | some r ↦ go_on (execute_pair env incoming r idx m)
]

-- One round of the loop of `matchAgainstBook`.
unfoldable pub round : Env → Text → MatchState → Progress
round env incoming m =
    let m' = record m { resting = remove_invalid m.heap m.resting } in
    if ltb_ℤ (pos 0) (m.heap incoming).remaining_quantity
    then trade_with env incoming m' (find_counterparty m.heap (m.heap incoming) m'.resting)
    else halt m

-- Whether the loop goes on.
unfoldable pub resume : (MatchState → MatchState) → Progress → MatchState
resume rest (halt m) = m
resume rest (go_on m) = rest m

unfoldable pub match_loop : ℕ → Env → Text → MatchState → MatchState
match_loop zero env incoming m = m
match_loop (suc fuel) env incoming m = resume (match_loop fuel env incoming) (round env incoming m)

-- The slice that an order is matched against.
unfoldable pub opposing : Side → OrderBook → List Text
opposing side b = if is_buy side then b.asks else b.bids

unfoldable pub set_opposing : Side → List Text → OrderBook → OrderBook
set_opposing side rs b = if is_buy side then record b { asks = rs } else record b { bids = rs }

-- `matchAgainstBook`: a round for each resting order, and one more, are enough.
unfoldable pub match_against_book : Env → Text → Heap → OrderBook → MatchState
match_against_book env incoming h b =
    let rs = opposing (h incoming).side b in
    match_loop (suc (length rs)) env incoming (record { heap = h; resting = rs; trades = [] })
