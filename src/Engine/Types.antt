-- ===== src/Engine/Types.antt =====
-- internal/engine/types.go: the engine's data.
--
-- The source keeps sides, outcomes, order types and states as strings. The constants are
-- constructors here, and `unknown_…` holds any other string that a payload can carry; a state is
-- only ever set by the engine itself. An `int64` is an integer in range (Common/Int64.antt), a
-- time stamp a number.
--
-- An `*Order` is the id of the order. The engine allocates one order for an id that is not
-- registered and puts no other order of that id in a book, so pointers and ids agree; the heap
-- gives the order behind each id.
use golang_predix.Common.{
  ℕ, ◌*◌, ◌≡◌, refl, Bool, true, false, Option, none, some, List, [], ◌∷◌, ite, Text, codes,
  Text-discrete,
}
use golang_predix.Common.Int.{ℤ, pos}
use golang_predix.Common.Dict.{Dict}

pub data Side : Type 0 where
  buy sell : Side
  unknown_side : Text → Side

pub data Outcome : Type 0 where
  outcome_yes outcome_no : Outcome
  unknown_outcome : Text → Outcome

pub data OrderType : Type 0 where
  limit market : OrderType
  unknown_type : Text → OrderType

pub data Status : Type 0 where
  pending partial filled canceled rejected : Status

-- `side == SideBuy`
unfoldable pub is_buy : Side → Bool
is_buy buy = true
is_buy _ = false

-- `side == SideSell`
unfoldable pub is_sell : Side → Bool
is_sell sell = true
is_sell _ = false

-- `orderType == OrderTypeMarket`
unfoldable pub is_market : OrderType → Bool
is_market market = true
is_market _ = false

-- `orderType == OrderTypeLimit`
unfoldable pub is_limit : OrderType → Bool
is_limit limit = true
is_limit _ = false

-- The string of an outcome.
unfoldable pub outcome_text : Outcome → Text
outcome_text outcome_yes = codes "YES"
outcome_text outcome_no = codes "NO"
outcome_text (unknown_outcome t) = t

-- PriceScale and DefaultStartingBalance.
abbrev pub price_scale : ℕ
price_scale = 10000

abbrev pub default_starting_balance : ℤ
default_starting_balance = pos (100 * price_scale)

-- The structs `Balance` and `Position` have the same two fields: cash of a user, and shares of a
-- user in one outcome of one event. `available` can be spent, `reserved` is frozen by open orders.
pub record Holding : Type 0 where
  pub available : ℤ
  pub reserved : ℤ

abbrev pub Balance : Type 0
Balance = Holding

abbrev pub Position : Type 0
Position = Holding

pub record Order : Type 0 where
  pub id : Text
  pub event_id : Text
  pub user_id : Text
  pub order_type : OrderType
  pub outcome : Outcome
  pub side : Side
  pub quantity : ℤ
  pub filled_quantity : ℤ
  pub remaining_quantity : ℤ
  pub price : ℤ
  pub status : Status
  pub locked_funds : ℤ
  pub created_at : ℕ

pub record Trade : Type 0 where
  pub id : Text
  pub order_id : Text
  pub match_order_id : Text
  pub event_id : Text
  pub outcome : Outcome
  pub buyer_id : Text
  pub seller_id : Text
  pub taker_side : Side
  pub quantity : ℤ
  pub price : ℤ
  pub created_at : ℕ

-- The orders behind the pointers.
abbrev pub Heap : Type 0
Heap = Text → Order

-- A write through a pointer.
unfoldable pub update : Text → Order → Heap → Heap
update r o h q = ite (Text-discrete q r) o (h q)

pub record OrderBook : Type 0 where
  pub bids : List Text
  pub asks : List Text

pub record Market : Type 0 where
  pub yes_book : OrderBook
  pub no_book : OrderBook

abbrev pub empty_book : OrderBook
empty_book = record { bids = []; asks = [] }

unfoldable pub new_market : Market
new_market = record { yes_book = empty_book; no_book = empty_book }

-- `Market.Book`, where `none` is the nil pointer.
unfoldable pub book_of : Market → Outcome → Option OrderBook
book_of m outcome_yes = some m.yes_book
book_of m outcome_no = some m.no_book
book_of m (unknown_outcome t) = none

-- A write through the pointer that `Market.Book` returns.
unfoldable pub set_book : Outcome → OrderBook → Market → Market
set_book outcome_yes b m = record m { yes_book = b }
set_book outcome_no b m = record m { no_book = b }
set_book (unknown_outcome t) b m = m

-- The part of `Engine` that its mutex guards. `orders` lists the keys of the map of orders, whose
-- values are the pointers of the same ids.
pub record Store : Type 0 where
  pub markets : Dict Market
  pub heap : Heap
  pub orders : List Text
  pub balances : Dict Balance
  pub positions : Dict Position

-- `_, exists := e.orders[id]`
unfoldable pub registered : Text → List Text → Bool
registered r [] = false
registered r (q ∷ qs) = ite (Text-discrete r q) true (registered r qs)

-- `delete(e.orders, id)`
unfoldable pub unregister : Text → List Text → List Text
unregister r [] = []
unregister r (q ∷ qs) = ite (Text-discrete r q) qs (q ∷ unregister r qs)

pub update_lem :
    (r q : Text) (o : Order) (h : Heap) → update r o h q ≡ ite (Text-discrete q r) o (h q)
unfolding update
update_lem r q o h = refl
