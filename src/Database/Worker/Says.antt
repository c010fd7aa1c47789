-- ===== src/Database/Worker/Says.antt =====
-- internal/repository/orders.sql.go: what the row of an order says of its fills, and what a write does to it.
use golang_predix.Common.{
  ◌≡◌, refl, true, none, some, List, [], ◌∷◌, Text, Text-discrete, ite, All, All-map, inl, inr,
  Option-cases, arith,
}
use golang_predix.Common.Int.{ℤ, pos, ◌+ℤ◌, ◌-ℤ◌}
use golang_predix.Common.Dict.{Dict, lookup, insert, contains, lookup-insert}
use golang_predix.Engine.Types.{Status}
use golang_predix.Database.Rows.{OrderRow, TradeRow, Db}
use golang_predix.Database.Queries.{greatest_zero, filled_row, update_order_fill}

abbrev pub add_if : {A : Type 0} → Dec A → ℤ → ℤ → ℤ
add_if d n x = ite d (x +ℤ n) x

-- The shares of the trades that name an order, once as the taker's and once as the maker's.
abbrev pub filled_of : Text → List TradeRow → ℤ
filled_of id [] = pos 0
filled_of id (t ∷ ts) =
    add_if (Text-discrete id t.maker_order_id) t.quantity
      (add_if (Text-discrete id t.taker_order_id) t.quantity (filled_of id ts))

-- A row that says how much is filled, and what remains.
pub record Says (n : ℤ) (row : OrderRow) : Type 0 where
  pub filled : row.filled_quantity ≡ n
  pub remaining : row.remaining_quantity ≡ greatest_zero (row.quantity -ℤ n)

-- Every row says of its order what the function does.
abbrev pub AllSay : (Text → ℤ) → Dict OrderRow → Type 0
AllSay f d = (id : Text) (row : OrderRow) → lookup id d ≡ some row → Says (f id) row

-- Both orders of a trade have a row.
abbrev pub HasOrders : Dict OrderRow → TradeRow → Type 0
HasOrders d t = (contains t.taker_order_id d ≡ true) × (contains t.maker_order_id d ≡ true)

-- Every trade's orders are in the table, and every row of an order says what the trades add up to.
pub record IsFilled (db : Db) : Type 0 where
  pub known : All (HasOrders db.orders) db.trades
  pub says : AllSay (λ id. filled_of id db.trades) db.orders

pub contains-insert :
    (j k : Text) (row : OrderRow) (d : Dict OrderRow)
    → contains j d ≡ true
    → contains j (insert k row d) ≡ true
unfolding contains
contains-insert j k row d h = ground (arith, lookup-insert j k row d)

pub HasOrders-insert :
    (k : Text) (row : OrderRow) (d : Dict OrderRow) (ts : List TradeRow)
    → All (HasOrders d) ts
    → All (HasOrders (insert k row d)) ts
HasOrders-insert k row d ts h =
    All-map
      (λ t. λ c. (
        contains-insert t.taker_order_id k row d c.0,
        contains-insert t.maker_order_id k row d c.1,
      ))
      ts h

pub add_if_other : (id k : Text) (n x : ℤ) → ¬ (id ≡ k) → add_if (Text-discrete id k) n x ≡ x
add_if_other id k n x differ = ground arith

-- What a written row says.
pub AllSay-insert :
    (f g : Text → ℤ) (k : Text) (row : OrderRow) (d : Dict OrderRow)
    → AllSay f d
    → Says (g k) row
    → ((id : Text) → ¬ (id ≡ k) → g id ≡ f id)
    → AllSay g (insert k row d)
AllSay-insert f g k row d v here others id found h = elim (Text-discrete id k) [
  | yes same ↦ let e : found ≡ row = ground (arith, lookup-insert id k row d) in rw (same, e) here
  | no differ ↦
      let e : lookup id d ≡ some found = ground (arith, lookup-insert id k row d) in
      rw (others id differ) (v id found e)
]

pub fill_unknown :
    (k : Text) (n : ℤ) (status : Status) (db : Db)
    → lookup k db.orders ≡ none
    → (update_order_fill k n status db).orders ≡ db.orders
unfolding update_order_fill
fill_unknown k n status db e = ground arith

pub fill_known :
    (k : Text) (n : ℤ) (status : Status) (db : Db) (row : OrderRow)
    → lookup k db.orders ≡ some row
    → (update_order_fill k n status db).orders ≡ insert k (filled_row n status row) db.orders
unfolding update_order_fill
fill_known k n status db row e = ground arith

-- A fill adds its shares to what one row says.
pub update_order_fill-AllSay :
    (f : Text → ℤ) (k : Text) (n : ℤ) (status : Status) (db : Db)
    → AllSay f db.orders
    → AllSay (λ id. add_if (Text-discrete id k) n (f id)) (update_order_fill k n status db).orders
unfolding filled_row
update_order_fill-AllSay f k n status db v = elim (Option-cases (lookup k db.orders)) [
  | inl e ↦ rw (fill_unknown k n status db e) (λ id row h. elim (Text-discrete id k) [
    | yes same ↦ absurd (ground arith)
    | no differ ↦ rw (add_if_other id k n (f id) differ) (v id row h)
  ])
  | inr (row, e) ↦
      let said = v k row e in
      rw (fill_known k n status db row e) (
        AllSay-insert f (λ id. add_if (Text-discrete id k) n (f id)) k (filled_row n status row)
          db.orders v
          (record { filled = ground (arith, said.filled); remaining = ground (arith, said.filled) })
          (λ id differ. add_if_other id k n (f id) differ))
]

pub update_order_fill-contains :
    (j k : Text) (n : ℤ) (status : Status) (db : Db)
    → contains j db.orders ≡ true
    → contains j (update_order_fill k n status db).orders ≡ true
update_order_fill-contains j k n status db h = elim (Option-cases (lookup k db.orders)) [
  | inl e ↦ rw (fill_unknown k n status db e) h
  | inr (row, e) ↦
      rw (fill_known k n status db row e)
        (contains-insert j k (filled_row n status row) db.orders h)
]

pub update_order_fill-HasOrders :
    (k : Text) (n : ℤ) (status : Status) (db : Db) (ts : List TradeRow)
    → All (HasOrders db.orders) ts
    → All (HasOrders (update_order_fill k n status db).orders) ts
update_order_fill-HasOrders k n status db ts =
    All-map
      (λ t. λ c. (
        update_order_fill-contains t.taker_order_id k n status db c.0,
        update_order_fill-contains t.maker_order_id k n status db c.1,
      ))
      ts

pub contains_found :
    (k : Text) (row : OrderRow) (d : Dict OrderRow) → lookup k d ≡ some row → contains k d ≡ true
unfolding contains
contains_found k row d e = ground arith

pub filled_of-unknown :
    (id : Text) (d : Dict OrderRow) (ts : List TradeRow)
    → All (HasOrders d) ts
    → lookup id d ≡ none
    → filled_of id ts ≡ pos 0
unfolding contains
filled_of-unknown id d [] h none_there = refl
filled_of-unknown id d (t ∷ ts) h none_there =
    ground (arith, filled_of-unknown id d ts h.1 none_there, h.0)
