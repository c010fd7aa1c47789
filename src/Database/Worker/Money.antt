-- ===== src/Database/Worker/Money.antt =====
-- internal/dbworker/worker.go, `settleTrade`: what a settlement does to the sums of the balances and
-- of the shares.
use golang_predix.Common.{ℕ, ◌<◌, ◌≡◌, refl, ◌∙◌, ap, some, List, Text, inl, inr, Bool-cases}
use golang_predix.Common.Int.{ℤ, pos}
use golang_predix.Common.Int64.{int64_limit, sub64, mul64}
use golang_predix.Common.Dict.{lookup}
use golang_predix.Engine.Types.{Outcome}
use golang_predix.Database.Result.{ok}
use golang_predix.Database.Rows.{TradeRow, PositionRow, Db, Server}
use golang_predix.Database.Queries.{add_balance, upsert_rows}
use golang_predix.Database.Settlement.{position_for, settle_row}
use golang_predix.Database.Settlement.Steps.{Settled, settle_row-ok}
use golang_predix.Database.Settlement.Frame.{
  update_order_fill-frame, deduct_balance-frame, add_balance-frame, booked-frame, booked-positions,
}
use golang_predix.Database.Worker.Sums.{
  cash_in, is_contract, shares_of, upsert_rows-shares, cancels, deduct_balance-moves,
  deduct_balance-there, add_balance-moves,
}

-- The two fills change orders only.
filled_balances :
    (s : Server) (r : TradeRow) (db db' : Db) (d : Settled s r db db')
    → d.filled_maker.balances ≡ db.balances
filled_balances s r db db' d =
    ap (λ x. x.balances) d.maker_step
    ∙ ((update_order_fill-frame r.maker_order_id r.quantity _ d.filled_taker).1
        ∙ (ap (λ x. x.balances) d.taker_step
            ∙ (update_order_fill-frame r.taker_order_id r.quantity _ db).1))

filled_positions :
    (s : Server) (r : TradeRow) (db db' : Db) (d : Settled s r db db')
    → d.filled_maker.positions ≡ db.positions
filled_positions s r db db' d =
    ap (λ x. x.positions) d.maker_step
    ∙ ((update_order_fill-frame r.maker_order_id r.quantity _ d.filled_taker).2
        ∙ (ap (λ x. x.positions) d.taker_step
            ∙ (update_order_fill-frame r.taker_order_id r.quantity _ db).2))

-- The cash of all users is what it was.
Settled-cash :
    (s : Server) (r : TradeRow) (db db' : Db) (b : ℤ)
    → Settled s r db db'
    → lookup r.seller_id db.balances ≡ some b
    → cash_in db'.balances ≡ cash_in db.balances
Settled-cash s r db db' b d there =
    let total = mul64 r.quantity r.price in
    let before = filled_balances s r db db' d in
    let (c, still) =
      deduct_balance-there r.buyer_id r.seller_id total b d.filled_maker d.debit_step
        (ap (lookup r.seller_id) before ∙ there) in
    ap (λ x. cash_in x.balances) d.rest
    ∙ (ap cash_in (booked-frame s r total (add_balance r.seller_id total d.paid)).2
        ∙ (add_balance-moves r.seller_id total c d.paid still
            ∙ (deduct_balance-moves r.buyer_id total d.filled_maker d.debit_step
                ∙ ap cash_in before)))

-- A purchase and a sale of as many shares of one contract.
opposite-shares :
    (s : Server) (event : Text) (o : Outcome) (p q : PositionRow) (n : ℕ) (ps : List PositionRow)
    → is_contract event o q ≡ is_contract event o p
    → p.shares ≡ pos n
    → q.shares ≡ sub64 (pos 0) (pos n)
    → n < int64_limit
    → shares_of event o (upsert_rows s q (upsert_rows s p ps)) ≡ shares_of event o ps
opposite-shares s event o p q n ps same bought sold fits =
    let first = upsert_rows-shares s event o p ps in
    let second = upsert_rows-shares s event o q (upsert_rows s p ps) in
    elim (Bool-cases (is_contract event o p)) [
      | inl traded ↦
          second
          ∙ rw (same, traded, first, traded, bought, sold) (cancels n (shares_of event o ps) fits)
      | inr other ↦ second ∙ rw (same, other, first, other) refl
    ]

-- The shares of every contract, bought and sold together, are what they were.
Settled-shares :
    (s : Server) (r : TradeRow) (db db' : Db) (n : ℕ) (event : Text) (o : Outcome)
    → Settled s r db db'
    → r.quantity ≡ pos n
    → n < int64_limit
    → shares_of event o db'.positions ≡ shares_of event o db.positions
unfolding position_for
Settled-shares s r db db' n event o d q fits =
    let total = mul64 r.quantity r.price in
    let buy = position_for s r.buyer_id r.quantity r in
    let sell = position_for s r.seller_id (sub64 (pos 0) r.quantity) r in
    let moves : db'.positions ≡ upsert_rows s sell (upsert_rows s buy db.positions) =
      ap (λ x. x.positions) d.rest
      ∙ (booked-positions s r total (add_balance r.seller_id total d.paid)
          ∙ ap (λ x. upsert_rows s sell (upsert_rows s buy x))
              ((add_balance-frame r.seller_id total d.paid).2
                ∙ ((deduct_balance-frame r.buyer_id total d.filled_maker d.debit_step).2
                    ∙ (filled_positions s r db db' d)))) in
    ap (shares_of event o) moves
    ∙ opposite-shares s event o buy sell n db.positions refl q (ap (sub64 (pos 0)) q) fits

-- A trade whose settlement succeeds, at a seller that has a balance and with a quantity in the range
-- of int64: the sum of all balances is what it was, and so is the sum of the shares of every contract,
-- whether the trade was settled before or is settled now, and whatever its price.
pub settle_row-conserves :
    (s : Server) (r : TradeRow) (db db' : Db) (b : ℤ) (n : ℕ) (event : Text) (o : Outcome)
    → settle_row s r db ≡ ok db'
    → lookup r.seller_id db.balances ≡ some b
    → r.quantity ≡ pos n
    → n < int64_limit
    → (cash_in db'.balances ≡ cash_in db.balances)
      × (shares_of event o db'.positions ≡ shares_of event o db.positions)
settle_row-conserves s r db db' b n event o h there q fits = elim (settle_row-ok s r db h) [
  | inl (old, same) ↦
      (ap (λ x. cash_in x.balances) same, ap (λ x. shares_of event o x.positions) same)
  | inr (new, d) ↦ (Settled-cash s r _ db' b d there, Settled-shares s r _ db' n event o d q fits)
]
