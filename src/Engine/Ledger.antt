-- ===== src/Engine/Ledger.antt =====
-- internal/engine/ledger.go: user funds and shares.
pub mod Totals
pub mod Moves
pub mod Conservation
pub mod Settlement
pub mod RoundTrip
pub mod Gaps
use golang_predix.Common.{Option, none, some, List, [], ◌∷◌, ◌++◌, Text, codes, if◌then◌else◌}
use golang_predix.Common.Int.{ℤ, pos, ltb_ℤ, leb_ℤ}
use golang_predix.Common.Int64.{add64, sub64, mul64}
use golang_predix.Common.Dict.{lookup, contains, insert, value_or}
use golang_predix.Engine.Types.{
  Holding, Balance, Position, Order, Trade, Outcome, Store, is_buy, is_market, outcome_text, update,
  registered, default_starting_balance,
}

pub data LedgerError : Type 0 where
  insufficient_funds insufficient_shares : LedgerError

abbrev pub no_balance : Balance
no_balance = record { available = pos 0; reserved = pos 0 }

abbrev pub no_position : Position
no_position = record { available = pos 0; reserved = pos 0 }

-- What `getOrCreateBalance` points to.
abbrev pub balance_of : Store → Text → Balance
balance_of s user = value_or no_balance user s.balances

unfoldable pub position_key : Text → Text → Outcome → Text
position_key user event outcome =
    user ++ (codes ":" ++ (event ++ (codes ":" ++ outcome_text outcome)))

-- What `getOrCreatePosition` points to, by its key.
abbrev pub position_of : Store → Text → Position
position_of s key = value_or no_position key s.positions

-- `getOrCreateBalance`, and the write of the pointed-to balance; a missing entry is created.
unfoldable pub put_balance : Text → Balance → Store → Store
put_balance user b s = record s { balances = insert user b s.balances }

-- `getOrCreatePosition`, and the write of the pointed-to position.
unfoldable pub put_position : Text → Position → Store → Store
put_position key p s = record s { positions = insert key p s.positions }

-- A write of the locked funds through a pointer to an order.
unfoldable pub put_locked : Text → ℤ → Store → Store
put_locked r v s = record s { heap = update r (record (s.heap r) { locked_funds = v }) s.heap }

-- `if x < 0 { x = 0 }`
unfoldable pub at_least_zero : ℤ → ℤ
at_least_zero x = if ltb_ℤ x (pos 0) then pos 0 else x

-- Writes of the two fields of a balance or a position: an amount is frozen, thawed, taken from
-- what is frozen, or added to what can be spent.
unfoldable pub freeze : ℤ → Holding → Holding
freeze n h = record { available = sub64 h.available n; reserved = add64 h.reserved n }

unfoldable pub thaw : ℤ → Holding → Holding
thaw n h = record { available = add64 h.available n; reserved = at_least_zero (sub64 h.reserved n) }

unfoldable pub debit : ℤ → Holding → Holding
debit n h = record h { reserved = at_least_zero (sub64 h.reserved n) }

unfoldable pub credit : ℤ → Holding → Holding
credit n h = record h { available = add64 h.available n }

-- The grant of `handleUserCreated`, past the decoding of its payload.
unfoldable pub create_user : Text → Store → Store
create_user user s =
    if contains user s.balances
    then s
    else put_balance user (record no_balance { available = default_starting_balance }) s

-- The cost that a BUY freezes.
unfoldable pub buy_cost : Order → Balance → ℤ
buy_cost o bal =
    if is_market o.order_type then bal.available else mul64 o.remaining_quantity o.price

-- The two cases of `reserveOrderLocked`. The entry is created also where the check fails.
unfoldable pub reserve_funds : Text → Store → Option LedgerError × Store
reserve_funds r s =
    let o = s.heap r in
    let bal = balance_of s o.user_id in
    let cost = buy_cost o bal in
    if ltb_ℤ bal.available cost
    then (some insufficient_funds, put_balance o.user_id bal s)
    else (none, put_locked r cost (put_balance o.user_id (freeze cost bal) s))

unfoldable pub reserve_shares : Text → Store → Option LedgerError × Store
reserve_shares r s =
    let o = s.heap r in
    let key = position_key o.user_id o.event_id o.outcome in
    let p = position_of s key in
    let n = o.remaining_quantity in
    if ltb_ℤ p.available n
    then (some insufficient_shares, put_position key p s)
    else (none, put_locked r n (put_position key (freeze n p) s))

-- `reserveOrderLocked`: freeze what an order needs before it enters the book.
unfoldable pub reserve_order : Text → Store → Option LedgerError × Store
reserve_order r s = if is_buy (s.heap r).side then reserve_funds r s else reserve_shares r s

-- One round of the last loop of `settleTradeLocked`.
unfoldable pub unlock_fill : ℤ → ℤ → Text → Store → Store
unlock_fill cost n r s =
    let o = s.heap r in
    if registered r s.orders
    then put_locked r (at_least_zero (sub64 o.locked_funds (if is_buy o.side then cost else n))) s
    else s

unfoldable pub pay_buyer : Trade → ℤ → Store → Store
pay_buyer t cost s =
    let s₁ = put_balance t.buyer_id (debit cost (balance_of s t.buyer_id)) s in
    let key = position_key t.buyer_id t.event_id t.outcome in
    put_position key (credit t.quantity (position_of s₁ key)) s₁

unfoldable pub pay_seller : Trade → ℤ → Store → Store
pay_seller t cost s =
    let s₁ = put_balance t.seller_id (credit cost (balance_of s t.seller_id)) s in
    let key = position_key t.seller_id t.event_id t.outcome in
    put_position key (debit t.quantity (position_of s₁ key)) s₁

-- `settleTradeLocked`: apply one executed trade.
unfoldable pub settle_trade : Trade → Store → Store
settle_trade t s =
    let cost = mul64 t.quantity t.price in
    let s₁ = pay_seller t cost (pay_buyer t cost s) in
    unlock_fill cost t.quantity t.match_order_id (unlock_fill cost t.quantity t.order_id s₁)

unfoldable pub settle_trades : List Trade → Store → Store
settle_trades [] s = s
settle_trades (t ∷ ts) s = settle_trades ts (settle_trade t s)

unfoldable pub release_funds : Text → Store → Store
release_funds r s =
    let o = s.heap r in put_balance o.user_id (thaw o.locked_funds (balance_of s o.user_id)) s

unfoldable pub release_shares : Text → Store → Store
release_shares r s =
    let o = s.heap r in
    let key = position_key o.user_id o.event_id o.outcome in
    put_position key (thaw o.locked_funds (position_of s key)) s

-- `releaseOrderLocked`: return what an order no longer needs.
unfoldable pub release_order : Text → Store → Store
release_order r s =
    let o = s.heap r in
    if leb_ℤ o.locked_funds (pos 0)
    then s
    else put_locked r (pos 0) (if is_buy o.side then release_funds r s else release_shares r s)

-- `GetBalances` and `GetPosition`: a snapshot, or `none` for an unknown key.
unfoldable pub get_balances : Text → Store → Option Balance
get_balances user s = lookup user s.balances

unfoldable pub get_position : Text → Text → Outcome → Store → Option Position
get_position user event outcome s = lookup (position_key user event outcome) s.positions
