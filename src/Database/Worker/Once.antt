-- ===== src/Database/Worker/Once.antt =====
-- internal/dbworker/worker.go, `settleTrade`: a trade is settled once, however often it is delivered.
use golang_predix.Common.{◌≡◌, ◌∙◌, ap, true, false, List, ◌∷◌, arith, inl, inr}
use golang_predix.Engine.Types.{Trade}
use golang_predix.Database.Result.{begin, insert_trade_row, ok}
use golang_predix.Database.Rows.{TradeRow, Db, Server}
use golang_predix.Database.Queries.{has_trade, insert_trade}
use golang_predix.Database.Settlement.{trade_row, settle_row, settle_in_tables}
use golang_predix.Database.Settlement.Steps.{settle_row-ok, settle_in_tables-ok}
use golang_predix.Database.Settlement.Frame.{Settled-frame}

has_trade_self : (r : TradeRow) (ts : List TradeRow) → has_trade r.id (r ∷ ts) ≡ true
unfolding has_trade
has_trade_self r ts = ground arith

-- A settlement that succeeds leaves its trade in the table.
pub settle_row-has_trade :
    (s : Server) (r : TradeRow) (db db' : Db)
    → settle_row s r db ≡ ok db'
    → has_trade r.id db'.trades ≡ true
settle_row-has_trade s r db db' h = elim (settle_row-ok s r db h) [
  | inl (old, same) ↦ ap (λ x. has_trade r.id x.trades) same ∙ old
  | inr (new, d) ↦ ap (has_trade r.id) (Settled-frame s r _ db' d).0 ∙ has_trade_self r db.trades
]

settle_row_known :
    (s : Server) (r : TradeRow) (db : Db)
    → has_trade r.id db.trades ≡ true
    → settle_row s r db ≡ ok db
unfolding settle_row insert_trade
settle_row_known s r db h = ground arith

trade_row-parse :
    (s s' : Server) (t : Trade) → s'.parse_uuid ≡ s.parse_uuid → trade_row s' t ≡ trade_row s t
unfolding trade_row
trade_row-parse s s' t e = rw e

-- A trade whose settlement succeeded, as a new trade or as one that was there, and that is delivered again, at a
-- server that reads uuids in the same way and takes the first two statements: the settlement succeeds again,
-- whatever else the server refuses, and changes nothing.
pub settle_in_tables_again :
    (s s' : Server) (t : Trade) (db db' : Db)
    → settle_in_tables s t db ≡ ok db'
    → s'.parse_uuid ≡ s.parse_uuid
    → s'.refuses begin ≡ false
    → s'.refuses insert_trade_row ≡ false
    → settle_in_tables s' t db' ≡ ok db'
unfolding settle_in_tables
settle_in_tables_again s s' t db db' h same b i =
    let (r, parsed, settled) = settle_in_tables-ok s t db h in
    let known = settle_row_known s' r db' (settle_row-has_trade s r db db' settled) in
    ground (arith, trade_row-parse s s' t same ∙ parsed, known)
