-- ===== src/Database/Worker/Keeps.antt =====
-- internal/dbworker/worker.go: an entry's processing keeps what the rows of the orders say.
use golang_predix.Common.{◌≡◌, refl, Option, none, some, [], Text, inl, inr, Bool-cases, arith}
use golang_predix.Common.Int.{pos}
use golang_predix.Engine.Types.{canceled, Order, Trade}
use golang_predix.Engine.Events.{
  EventType, trade_executed, order_created, order_status, order_canceled, depth_updated,
}
use golang_predix.Partition.Redis.{Redis}
use golang_predix.Partition.Router.{fencing_key}
use golang_predix.Partition.Fencing.{
  FencingDecision, fencing_accept, fencing_stale, fencing_decision,
}
use golang_predix.Database.Result.{
  insert_order_row, set_order_status, read_token, acknowledge, Result, ok, err, >>=-eq-ok,
}
use golang_predix.Database.Rows.{Db, Server}
use golang_predix.Database.Queries.{insert_order, update_order_status}
use golang_predix.Database.Settlement.{send, parse, validate_trade, settle_in_tables}
use golang_predix.Database.Settlement.Steps.{settle_row-ok, settle_in_tables-ok}
use golang_predix.Database.Worker.{
  Incoming, or_same, decode, order_row, handle_trade_executed, handle_order_created,
  handle_order_canceled, dispatch, by_decision, handle_envelope, acknowledge_entry, process_event,
}
use golang_predix.Database.Worker.Fills.{
  Settled-IsFilled, insert_order-IsFilled, update_order_status-IsFilled,
}
use golang_predix.Database.Worker.Says.{Says, IsFilled}

-- An order that nothing of is filled.
abbrev pub IsUnfilled : Order → Type 0
IsUnfilled o = Says (pos 0) (order_row [] [] o)

-- A payload that is no order but an unfilled one.
abbrev pub OnlyUnfilled : Option Order → Type 0
OnlyUnfilled none = Unit
OnlyUnfilled (some o) = IsUnfilled o

-- An event that announces no order but an unfilled one.
abbrev pub IsFresh : Option Incoming → Type 0
IsFresh none = Unit
IsFresh (some v) = OnlyUnfilled v.as_order

module _ (s : Server) where
  settle_in_tables-IsFilled :
      (t : Trade) (db db' : Db) → settle_in_tables s t db ≡ ok db' → IsFilled db → IsFilled db'
  settle_in_tables-IsFilled t db db' h v =
      let (r, parsed, settled) = settle_in_tables-ok s t db h in
      elim (settle_row-ok s r db settled) [
        | inl (old, same) ↦ rw same v
        | inr (new, d) ↦ Settled-IsFilled s r db db' d v
      ]

  handle_trade_executed-IsFilled :
      (p : Option Trade) (db db' : Db)
      → handle_trade_executed s p db ≡ ok db'
      → IsFilled db
      → IsFilled db'
  unfolding handle_trade_executed
  handle_trade_executed-IsFilled p db db' h v =
      let (t, et, ht) = >>=-eq-ok (decode p) _ h in
      let (u, eu, hu) = >>=-eq-ok (validate_trade t) _ ht in settle_in_tables-IsFilled t db db' hu v

  handle_order_created-IsFilled :
      (p : Option Order) (db db' : Db)
      → handle_order_created s p db ≡ ok db'
      → OnlyUnfilled p
      → IsFilled db
      → IsFilled db'
  unfolding handle_order_created order_row
  handle_order_created-IsFilled none db db' h fresh v = absurd (ground arith)
  handle_order_created-IsFilled (some o) db db' h fresh v =
      let (id, ei, hi) = >>=-eq-ok (parse s o.id) _ h in
      let (event, ee, he) = >>=-eq-ok (parse s o.event_id) _ hi in
      let (user, eu, hu) = >>=-eq-ok (parse s o.user_id) _ he in
      let (x, ex, hx) = >>=-eq-ok (send s insert_order_row) _ hu in
      let row = order_row event user o in
      let written =
        insert_order-IsFilled id row db
          (record { filled = fresh.filled; remaining = fresh.remaining }) v in
      let e : db' ≡ or_same db (insert_order id row db) = ground arith in rw e written

  handle_order_canceled-IsFilled :
      (p : Option Text) (db db' : Db)
      → handle_order_canceled s p db ≡ ok db'
      → IsFilled db
      → IsFilled db'
  unfolding handle_order_canceled
  handle_order_canceled-IsFilled p db db' h v =
      let (r, er, hr) = >>=-eq-ok (decode p) _ h in
      let (id, ei, hi) = >>=-eq-ok (parse s r) _ hr in
      let (x, ex, hx) = >>=-eq-ok (send s set_order_status) _ hi in
      let e : db' ≡ update_order_status id canceled db = ground arith in
      rw e (update_order_status-IsFilled id canceled db v)

  dispatch-IsFilled :
      (kind : EventType) (v : Incoming) (db db' : Db)
      → dispatch s kind v db ≡ ok db'
      → IsFresh (some v)
      → IsFilled db
      → IsFilled db'
  unfolding dispatch
  dispatch-IsFilled trade_executed v db db' h fresh k =
      handle_trade_executed-IsFilled v.as_trade db db' h k
  dispatch-IsFilled order_created v db db' h fresh k =
      handle_order_created-IsFilled v.as_order db db' h fresh k
  dispatch-IsFilled order_canceled v db db' h fresh k =
      handle_order_canceled-IsFilled v.as_cancel db db' h k
  dispatch-IsFilled order_status v db db' h fresh k = let e : db' ≡ db = ground arith in rw e k
  dispatch-IsFilled depth_updated v db db' h fresh k = let e : db' ≡ db = ground arith in rw e k

  by_decision-IsFilled :
      (d : FencingDecision) (v : Incoming) (db db' : Db)
      → by_decision s d v db ≡ ok db'
      → IsFresh (some v)
      → IsFilled db
      → IsFilled db'
  unfolding by_decision
  by_decision-IsFilled fencing_stale v db db' h fresh k = let e : db' ≡ db = ground arith in rw e k
  by_decision-IsFilled fencing_accept v db db' h fresh k =
      dispatch-IsFilled v.kind v db db' h fresh k

  module _ (redis : Redis) (tokens : redis.State) where
    handle_envelope-IsFilled :
        (v : Incoming) (db db' : Db)
        → handle_envelope s redis tokens v db ≡ ok db'
        → IsFresh (some v)
        → IsFilled db
        → IsFilled db'
    unfolding handle_envelope
    handle_envelope-IsFilled v db db' h fresh k =
        let (x, ex, hx) = >>=-eq-ok (send s read_token) _ h in
        by_decision-IsFilled
          (fencing_decision redis (fencing_key v.partition_id) v.fencing_token tokens) v db db' hx
          fresh k

    acknowledge_entry-IsFilled :
        (db : Db) (x : Result Db)
        → ((db' : Db) → x ≡ ok db' → IsFilled db')
        → IsFilled db
        → IsFilled (acknowledge_entry s redis tokens db x).1
    unfolding acknowledge_entry
    acknowledge_entry-IsFilled db (err e) next k = k
    acknowledge_entry-IsFilled db (ok db') next k = elim (Bool-cases (s.refuses acknowledge)) [
      | inl e ↦ rw e (next db' refl)
      | inr e ↦ rw e (next db' refl)
    ]

    -- An entry's processing, whatever comes of it.
    pub process_event-IsFilled :
        (v : Option Incoming) (db : Db)
        → IsFresh v
        → IsFilled db
        → IsFilled (process_event s redis tokens v db).1
    unfolding process_event
    process_event-IsFilled none db fresh k = k
    process_event-IsFilled (some v) db fresh k =
        acknowledge_entry-IsFilled db (handle_envelope s redis tokens v db)
          (λ db' h. handle_envelope-IsFilled v db db' h fresh k) k
