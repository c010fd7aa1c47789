-- ===== src/Database/Worker.antt =====
-- internal/dbworker/worker.go: from an entry of the event stream to the tables.
--
-- The payload of an envelope is what `json.Unmarshal` makes of it for each of the three structs;
-- `received` gives that for an envelope that the engine emitted.
pub mod Once
pub mod Sums
pub mod Money
pub mod Says
pub mod Fills
pub mod Keeps
pub mod Run
pub mod Reads
pub mod Accept
pub mod Announced
pub mod EndToEnd
use golang_predix.Common.{
  ℕ, Bool, true, false, Option, none, some, List, [], ◌∷◌, Text, if◌then◌else◌,
}
use golang_predix.Engine.Types.{canceled, Order, Trade}
use golang_predix.Engine.Events.{
  EventType, trade_executed, order_created, order_status, order_canceled, depth_updated, EventData,
  trade_data, order_data, cancel_data, Envelope,
}
use golang_predix.Partition.Redis.{Redis}
use golang_predix.Partition.Router.{fencing_key}
use golang_predix.Partition.Fencing.{
  FencingDecision, fencing_accept, fencing_stale, fencing_decision,
}
use golang_predix.Database.Result.{
  Statement, insert_order_row, set_order_status, read_token, acknowledge, WorkerError, bad_envelope,
  bad_payload, refused, Result, ok, err, ◌>>=◌, ◌>>◌, refuse_if,
}
use golang_predix.Database.Rows.{OrderRow, Db, Server}
use golang_predix.Database.Queries.{insert_order, update_order_status}
use golang_predix.Database.Settlement.{send, parse, validate_trade, settle_in_tables}

pub record Incoming : Type 0 where
  pub kind : EventType
  pub partition_id : ℕ
  pub fencing_token : ℕ
  pub as_trade : Option Trade
  pub as_order : Option Order
  pub as_cancel : Option Text

-- The decoding of an envelope of the engine, whose payload fits its kind.
unfoldable pub received : Envelope → Incoming
received v = record {
  kind = v.kind;
  partition_id = v.partition_id;
  fencing_token = v.fencing_token;
  as_trade = elim v.payload [ trade_data t ↦ some t | _ ↦ none ];
  as_order = elim v.payload [ order_data o ↦ some o | _ ↦ none ];
  as_cancel = elim v.payload [ cancel_data r ↦ some r | _ ↦ none ];
}

abbrev pub decode : {A : Type 0} → Option A → Result A
decode none = err bad_payload
decode (some a) = ok a

unfoldable pub order_row : Text → Text → Order → OrderRow
order_row event user o = record {
  event_id = event;
  user_id = user;
  order_type = o.order_type;
  outcome = o.outcome;
  side = o.side;
  quantity = o.quantity;
  price = o.price;
  status = o.status;
  filled_quantity = o.filled_quantity;
  remaining_quantity = o.remaining_quantity;
}

-- A violation of the primary key is no error.
unfoldable pub or_same : Db → Option Db → Db
or_same db none = db
or_same db (some db') = db'

module _ (s : Server) where
  -- `handleTradeExecuted`
  unfoldable pub handle_trade_executed : Option Trade → Db → Result Db
  handle_trade_executed payload db = do
    t ← decode payload
    validate_trade t
    settle_in_tables s t db

  -- `handleOrderCreated`
  unfoldable pub handle_order_created : Option Order → Db → Result Db
  unfolding parse or_same
  handle_order_created payload db = do
    o ← decode payload
    id ← parse s o.id
    event ← parse s o.event_id
    user ← parse s o.user_id
    send s insert_order_row
    ok (or_same db (insert_order id (order_row event user o) db))

  -- `handleOrderCanceled`
  unfoldable pub handle_order_canceled : Option Text → Db → Result Db
  unfolding parse
  handle_order_canceled payload db = do
    r ← decode payload
    id ← parse s r
    send s set_order_status
    ok (update_order_status id canceled db)

  -- The dispatch of `handleEnvelope`.
  unfoldable pub dispatch : EventType → Incoming → Db → Result Db
  dispatch trade_executed v db = handle_trade_executed v.as_trade db
  dispatch order_created v db = handle_order_created v.as_order db
  dispatch order_canceled v db = handle_order_canceled v.as_cancel db
  dispatch order_status v db = ok db
  dispatch depth_updated v db = ok db

  unfoldable pub by_decision : FencingDecision → Incoming → Db → Result Db
  by_decision fencing_stale v db = ok db
  by_decision fencing_accept v db = dispatch v.kind v db

  module _ (redis : Redis) (tokens : redis.State) where
    -- `handleEnvelope`
    unfoldable pub handle_envelope : Incoming → Db → Result Db
    unfolding by_decision
    handle_envelope v db = do
      send s read_token
      by_decision (fencing_decision redis (fencing_key v.partition_id) v.fencing_token tokens) v db

    -- The end of `processStreamEntry`: the entry is acknowledged once it is applied.
    unfoldable pub acknowledge_entry : Db → Result Db → Option WorkerError × Db
    acknowledge_entry db (err e) = (some e, db)
    acknowledge_entry db (ok db') =
        if s.refuses acknowledge then (some (refused acknowledge), db') else (none, db')

    -- `processStreamEntry`; `none` is an entry without a readable envelope.
    unfoldable pub process_event : Option Incoming → Db → Option WorkerError × Db
    process_event none db = (some bad_envelope, db)
    process_event (some v) db = acknowledge_entry db (handle_envelope v db)

-- An entry of the stream with what the outside does while it is processed.
pub record Delivery (redis : Redis) : Type 1 where
  pub server : Server
  pub tokens : redis.State
  pub event : Option Incoming

module _ (redis : Redis) where
  -- `Run` on the entries that it is given, the claimed ones first: the first error ends it, and that
  -- entry and those behind it stay pending.
  unfoldable pub run_worker : List (Delivery redis) → Db → List (Delivery redis) × Db
  run_worker [] db = ([], db)
  run_worker (d ∷ ds) db =
      let (failed, db') = process_event d.server redis d.tokens d.event db in
      let rest = run_worker ds db' in elim failed [ some e ↦ (d ∷ ds, db') | none ↦ rest ]
