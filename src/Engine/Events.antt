-- ===== src/Engine/Events.antt =====
-- internal/events/events.go, internal/engine/outbox.go and `emitEventP` of internal/engine/engine.go:
-- how the engine tells the rest of the system what happened.
--
-- Redis and the file system are not part of the program: whether they accept a write is what
-- `Link` says, for each partition and sequence number. `stream` is what this engine has added to
-- the durable event stream, `channel` what it has published to the WebSocket channel, `outbox` the
-- lines of the journal on disk.
use golang_predix.Common.{
  ℕ, ◌+◌, ◌%◌, ◌^◌, Bool, true, false, Option, none, some, List, [], ◌∷◌, ◌++◌, ite, Text,
  if◌then◌else◌, ℕ_discrete,
}
use golang_predix.Engine.Types.{Order, Trade, Store}

pub data EventType : Type 0 where
  trade_executed order_created order_status order_canceled depth_updated : EventType

-- `events.EventTradeExecuted == t`
unfoldable pub is_trade_executed : EventType → Bool
is_trade_executed trade_executed = true
is_trade_executed _ = false

-- What the engine marshals into `Data`.
pub data EventData : Type 0 where
  trade_data : Trade → EventData
  order_data : Order → EventData
  cancel_data : Text → EventData

pub record Envelope : Type 0 where
  pub id : Text
  pub kind : EventType
  pub partition_id : ℕ
  pub fencing_token : ℕ
  pub sequence : ℕ
  pub created_at : ℕ
  pub payload : EventData

pub record Metrics : Type 0 where
  pub orders_processed : ℕ
  pub orders_accepted : ℕ
  pub orders_rejected : ℕ
  pub orders_canceled : ℕ
  pub orders_filled : ℕ
  pub trades_executed : ℕ

-- `Engine`: the guarded store, and what emission reads and writes. A missing fencing token reads
-- as 0.
pub record Engine : Type 0 where
  pub store : Store
  pub replaying : ℕ → Bool
  pub partition_token : ℕ → Option ℕ
  pub partition_seq : ℕ → ℕ
  pub has_redis : Bool
  pub has_outbox : Bool
  pub outbox : List Envelope
  pub stream : List Envelope
  pub channel : List Envelope
  pub metrics : Metrics

-- What the outside does with one emission.
pub record Link : Type 0 where
  pub marshal_ok : Bool
  pub append_ok : Bool
  pub add_ok : Bool
  pub publish_ok : Bool
  pub reset_ok : Bool

-- Clock, uuids (of the n-th trade of a call, of an order without an id, of an envelope) and links.
pub record World : Type 0 where
  pub now : ℕ
  pub trade_uuid : ℕ → Text
  pub order_uuid : Text
  pub envelope_uuid : ℕ → ℕ → Text
  pub link : ℕ → ℕ → Link

pub data EmitError : Type 0 where
  marshal_failed append_failed add_failed publish_failed : EmitError

unfoldable pub token_of : Option ℕ → ℕ
token_of none = 0
token_of (some t) = t

-- `NewEnvelope`
unfoldable pub new_envelope : World → EventType → EventData → ℕ → ℕ → ℕ → Envelope
new_envelope w kind payload partition token sequence = record {
  id = w.envelope_uuid partition sequence;
  kind = kind;
  partition_id = partition;
  fencing_token = token;
  sequence = sequence;
  created_at = w.now;
  payload = payload;
}

-- `e.partitionSeq[partitionID].Add(1)` on a uint64.
unfoldable pub next_sequence : ℕ → Engine → ℕ
next_sequence partition e = (e.partition_seq partition + 1) % 2 ^ 64

unfoldable pub set_sequence : ℕ → ℕ → Engine → Engine
set_sequence partition n e = record e {
  partition_seq = λ p. ite (ℕ_discrete p partition) n (e.partition_seq p);
}

-- `Outbox.Append`, `Outbox.Reset`
unfoldable pub append_outbox : Envelope → Engine → Engine
append_outbox v e = if e.has_outbox then record e { outbox = e.outbox ++ v ∷ [] } else e

unfoldable pub reset_outbox : Bool → Engine → Engine
reset_outbox ok e = if e.has_outbox then (if ok then record e { outbox = [] } else e) else e

-- The part of the emit cycle behind the write to the stream.
unfoldable pub fan_out : Link → Bool → Envelope → Engine → Option EmitError × Engine
fan_out l broadcast v e =
    if broadcast
    then (if l.publish_ok
        then (none, reset_outbox l.reset_ok (record e { channel = e.channel ++ v ∷ [] }))
        else (some publish_failed, e))
    else (none, reset_outbox l.reset_ok e)

-- The emit cycle: journal, stream, channel, reset. The first failure ends it.
unfoldable pub emit_cycle : Link → Bool → Envelope → Engine → Option EmitError × Engine
emit_cycle l broadcast v e =
    let journaled = append_outbox v e in
    let added = record journaled { stream = journaled.stream ++ v ∷ [] } in
    if l.marshal_ok
    then (if e.has_outbox
        then (if l.append_ok
            then (if l.add_ok then fan_out l broadcast v added else (some add_failed, journaled))
            else (some append_failed, e))
        else (if l.add_ok then fan_out l broadcast v added else (some add_failed, e)))
    else (some marshal_failed, e)

-- `emitEventP`
unfoldable pub emit_event :
    World → ℕ → EventType → EventData → Bool → Engine → Option EmitError × Engine
emit_event w partition kind payload broadcast e =
    let n = next_sequence partition e in
    let v = new_envelope w kind payload partition (token_of (e.partition_token partition)) n in
    if e.replaying partition
    then (none, e)
    else if e.has_redis
    then emit_cycle (w.link partition n) broadcast v (set_sequence partition n e)
    else (none, e)
