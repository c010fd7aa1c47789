-- ===== src/Websocket/Subscriber.antt =====
-- internal/websocket/redis.go: what the subscriber broadcasts for an event.
pub mod Reach
use golang_predix.Common.{Option, none, some, List, [], ◌∷◌, Text, if◌then◌else◌}
use golang_predix.Engine.Types.{Trade, is_buy}
use golang_predix.Engine.Events.{EventType, trade_executed, depth_updated, trade_data, Envelope}
use golang_predix.Websocket.Client.{trade_message, depth_message, TradeData, DepthData}
use golang_predix.Websocket.Hub.{Hub, broadcast_event}

-- An envelope, with its `Data` as the two handlers unmarshal it.
pub record Update : Type 0 where
  pub kind : EventType
  pub as_trade : Option Trade
  pub as_depth : Option (Text × DepthData)

-- The user who placed the taker order. The engine writes sides in capital letters.
unfoldable pub actor : Trade → Text
actor t = if is_buy t.taker_side then t.buyer_id else t.seller_id

-- The message of a trade; its time stands for the milliseconds that the source writes.
unfoldable pub trade_summary : Trade → TradeData
trade_summary t = record {
  price = t.price;
  quantity = t.quantity;
  timestamp = t.created_at;
  event_id = t.event_id;
  user_id = actor t;
  outcome = t.outcome;
  side = t.taker_side;
}

-- `handleTrade`; what cannot be unmarshalled is logged.
unfoldable pub handle_trade : Option Trade → Hub → Option Hub
handle_trade none h = some h
handle_trade (some t) h = broadcast_event t.event_id (trade_message (trade_summary t)) h

-- `handleDepth`
unfoldable pub handle_depth : Option (Text × DepthData) → Hub → Option Hub
handle_depth none h = some h
handle_depth (some (event, d)) h = broadcast_event event (depth_message d) h

-- `handle`; `none` is a payload that is no envelope.
unfoldable pub handle : Option Update → Hub → Option Hub
handle none h = some h
handle (some u) h = elim u.kind [
  | trade_executed ↦ handle_trade u.as_trade h
  | depth_updated ↦ handle_depth u.as_depth h
  | _ ↦ some h
]

-- What the loop of `Run` selects next: a message, that the channel is closed, or that the context is done.
pub data Selected : Type 0 where
  payload : Option Update → Selected
  channel_closed context_done : Selected

-- `Run`, on what it selects; `none` is a panic.
unfoldable pub run_subscriber : List Selected → Hub → Option Hub
run_subscriber [] h = some h
run_subscriber (channel_closed ∷ ss) h = some h
run_subscriber (context_done ∷ ss) h = some h
run_subscriber (payload u ∷ ss) h = elim (handle u h) [ none ↦ none | some i ↦ run_subscriber ss i ]

-- The decoding of an envelope of the engine, which publishes no depths.
unfoldable pub heard : Envelope → Selected
heard v = payload (
    some (record {
      kind = v.kind;
      as_trade = elim v.payload [ trade_data t ↦ some t | _ ↦ none ];
      as_depth = none;
    }))
