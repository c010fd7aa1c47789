-- ===== src/Samples.antt =====
-- Concrete engines, orders and worlds for the examples.
use Prim.Native.String.{String}
use golang_predix.Common.{ℕ, true, false, none, some, List, [], ◌∷◌, Text, codes}
use golang_predix.Common.Int.{pos}
use golang_predix.Engine.Types.{Side, buy, outcome_yes, limit, pending, Order, Store}
use golang_predix.Engine.Events.{Engine, World, Link}
use golang_predix.Engine.Orders.{CreateRequest}
use golang_predix.Engine.Commands.{
  Command, Payload, user_created_command, create_event_command, create_order_command, apply_command,
}

abbrev pub blank : Order
blank = record {
  id = [];
  event_id = [];
  user_id = [];
  order_type = limit;
  outcome = outcome_yes;
  side = buy;
  quantity = pos 0;
  filled_quantity = pos 0;
  remaining_quantity = pos 0;
  price = pos 0;
  status = pending;
  locked_funds = pos 0;
  created_at = 0;
}

abbrev pub fresh_store : Store
fresh_store = record { markets = []; heap = λ r. blank; orders = []; balances = []; positions = [] }

abbrev pub fresh_engine : Engine
fresh_engine = record {
  store = fresh_store;
  replaying = λ p. false;
  partition_token = λ p. some 7;
  partition_seq = λ p. 0;
  has_redis = true;
  has_outbox = true;
  outbox = [];
  stream = [];
  channel = [];
  metrics = record {
    orders_processed = 0;
    orders_accepted = 0;
    orders_rejected = 0;
    orders_canceled = 0;
    orders_filled = 0;
    trades_executed = 0;
  };
}

abbrev pub healthy : Link
healthy = record {
  marshal_ok = true;
  append_ok = true;
  add_ok = true;
  publish_ok = true;
  reset_ok = true;
}

abbrev pub world : World
world = record {
  now = 5;
  trade_uuid = λ n. n ∷ [];
  order_uuid = codes "o";
  envelope_uuid = λ p n. p ∷ n ∷ [];
  link = λ p n. healthy;
}

abbrev pub no_payload : Payload
no_payload = record {
  as_create = none;
  as_cancel = none;
  as_event = none;
  as_user = none;
  as_open = none;
}

abbrev pub add_user : Text → Command
add_user u = record {
  kind = user_created_command;
  payload = record no_payload { as_user = some u };
}

abbrev pub add_event : Text → Command
add_event v = record {
  kind = create_event_command;
  payload = record no_payload { as_event = some v };
}

abbrev pub request : Text → Text → Side → ℕ → ℕ → CreateRequest
request id user side quantity price = record {
  order_id = id;
  event_id = codes "e";
  user_id = user;
  order_type = limit;
  outcome = outcome_yes;
  side = side;
  quantity = pos quantity;
  price = pos price;
}

abbrev pub place : CreateRequest → Command
place q = record { kind = create_order_command; payload = record no_payload { as_create = some q } }

abbrev pub run : List Command → Engine → Engine
run [] e = e
run (c ∷ cs) e = run cs (apply_command world 0 c e)

-- A limit order for the event "e", outcome YES, that nothing has filled.
abbrev pub offer : String → String → Side → ℕ → ℕ → Order
offer id user side quantity price = record {
  id = codes id;
  event_id = codes "e";
  user_id = codes user;
  order_type = limit;
  outcome = outcome_yes;
  side = side;
  quantity = pos quantity;
  filled_quantity = pos 0;
  remaining_quantity = pos quantity;
  price = pos price;
  status = pending;
  locked_funds = pos 0;
  created_at = 1;
}
