-- ===== src/Examples/Deliveries.antt =====
-- A concrete worker that is given orders and trades, and an engine that announces them.
use golang_predix.Common.{
  ℕ, ◌<◌, ◌≡◌, refl, true, false, Option, none, some, List, [], ◌∷◌, ◌++◌, All, Text, Text-discrete,
  codes, arith,
}
use golang_predix.Common.Int.{ℤ, pos}
use golang_predix.Common.Dict.{lookup}
use golang_predix.Engine.Types.{
  buy, sell, outcome_yes, limit, pending, Order, Trade, OrderBook, empty_book,
}
use golang_predix.Engine.Events.{
  trade_executed, order_created, Envelope, order_data, trade_data, Engine, World,
}
use golang_predix.Engine.Commands.{Command, process_entries}
use golang_predix.Engine.Matching.{Env, match_against_book, opposing}
use golang_predix.Engine.Orders.{is_empty}
use golang_predix.Partition.Redis.{simple_redis, empty_keys}
use golang_predix.Database.Result.{ok}
use golang_predix.Database.Rows.{Db}
use golang_predix.Database.Settlement.{validate_trade}
use golang_predix.Database.Worker.{received, order_row, Delivery, run_worker}
use golang_predix.Database.Worker.Says.{IsFilled}
use golang_predix.Database.Worker.Keeps.{IsFresh}
use golang_predix.Database.Worker.Run.{Stops}
use golang_predix.Database.Worker.Reads.{
  GroupAnswer, busy_group, ensure_group, EventRead, batch, canceled_read, failed_read, run, given,
  Agrees, run-Stops, run-IsFilled,
}
use golang_predix.Database.Worker.Accept.{IsPlaced, IsRestable, match_against_book-accepted}
use golang_predix.Database.Worker.EndToEnd.{FromStream, engine_to_tables}
use golang_predix.Samples.{offer, fresh_engine, world, add_user, add_event, request, place}
use golang_predix.Examples.Tables.{willing, tables, bargain}

abbrev envelope_with : Envelope
envelope_with = record {
  id = codes "v";
  kind = order_created;
  partition_id = 0;
  fencing_token = 0;
  sequence = 1;
  created_at = 1;
  payload = order_data (offer "b1" "bea" buy 3 5000);
}

abbrev delivered : Envelope → Delivery simple_redis
delivered v = record { server = willing; tokens = empty_keys; event = some (received v) }

abbrev no_orders : Db
no_orders = record tables { orders = [] }

no_orders-IsFilled : IsFilled no_orders
unfolding lookup
no_orders-IsFilled = record { known = tt; says = λ id row h. absurd (ground arith) }

-- The orders are announced, and the trade is delivered twice. The order of the buyer is left by a worker that crashed, and a read fails in between.
abbrev given_reads : List (EventRead simple_redis)
given_reads =
    failed_read false
    ∷ batch (
        delivered (record envelope_with { payload = order_data (offer "s1" "sal" sell 2 4000) })
        ∷ delivered (record envelope_with { kind = trade_executed; payload = trade_data bargain })
        ∷ [])
    ∷ batch (
        delivered (record envelope_with { kind = trade_executed; payload = trade_data bargain })
        ∷ [])
    ∷ canceled_read
    ∷ []

abbrev claimed_entries : List (Delivery simple_redis)
claimed_entries = delivered envelope_with ∷ []

deliveries-IsFresh :
    All
      (λ d. IsFresh d.event)
      (given simple_redis (ensure_group busy_group) (some claimed_entries) given_reads)
unfolding given ensure_group golang_predix.Database.Worker.Reads.entries_of received order_row
    golang_predix.Database.Queries.greatest_zero golang_predix.Common.Int.◌-ℤ◌
deliveries-IsFresh = (
  record { filled = refl; remaining = refl },
  (record { filled = refl; remaining = refl }, (tt, (tt, tt))),
)

run-IsFilled_example :
    IsFilled (run simple_redis busy_group (some claimed_entries) given_reads no_orders).1
run-IsFilled_example =
    run-IsFilled simple_redis busy_group (some claimed_entries) given_reads no_orders
      deliveries-IsFresh no_orders-IsFilled

run-Stops_example :
    (rest : List (Delivery simple_redis)) × Stops simple_redis
      (given simple_redis (ensure_group busy_group) (some claimed_entries) given_reads)
      rest
      no_orders
      (run simple_redis busy_group (some claimed_entries) given_reads no_orders).1
    × Agrees simple_redis
        (run simple_redis busy_group (some claimed_entries) given_reads no_orders).0
        rest
run-Stops_example = run-Stops simple_redis busy_group (some claimed_entries) given_reads no_orders

abbrev offers : Text → Order
offers r = elim (Text-discrete r (codes "b1")) [
  | yes p ↦ offer "b1" "bea" buy 3 5000
  | no n ↦ offer "s1" "sal" sell 2 4000
]

abbrev one_ask : OrderBook
one_ask = record empty_book { asks = codes "s1" ∷ [] }

abbrev numbering : Env
numbering = record { uuid = λ n. n ∷ []; now = 1 }

b1-IsPlaced : IsPlaced (offers (codes "b1"))
unfolding golang_predix.Engine.Orders.validate_order is_empty Text-discrete
    golang_predix.Engine.Orders.check_side golang_predix.Engine.Orders.check_outcome
    golang_predix.Engine.Orders.check_price
b1-IsPlaced = record { valid = refl; named = refl }

s1-IsRestable : All (λ r. IsRestable (offers r)) (opposing (offers (codes "b1")).side one_ask)
unfolding opposing golang_predix.Engine.Types.is_buy Text-discrete
    golang_predix.Engine.Orders.validate_order is_empty golang_predix.Engine.Orders.check_side
    golang_predix.Engine.Orders.check_outcome golang_predix.Engine.Orders.check_price
s1-IsRestable = (record { valid_order = record { valid = refl; named = refl }; limited = refl }, tt)

uuids : (n : ℕ) → is_empty (numbering.uuid n) ≡ false
unfolding is_empty
uuids n = refl

match_against_book-accepted_example :
    All
      (λ t. validate_trade t ≡ ok tt)
      (match_against_book numbering (codes "b1") offers one_ask).trades
match_against_book-accepted_example =
    match_against_book-accepted numbering (codes "b1") offers one_ask uuids b1-IsPlaced
      s1-IsRestable

abbrev morning : List (World × Option Command)
morning =
    (world, some (add_user (codes "bea")))
    ∷ (world, some (add_event (codes "e")))
    ∷ (world, some (place (request (codes "b1") (codes "bea") buy 3 5000)))
    ∷ []

abbrev busy : Engine
busy = process_entries 0 (λ n. codes "c") 0 morning fresh_engine

abbrev first_of : List Envelope → Envelope
first_of [] = envelope_with
first_of (v ∷ vs) = v

abbrev announced : List (Delivery simple_redis)
announced = delivered (first_of busy.stream) ∷ delivered (first_of busy.stream) ∷ []

announced_from : FromStream busy (some (received (first_of busy.stream)))
unfolding golang_predix.Engine.Types.is_buy golang_predix.Engine.Types.is_market
    golang_predix.Engine.Types.is_limit golang_predix.Engine.Types.update
    golang_predix.Engine.Types.new_market golang_predix.Engine.Types.book_of
    golang_predix.Engine.Types.set_book golang_predix.Engine.Types.registered
    golang_predix.Engine.Ledger.put_balance golang_predix.Engine.Ledger.put_locked
    golang_predix.Engine.Ledger.freeze golang_predix.Engine.Ledger.create_user
    golang_predix.Engine.Ledger.buy_cost golang_predix.Engine.Ledger.reserve_funds
    golang_predix.Engine.Ledger.reserve_order golang_predix.Engine.Ledger.settle_trades
    golang_predix.Engine.Matching.is_filled golang_predix.Engine.Matching.is_canceled
    golang_predix.Engine.Matching.is_rejected golang_predix.Engine.Matching.find_counterparty
    golang_predix.Engine.Matching.remove_invalid golang_predix.Engine.Matching.trade_with
    golang_predix.Engine.Matching.round golang_predix.Engine.Matching.resume
    golang_predix.Engine.Matching.match_loop golang_predix.Engine.Matching.opposing
    golang_predix.Engine.Matching.set_opposing golang_predix.Engine.Matching.match_against_book
    golang_predix.Engine.Book.insert_stable golang_predix.Engine.Book.insert_all
    golang_predix.Engine.Book.sort_stable golang_predix.Engine.Book.add_to_book
    golang_predix.Engine.Events.token_of golang_predix.Engine.Events.new_envelope
    golang_predix.Engine.Events.next_sequence golang_predix.Engine.Events.set_sequence
    golang_predix.Engine.Events.append_outbox golang_predix.Engine.Events.reset_outbox
    golang_predix.Engine.Events.fan_out golang_predix.Engine.Events.emit_cycle
    golang_predix.Engine.Events.emit_event golang_predix.Engine.Orders.is_success
    golang_predix.Engine.Orders.is_empty golang_predix.Engine.Orders.check_side
    golang_predix.Engine.Orders.check_outcome golang_predix.Engine.Orders.check_price
    golang_predix.Engine.Orders.validate_order golang_predix.Engine.Orders.new_order
    golang_predix.Engine.Orders.register golang_predix.Engine.Orders.admit
    golang_predix.Engine.Orders.set_status golang_predix.Engine.Orders.outcome_of_match
    golang_predix.Engine.Orders.book_after golang_predix.Engine.Orders.matched
    golang_predix.Engine.Orders.release_if_done golang_predix.Engine.Orders.match_in
    golang_predix.Engine.Orders.match_in_market golang_predix.Engine.Orders.match_order
    golang_predix.Engine.Handlers.set_store golang_predix.Engine.Handlers.env_of
    golang_predix.Engine.Handlers.create_event golang_predix.Engine.Handlers.user_created
    golang_predix.Engine.Handlers.count_filled golang_predix.Engine.Handlers.publish_trades
    golang_predix.Engine.Handlers.match_and_report golang_predix.Engine.Handlers.placed
    golang_predix.Engine.Handlers.announce golang_predix.Engine.Handlers.admit_and_announce
    golang_predix.Engine.Handlers.create_order_core golang_predix.Engine.Handlers.count_answer
    golang_predix.Engine.Handlers.create_order golang_predix.Engine.Commands.replied
    golang_predix.Engine.Commands.handle_message golang_predix.Engine.Commands.process_entry
    golang_predix.Engine.Commands.process_entries golang_predix.Common.Dict.lookup
    golang_predix.Common.Dict.contains golang_predix.Common.Dict.insert
    golang_predix.Common.Dict.value_or golang_predix.Common.Int64.wrap64
    golang_predix.Common.Int64.add64 golang_predix.Common.Int64.sub64
    golang_predix.Common.Int64.mul64 golang_predix.Common.Text-discrete
    golang_predix.Common.ℕ_discrete
announced_from = ([], [], first_of busy.stream, refl, refl)

engine_to_tables_example : IsFilled (run_worker simple_redis announced no_orders).1
engine_to_tables_example =
    engine_to_tables simple_redis 0 (λ n. codes "c") morning fresh_engine announced no_orders refl
      (announced_from, (announced_from, tt)) no_orders-IsFilled
