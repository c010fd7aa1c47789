-- ===== src/Examples/Life.antt =====
-- Concrete engines: orders that are placed twice, canceled, lost or replayed, and a journal.
use golang_predix.Common.{
  ℕ, ◌≡◌, ◌≢◌, ◌⊎◌, inl, inr, refl, true, false, Option, none, some, List, [], ◌∷◌, ◌++◌, Text,
  codes, arith,
}
use golang_predix.Common.Int.{pos}
use golang_predix.Engine.Types.{buy, sell, canceled, Store, Order, registered, update, empty_book}
use golang_predix.Engine.Matching.{is_filled, is_canceled, is_rejected}
use golang_predix.Engine.Orders.{
  order_not_cancelable, failed, not_streamed, order_exists, admit, CreateRequest,
}
use golang_predix.Engine.Events.{
  Engine, World, Link, EmitError, append_failed, add_failed, emit_event, order_created,
  order_canceled, trade_executed, cancel_data, order_data, next_sequence,
}
use golang_predix.Engine.Outbox.{recover}
use golang_predix.Engine.Outbox.Journal.{
  broadcasts, envelope_of, recover_republishes, emit_event_is_durable, journal_is_dropped,
}
use golang_predix.Engine.Handlers.{
  cancel_checked, create_order_core, create_event, user_created, admit_and_announce, set_store,
}
use golang_predix.Engine.Handlers.Cancel.{cancel_checked_twice}
use golang_predix.Engine.Handlers.Resubmit.{create_order_again}
use golang_predix.Engine.Handlers.Announce.{reserved_store, failed_announcement}
use golang_predix.Engine.Commands.{Command, process_entries, replay_command_log}
use golang_predix.Engine.Commands.Rebuild.{IsUp}
use golang_predix.Engine.Commands.Restart.{Logged, live_log, replay_log, replay_rebuilds}
use golang_predix.Engine.Undated.{undated_store}
use golang_predix.Engine.Orders.{is_empty}
use golang_predix.Engine.Commands.Silence.{Silent}
use golang_predix.Engine.Commands.Replay.{replay_is_Silent}
use golang_predix.Samples.{
  offer, fresh_store, fresh_engine, healthy, world, add_user, add_event, request, place,
}

-- An event, a user with cash, and an open order.
abbrev open_store : Store
open_store = record fresh_store {
  markets =
      (
        codes "e",
        record { yes_book = record { bids = codes "b1" ∷ []; asks = [] }; no_book = empty_book },
      )
      ∷ [];
  heap = λ r. offer "b1" "omar" buy 3 5000;
  orders = codes "b1" ∷ [];
  balances = (codes "omar", record { available = pos 50000; reserved = pos 15000 }) ∷ [];
}

cancel_checked_twice_example :
    let t = (cancel_checked (codes "b1") (codes "e") open_store).1 in
    (registered (codes "b1") open_store.orders ≡ true)
    × (is_filled (open_store.heap (codes "b1")).status ≡ false)
    × (is_canceled (open_store.heap (codes "b1")).status ≡ false)
    × (is_rejected (open_store.heap (codes "b1")).status ≡ false)
    × ((t.heap (codes "b1")).status ≡ canceled)
    × (cancel_checked (codes "b1") (codes "e") t ≡ (some order_not_cancelable, t))
unfolding cancel_checked registered golang_predix.Common.Text-discrete
    golang_predix.Engine.Orders.is_empty is_filled is_canceled is_rejected
    golang_predix.Common.Dict.lookup
cancel_checked_twice_example =
    cancel_checked_twice (codes "b1") (codes "e") open_store
      (cancel_checked (codes "b1") (codes "e") open_store).1 refl

abbrev open_engine : Engine
open_engine = record fresh_engine { store = open_store }

abbrev wish : CreateRequest
wish = request (codes "b2") (codes "omar") buy 2 4000

create_order_again_example :
    let f = (create_order_core world 0 (some wish) open_engine).1 in
    create_order_core world 1 (some wish) f
    ≡ (order_exists (codes "b2") (f.store.heap (codes "b2")).status, f)
unfolding golang_predix.Engine.Orders.is_empty create_order_core
    golang_predix.Engine.Orders.validate_order golang_predix.Engine.Orders.new_order
    golang_predix.Engine.Orders.check_side golang_predix.Engine.Orders.check_outcome
    golang_predix.Engine.Orders.check_price admit_and_announce admit registered
    golang_predix.Common.Text-discrete golang_predix.Common.Dict.contains
    golang_predix.Common.Dict.lookup golang_predix.Engine.Orders.register
    golang_predix.Engine.Ledger.reserve_order golang_predix.Engine.Types.is_buy update
    golang_predix.Engine.Ledger.reserve_funds golang_predix.Common.Dict.value_or
    golang_predix.Engine.Ledger.buy_cost golang_predix.Engine.Types.is_market
    golang_predix.Common.Int64.mul64 emit_event set_store golang_predix.Engine.Events.emit_cycle
    golang_predix.Engine.Events.append_outbox golang_predix.Engine.Events.fan_out
    golang_predix.Engine.Events.reset_outbox golang_predix.Engine.Events.set_sequence next_sequence
    golang_predix.Engine.Handlers.announce golang_predix.Engine.Handlers.placed
create_order_again_example = create_order_again world world 0 1 wish open_engine refl refl

-- A world in which the stream takes nothing.
abbrev broken : World
broken = record world { link = λ p n. record healthy { add_ok = false } }

abbrev lost_order : Order
lost_order = offer "b3" "omar" buy 1 6000

failed_announcement_example :
    ((admit_and_announce broken 0 lost_order open_engine).0 ≡ failed not_streamed)
    × ((admit_and_announce broken 0 lost_order open_engine).1.store.balances
        ≡ (reserved_store lost_order open_store).balances)
    × ((admit_and_announce broken 0 lost_order open_engine).1.store.positions
        ≡ (reserved_store lost_order open_store).positions)
    × (registered (codes "b3") (admit_and_announce broken 0 lost_order open_engine).1.store.orders
        ≡ false)
unfolding admit registered golang_predix.Common.Text-discrete golang_predix.Common.Dict.contains
    golang_predix.Common.Dict.lookup golang_predix.Engine.Orders.register
    golang_predix.Engine.Ledger.reserve_order golang_predix.Engine.Types.is_buy update
    golang_predix.Engine.Ledger.reserve_funds golang_predix.Common.Dict.value_or
    golang_predix.Engine.Ledger.buy_cost golang_predix.Engine.Types.is_market
    golang_predix.Common.Int64.mul64 emit_event set_store golang_predix.Engine.Events.emit_cycle
    golang_predix.Engine.Events.append_outbox golang_predix.Engine.Events.fan_out
    golang_predix.Engine.Events.reset_outbox golang_predix.Engine.Events.set_sequence next_sequence
failed_announcement_example =
    failed_announcement broken 0 lost_order open_engine add_failed refl refl

abbrev log : List (World × Option Command)
log =
    (world, some (add_user (codes "ana")))
    ∷ (world, some (add_event (codes "e")))
    ∷ (world, none)
    ∷ (world, some (place (request (codes "o1") (codes "ana") buy 3 4000)))
    ∷ []

replay_is_Silent_example : Silent fresh_engine (replay_command_log 0 (some log) fresh_engine)
replay_is_Silent_example = replay_is_Silent 0 (some log) fresh_engine

emit_event_is_durable_example :
    let v = envelope_of broken 0 order_canceled (cancel_data (codes "b1")) open_engine in
    let (err, f) =
      emit_event broken 0 order_canceled (cancel_data (codes "b1")) false open_engine in
    ((err ≡ none) × (f.stream ≡ open_engine.stream ++ v ∷ []))
    ⊎ ((err ≢ none) × (f.outbox ≡ open_engine.outbox ++ v ∷ []))
emit_event_is_durable_example =
    emit_event_is_durable broken 0 order_canceled (cancel_data (codes "b1")) false open_engine refl
      refl refl refl refl

journal_is_dropped_example :
    let f = (emit_event broken 0 order_canceled (cancel_data (codes "b1")) false open_engine).1 in
    let g = (emit_event world 0 order_canceled (cancel_data (codes "b4")) false f).1 in
    (f.outbox
      ≡ open_engine.outbox
        ++ envelope_of broken 0 order_canceled (cancel_data (codes "b1")) open_engine ∷ [])
    × (g.outbox ≡ [])
    × (g.stream
        ≡ open_engine.stream
          ++ envelope_of world 0 order_canceled (cancel_data (codes "b4")) f ∷ [])
unfolding emit_event golang_predix.Engine.Events.emit_cycle golang_predix.Engine.Events.set_sequence
    golang_predix.Engine.Events.append_outbox golang_predix.Engine.Events.fan_out
journal_is_dropped_example =
    journal_is_dropped broken world 0 order_canceled order_canceled (cancel_data (codes "b1"))
      (cancel_data (codes "b4")) open_engine refl refl refl refl refl refl

-- An engine with one line in its journal.
abbrev left_over : Engine
left_over = record open_engine {
  outbox = envelope_of world 0 trade_executed (cancel_data (codes "b1")) open_engine ∷ [];
}

recover_republishes_example :
    let (err, f) = recover true (λ j. healthy) true left_over in
    ((err ≡ none)
      × (f.outbox ≡ [])
      × (f.stream ≡ left_over.stream ++ left_over.outbox)
      × (f.channel ≡ left_over.channel ++ broadcasts left_over.outbox))
    ⊎ ((err ≢ none) × (f.outbox ≡ left_over.outbox))
recover_republishes_example = recover_republishes true true (λ j. healthy) left_over (λ j. refl)

world-IsUp : IsUp 0 world
world-IsUp = record { encodes = λ n. refl; journals = λ n. refl; adds = λ n. refl }

-- The restart: a later clock, other uuids, and nothing that takes what is emitted.
abbrev later : World
later = record world {
  now = 99;
  trade_uuid = λ n. codes "later";
  order_uuid = codes "p";
  link = λ p n. record {
    marshal_ok = true;
    append_ok = false;
    add_ok = false;
    publish_ok = false;
    reset_ok = false;
  };
}

abbrev logged : List Logged
logged =
    (world, later, some (add_user (codes "ana")))
    ∷ (world, later, some (add_event (codes "e")))
    ∷ (world, later, none)
    ∷ (world, later, some (place (request (codes "o1") (codes "ana") buy 3 4000)))
    ∷ []

replay_rebuilds_example :
    undated_store (process_entries 0 (λ i. i ∷ []) 0 (live_log logged) fresh_engine).store
    ≡ undated_store (replay_command_log 0 (some (replay_log logged)) fresh_engine).store
unfolding is_empty
replay_rebuilds_example =
    replay_rebuilds 0 (λ i. i ∷ []) logged fresh_engine fresh_engine
      (world-IsUp, (world-IsUp, (world-IsUp, (world-IsUp, tt)))) (tt, (tt, (tt, (refl, tt)))) refl
      refl
