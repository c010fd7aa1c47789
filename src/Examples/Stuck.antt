-- ===== src/Examples/Stuck.antt =====
-- A concrete order whose id is no uuid, from the request to the worker.
use golang_predix.Common.{
  ℕ, ◌≡◌, refl, true, Option, none, some, List, [], ◌∷◌, ◌++◌, Text, codes, Text-discrete,
}
use golang_predix.Common.Int.{ℤ, pos}
use golang_predix.Engine.Types.{buy, outcome_yes, limit, empty_book}
use golang_predix.Engine.Events.{Envelope, Engine}
use golang_predix.Engine.Orders.{CreateRequest, new_order, is_empty}
use golang_predix.Engine.Handlers.{create_order_core, create_order}
use golang_predix.Engine.Handlers.Resubmit.{is_placed}
use golang_predix.Engine.Handlers.Stream.{announcement}
use golang_predix.Partition.Redis.{simple_redis, empty_keys}
use golang_predix.Partition.Router.{fencing_key}
use golang_predix.Partition.Fencing.{fencing_accept, fencing_decision}
use golang_predix.Database.Worker.{received, Delivery, run_worker}
use golang_predix.Api.Answers.{bad_request_400, invalid_order_id, deny, pass}
use golang_predix.Api.Orders.{OrderBody, check_order, delete_order}
use golang_predix.Api.Stuck.{unreadable_id_stops_worker}
use golang_predix.Samples.{fresh_store, fresh_engine, world}
use golang_predix.Examples.Tables.{willing, tables}
use golang_predix.Examples.Requests.{read_uuid, web, cents, site, wanted}

abbrev odd : OrderBody ℤ
odd = record wanted { order_id = codes "!1"; price = pos 1 }

abbrev asked : CreateRequest
asked = record {
  order_id = codes "!1";
  event_id = codes "e";
  user_id = codes "ana";
  order_type = limit;
  outcome = outcome_yes;
  side = buy;
  quantity = pos 3;
  price = pos 10000;
}

abbrev ready : Engine
ready = record fresh_engine {
  store = record fresh_store {
    markets = (codes "e", record { yes_book = empty_book; no_book = empty_book }) ∷ [];
    balances = (codes "ana", record { available = pos 1000000; reserved = pos 0 }) ∷ [];
  };
}

abbrev announced : Envelope
announced = announcement world 0 (new_order world asked) ready

abbrev delivery : Delivery simple_redis
delivery = record {
  server = record willing { parse_uuid = read_uuid };
  tokens = empty_keys;
  event = some (received announced);
}

asked_passes : check_order cents web (some (codes "ana")) (some odd) site ≡ pass asked
unfolding check_order is_empty Text-discrete golang_predix.Api.Orders.binds_order
    golang_predix.Api.Orders.request_of golang_predix.Api.Orders.get_event_by_id
    golang_predix.Api.Tables.find_event golang_predix.Api.Tables.is_true
    golang_predix.Engine.Types.is_limit golang_predix.Common.Int.◌*ℤ◌ golang_predix.Common.Int.◌+ℤ◌
asked_passes = refl

asked_is_placed : is_placed (create_order_core world 0 (some asked) ready).0 ≡ true
unfolding golang_predix.Engine.Types.is_buy golang_predix.Engine.Types.is_market
    golang_predix.Engine.Types.is_limit golang_predix.Engine.Types.update
    golang_predix.Engine.Types.new_market golang_predix.Engine.Types.book_of
    golang_predix.Engine.Types.set_book golang_predix.Engine.Types.registered
    golang_predix.Engine.Ledger.put_balance golang_predix.Engine.Ledger.put_locked
    golang_predix.Engine.Ledger.freeze golang_predix.Engine.Ledger.create_user
    golang_predix.Engine.Ledger.buy_cost golang_predix.Engine.Ledger.reserve_funds
    golang_predix.Engine.Ledger.reserve_order golang_predix.Engine.Ledger.settle_trades
    golang_predix.Engine.Matching.is_filled golang_predix.Engine.Matching.is_canceled
    golang_predix.Engine.Matching.is_rejected golang_predix.Engine.Matching.find_counterparty
    golang_predix.Engine.Matching.remove_invalid golang_predix.Engine.Matching.trade_with
    golang_predix.Engine.Matching.round golang_predix.Engine.Matching.resume
    golang_predix.Engine.Matching.match_loop golang_predix.Engine.Matching.opposing
    golang_predix.Engine.Matching.set_opposing golang_predix.Engine.Matching.match_against_book
    golang_predix.Engine.Book.insert_stable golang_predix.Engine.Book.insert_all
    golang_predix.Engine.Book.sort_stable golang_predix.Engine.Book.add_to_book
    golang_predix.Engine.Events.token_of golang_predix.Engine.Events.new_envelope
    golang_predix.Engine.Events.next_sequence golang_predix.Engine.Events.set_sequence
    golang_predix.Engine.Events.append_outbox golang_predix.Engine.Events.reset_outbox
    golang_predix.Engine.Events.fan_out golang_predix.Engine.Events.emit_cycle
    golang_predix.Engine.Events.emit_event golang_predix.Engine.Orders.is_success
    golang_predix.Engine.Orders.is_empty golang_predix.Engine.Orders.check_side
    golang_predix.Engine.Orders.check_outcome golang_predix.Engine.Orders.check_price
    golang_predix.Engine.Orders.validate_order golang_predix.Engine.Orders.new_order
    golang_predix.Engine.Orders.register golang_predix.Engine.Orders.admit
    golang_predix.Engine.Orders.set_status golang_predix.Engine.Orders.outcome_of_match
    golang_predix.Engine.Orders.book_after golang_predix.Engine.Orders.matched
    golang_predix.Engine.Orders.release_if_done golang_predix.Engine.Orders.match_in
    golang_predix.Engine.Orders.match_in_market golang_predix.Engine.Orders.match_order
    golang_predix.Engine.Handlers.set_store golang_predix.Engine.Handlers.env_of
    golang_predix.Engine.Handlers.create_event golang_predix.Engine.Handlers.user_created
    golang_predix.Engine.Handlers.count_filled golang_predix.Engine.Handlers.publish_trades
    golang_predix.Engine.Handlers.match_and_report golang_predix.Engine.Handlers.placed
    golang_predix.Engine.Handlers.announce golang_predix.Engine.Handlers.admit_and_announce
    golang_predix.Engine.Handlers.create_order_core golang_predix.Engine.Handlers.count_answer
    golang_predix.Engine.Handlers.create_order golang_predix.Engine.Commands.replied
    golang_predix.Engine.Commands.handle_message golang_predix.Engine.Commands.process_entry
    golang_predix.Engine.Commands.process_entries golang_predix.Common.Dict.lookup
    golang_predix.Common.Dict.contains golang_predix.Common.Dict.insert
    golang_predix.Common.Dict.value_or golang_predix.Common.Int64.wrap64
    golang_predix.Common.Int64.add64 golang_predix.Common.Int64.sub64
    golang_predix.Common.Int64.mul64 golang_predix.Common.Text-discrete
    golang_predix.Common.ℕ_discrete golang_predix.Engine.Commands.replay_entries
    golang_predix.Engine.Commands.set_replaying golang_predix.Engine.Commands.apply_command
asked_is_placed = refl

announced_is_current :
    fencing_decision simple_redis
      (fencing_key (received announced).partition_id)
      (received announced).fencing_token
      empty_keys
    ≡ fencing_accept
unfolding fencing_decision golang_predix.Partition.Fencing.fencing_decision_for_token
    golang_predix.Partition.Fencing.current received announcement
    golang_predix.Engine.Events.new_envelope golang_predix.Engine.Events.token_of
announced_is_current = refl

unreadable_id_stops_worker_example :
    (asked.order_id ≡ codes "!1")
    × ((rest : List Envelope) × ((create_order world 0 (some asked) ready).1.stream
          ≡ ready.stream ++ announced ∷ rest))
    × (run_worker simple_redis (delivery ∷ delivery ∷ []) tables
        ≡ (delivery ∷ delivery ∷ [], tables))
    × (delete_order web (some (codes "ana")) (codes "!1") site
        ≡ (some (deny bad_request_400 invalid_order_id), site))
unfolding is_empty
unreadable_id_stops_worker_example =
    unreadable_id_stops_worker cents web (codes "ana") odd site asked world 0 ready simple_redis
      delivery (delivery ∷ []) tables asked_passes refl refl refl refl refl asked_is_placed refl
      announced_is_current
