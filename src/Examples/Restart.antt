-- ===== src/Examples/Restart.antt =====
-- A concrete engine that replays an order which nothing has consumed, or that places an order with an id that is no uuid.
use golang_predix.Common.{◌≡◌, refl, true, Option, none, some, List, [], ◌∷◌, ◌++◌, Text, codes}
use golang_predix.Engine.Types.{buy, update}
use golang_predix.Engine.Events.{Engine, World}
use golang_predix.Engine.Orders.{CreateRequest, admit}
use golang_predix.Engine.Handlers.{create_order_core, admit_and_announce, set_store}
use golang_predix.Engine.Commands.{
  Command, replay_command_log, replay_entries, set_replaying, process_entries, process_entry,
}
use golang_predix.Engine.Commands.Silence.{Silent}
use golang_predix.Engine.Commands.Swallow.{SameOutput, placing, replay_swallows}
use golang_predix.Samples.{fresh_engine, world, no_payload, add_user, add_event, request}

abbrev wish : CreateRequest
wish = request (codes "o1") (codes "ana") buy 3 4000

abbrev consumed : List (World × Option Command)
consumed = (world, some (add_user (codes "ana"))) ∷ (world, some (add_event (codes "e"))) ∷ []

replay_swallows_example :
    let d = record no_payload { as_create = some wish } in
    let f =
      replay_command_log 0
        (some (consumed ++ (world, some (placing d)) ∷ (world, none) ∷ []))
        fresh_engine in
    let g = process_entries 0 (λ i. i ∷ []) 0 [] f in
    Silent fresh_engine f × SameOutput g (process_entry world 0 (codes "c") (some (placing d)) g).1
unfolding golang_predix.Engine.Types.is_buy golang_predix.Engine.Types.is_market
    golang_predix.Engine.Types.is_limit golang_predix.Engine.Types.update
    golang_predix.Engine.Types.new_market golang_predix.Engine.Types.book_of
    golang_predix.Engine.Types.set_book golang_predix.Engine.Types.registered
    golang_predix.Engine.Ledger.put_balance golang_predix.Engine.Ledger.put_locked
    golang_predix.Engine.Ledger.freeze golang_predix.Engine.Ledger.create_user
    golang_predix.Engine.Ledger.buy_cost golang_predix.Engine.Ledger.reserve_funds
    golang_predix.Engine.Ledger.reserve_order golang_predix.Engine.Ledger.settle_trades
    golang_predix.Engine.Matching.is_filled golang_predix.Engine.Matching.is_canceled
    golang_predix.Engine.Matching.is_rejected golang_predix.Engine.Matching.find_counterparty
    golang_predix.Engine.Matching.remove_invalid golang_predix.Engine.Matching.trade_with
    golang_predix.Engine.Matching.round golang_predix.Engine.Matching.resume
    golang_predix.Engine.Matching.match_loop golang_predix.Engine.Matching.opposing
    golang_predix.Engine.Matching.set_opposing golang_predix.Engine.Matching.match_against_book
    golang_predix.Engine.Book.insert_stable golang_predix.Engine.Book.insert_all
    golang_predix.Engine.Book.sort_stable golang_predix.Engine.Book.add_to_book
    golang_predix.Engine.Events.token_of golang_predix.Engine.Events.new_envelope
    golang_predix.Engine.Events.next_sequence golang_predix.Engine.Events.set_sequence
    golang_predix.Engine.Events.append_outbox golang_predix.Engine.Events.reset_outbox
    golang_predix.Engine.Events.fan_out golang_predix.Engine.Events.emit_cycle
    golang_predix.Engine.Events.emit_event golang_predix.Engine.Orders.is_success
    golang_predix.Engine.Orders.is_empty golang_predix.Engine.Orders.check_side
    golang_predix.Engine.Orders.check_outcome golang_predix.Engine.Orders.check_price
    golang_predix.Engine.Orders.validate_order golang_predix.Engine.Orders.new_order
    golang_predix.Engine.Orders.register golang_predix.Engine.Orders.admit
    golang_predix.Engine.Orders.set_status golang_predix.Engine.Orders.outcome_of_match
    golang_predix.Engine.Orders.book_after golang_predix.Engine.Orders.matched
    golang_predix.Engine.Orders.release_if_done golang_predix.Engine.Orders.match_in
    golang_predix.Engine.Orders.match_in_market golang_predix.Engine.Orders.match_order
    golang_predix.Engine.Handlers.set_store golang_predix.Engine.Handlers.env_of
    golang_predix.Engine.Handlers.create_event golang_predix.Engine.Handlers.user_created
    golang_predix.Engine.Handlers.count_filled golang_predix.Engine.Handlers.publish_trades
    golang_predix.Engine.Handlers.match_and_report golang_predix.Engine.Handlers.placed
    golang_predix.Engine.Handlers.announce golang_predix.Engine.Handlers.admit_and_announce
    golang_predix.Engine.Handlers.create_order_core golang_predix.Engine.Handlers.count_answer
    golang_predix.Engine.Handlers.create_order golang_predix.Engine.Commands.replied
    golang_predix.Engine.Commands.handle_message golang_predix.Engine.Commands.process_entry
    golang_predix.Engine.Commands.process_entries golang_predix.Common.Dict.lookup
    golang_predix.Common.Dict.contains golang_predix.Common.Dict.insert
    golang_predix.Common.Dict.value_or golang_predix.Common.Int64.wrap64
    golang_predix.Common.Int64.add64 golang_predix.Common.Int64.sub64
    golang_predix.Common.Int64.mul64 golang_predix.Common.Text-discrete
    golang_predix.Common.ℕ_discrete golang_predix.Engine.Commands.replay_entries
    golang_predix.Engine.Commands.set_replaying golang_predix.Engine.Commands.apply_command
replay_swallows_example =
    replay_swallows 0 world world wish (record no_payload { as_create = some wish }) consumed
      ((world, none) ∷ []) fresh_engine (λ i. i ∷ []) 0 [] (codes "c") refl refl refl refl
