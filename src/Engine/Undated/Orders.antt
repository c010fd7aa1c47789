-- ===== src/Engine/Undated/Orders.antt =====
-- internal/engine/engine.go: the life of an order does not depend on the times of orders and trades.
use golang_predix.Common.{
  ◌≡◌, refl, sym, ◌∙◌, ap, Option, none, some, List, [], map, Text, if◌then◌else◌, ◌||◌,
}
use golang_predix.Common.Dict.{lookup, contains}
use golang_predix.Engine.Types.{
  Order, Trade, Store, Market, OrderBook, rejected, book_of, update, registered,
}
use golang_predix.Engine.Ledger.{LedgerError, reserve_order, settle_trades, release_order}
use golang_predix.Engine.Matching.{Env, MatchState, is_filled, is_canceled, match_against_book}
use golang_predix.Engine.Book.{add_to_book}
use golang_predix.Engine.Orders.{
  Reply, event_not_found, failed, order_exists, register, admit, set_status, outcome_of_match,
  book_after, matched, release_if_done, match_in, match_in_market, match_order,
}
use golang_predix.Engine.Undated.{if-apply, undated, undated_trade, undated_store}
use golang_predix.Engine.Undated.Match.{timeless, undated_state, match_against_book-undated}
use golang_predix.Engine.Undated.Ledger.{
  undated_after, write-undated, set_status-undated, settle_trades-undated, release_order-undated,
  reserve_order-undated,
}

register-undated :
    (r : Text) (x : Option LedgerError × Store)
    → undated_after (register r x) ≡ register r (undated_after x)
unfolding register
register-undated r (some e, s) = refl
register-undated r (none, s) = refl

pub admit-undated :
    (o : Order) (s : Store) → undated_after (admit o s) ≡ admit (undated o) (undated_store s)
unfolding admit
admit-undated o s =
    let known : Option Reply × Store = (some (order_exists o.id (s.heap o.id).status), s) in
    let absent : Option Reply × Store = (some (failed event_not_found), s) in
    let t = record s { heap = update o.id o s.heap } in
    let new = register o.id (reserve_order o.id t) in
    let market = contains o.event_id s.markets in
    let old = registered o.id s.orders in
    if-apply (λ x. undated_after x) old known (if market then new else absent)
    ∙ ap (λ x. if old then undated_after known else x)
        (if-apply (λ x. undated_after x) market new absent
          ∙ ap (λ x. if market then x else undated_after absent)
              (register-undated o.id (reserve_order o.id t)
                ∙ ap (register o.id) (
                    reserve_order-undated o.id t
                    ∙ ap (reserve_order o.id) (write-undated o.id o s))))

matched-undated :
    (r event : Text) (mk : Market) (b : OrderBook) (m : MatchState) (s : Store)
    → undated_store (matched r event mk b m s)
      ≡ matched r event mk b (undated_state m) (undated_store s)
unfolding matched book_after outcome_of_match add_to_book
matched-undated r event mk b m s = set_status-undated r _ _

release_if_done-undated :
    (r : Text) (s : Store)
    → undated_store (release_if_done r s) ≡ release_if_done r (undated_store s)
unfolding release_if_done
release_if_done-undated r s =
    let test = is_filled (s.heap r).status || is_canceled (s.heap r).status in
    if-apply (λ x. undated_store x) test (release_order r s) s
    ∙ ap (λ x. if test then x else undated_store s) (release_order-undated r s)

abbrev in_book : Env → Text → Market → Store → Option OrderBook → List Trade × Store
in_book env r mk s b = elim b [
  | none ↦ ([], set_status r rejected s)
  | some x ↦ match_in env r mk x s
]

module _ (env : Env) (r : Text) where
  match_in-undated :
      (mk : Market) (b : OrderBook) (s : Store)
      → undated_store (match_in env r mk b s).1 ≡ (match_in timeless r mk b (undated_store s)).1
  unfolding match_in
  match_in-undated mk b s =
      let m = match_against_book env r s.heap b in
      let event = (s.heap r).event_id in
      release_if_done-undated r (settle_trades m.trades (matched r event mk b m s))
      ∙ (ap (release_if_done r) (
            settle_trades-undated m.trades (matched r event mk b m s)
            ∙ ap (settle_trades (map undated_trade m.trades)) (matched-undated r event mk b m s))
          ∙ ap
              (λ (x : MatchState).
                release_if_done r
                  (settle_trades x.trades (matched r event mk b x (undated_store s))))
              (match_against_book-undated env r s.heap b))

  match_in_book-undated :
      (mk : Market) (s : Store) (b : Option OrderBook)
      → undated_store (in_book env r mk s b).1 ≡ (in_book timeless r mk (undated_store s) b).1
  match_in_book-undated mk s none = set_status-undated r rejected s
  match_in_book-undated mk s (some b) = match_in-undated mk b s

  match_in_market-undated :
      (mk : Option Market) (s : Store)
      → undated_store (match_in_market env r mk s).1
        ≡ (match_in_market timeless r mk (undated_store s)).1
  unfolding match_in_market
  match_in_market-undated none s = set_status-undated r rejected s
  match_in_market-undated (some mk) s = match_in_book-undated mk s (book_of mk (s.heap r).outcome)

  pub match_order-undated :
      (s : Store)
      → undated_store (match_order env r s).1 ≡ (match_order timeless r (undated_store s)).1
  unfolding match_order
  match_order-undated s =
      let test = is_canceled (s.heap r).status in
      let mk = lookup (s.heap r).event_id s.markets in
      let t = undated_store s in
      if-apply (λ (x : List Trade × Store). undated_store x.1) test ([], s)
        (match_in_market env r mk s)
      ∙ (ap (λ x. if test then t else x) (match_in_market-undated mk s)
          ∙ sym (
              if-apply (λ (x : List Trade × Store). x.1) test ([], t)
                (match_in_market timeless r mk t)))
