-- ===== src/Engine/Handlers/Cancel.antt =====
-- internal/engine/engine.go, `handleCancelOrderP`: a canceled order stays canceled.
use golang_predix.Common.{
  ◌≡◌, refl, ap, subst, ◌⊎◌, ◌∙◌, true, false, none, some, Text, arith, Option-cases, inl, inr,
}
use golang_predix.Common.Dict.{lookup}
use golang_predix.Engine.Types.{canceled, Store, Market, book_of, registered}
use golang_predix.Engine.Ledger.{release_order}
use golang_predix.Engine.Matching.{is_filled, is_canceled, is_rejected}
use golang_predix.Engine.Orders.{order_not_cancelable, is_empty, set_status}
use golang_predix.Engine.Handlers.{take_from_book, cancel_in, cancel_checked}
use golang_predix.Engine.Handlers.Frame.{
  release_order-status, release_order-orders, set_status-heap, set_status-orders,
}

-- What a cancellation that succeeds has done to the order.
record IsCanceled (r : Text) (s t : Store) : Type 0 where
  known : registered r t.orders ≡ true
  closed : (t.heap r).status ≡ canceled
  same_event : (t.heap r).event_id ≡ (s.heap r).event_id

closed-IsCanceled :
    (r : Text) (s u : Store)
    → registered r s.orders ≡ true
    → u.heap r ≡ s.heap r
    → u.orders ≡ s.orders
    → IsCanceled r s (release_order r (set_status r canceled u))
closed-IsCanceled r s u known same orders =
    let t = set_status r canceled u in
    let (status, event) = release_order-status r t in
    let written = set_status-heap r canceled u in
    record {
      known =
          ap (registered r) (release_order-orders r t ∙ (set_status-orders r canceled u ∙ orders))
          ∙ known;
      closed = status ∙ ap (λ o. o.status) written;
      same_event = event ∙ (ap (λ o. o.event_id) written ∙ ap (λ o. o.event_id) same);
    }

cancel_in-IsCanceled :
    (r : Text) (mk : Market) (s : Store)
    → registered r s.orders ≡ true
    → IsCanceled r s (cancel_in r mk s)
unfolding cancel_in take_from_book
cancel_in-IsCanceled r mk s known = elim (Option-cases (book_of mk (s.heap r).outcome)) [
  | inl e ↦ rw (e, cancel_in) (closed-IsCanceled r s s known refl refl)
  | inr (b, e) ↦ rw (e, cancel_in) (closed-IsCanceled r s _ known refl refl)
]

-- A cancellation that succeeds was of a registered order that was neither filled, canceled nor
-- rejected, of the event that was named, if one was.
record WasOpen (r event : Text) (s : Store) : Type 0 where
  known : registered r s.orders ≡ true
  not_filled : is_filled (s.heap r).status ≡ false
  not_canceled : is_canceled (s.heap r).status ≡ false
  not_rejected : is_rejected (s.heap r).status ≡ false
  in_event : (is_empty event ≡ true) ⊎ ((s.heap r).event_id ≡ event)
  market : Market
  there : lookup (s.heap r).event_id s.markets ≡ some market

cancel_checked-WasOpen :
    (r event : Text) (s t : Store)
    → cancel_checked r event s ≡ (none, t)
    → WasOpen r event s × IsCanceled r s t
unfolding cancel_checked
cancel_checked-WasOpen r event s t done =
    elim (Option-cases (lookup (s.heap r).event_id s.markets)) [
      | inl e ↦ ground arith
      | inr (mk, e) ↦
          let k : registered r s.orders ≡ true = ground arith in
          let c = cancel_in-IsCanceled r mk s k in
          let same : cancel_in r mk s ≡ t = ground arith in
          (
            record {
              known = k;
              not_filled = ground arith;
              not_canceled = ground arith;
              not_rejected = ground arith;
              in_event = ground arith;
              market = mk;
              there = e;
            },
            subst (IsCanceled r s) same c,
          )
    ]

-- A cancellation succeeds only for a registered order that was not filled, canceled or rejected.
-- Then the order is canceled, and canceling it again with the same arguments is refused and
-- changes nothing.
pub cancel_checked_twice :
    (r event : Text) (s t : Store)
    → cancel_checked r event s ≡ (none, t)
    → (registered r s.orders ≡ true)
      × (is_filled (s.heap r).status ≡ false)
      × (is_canceled (s.heap r).status ≡ false)
      × (is_rejected (s.heap r).status ≡ false)
      × ((t.heap r).status ≡ canceled)
      × (cancel_checked r event t ≡ (some order_not_cancelable, t))
unfolding cancel_checked is_filled is_canceled
cancel_checked_twice r event s t done =
    let (o, c) = cancel_checked-WasOpen r event s t done in
    (
      o.known,
      o.not_filled,
      o.not_canceled,
      o.not_rejected,
      c.closed,
      ground (arith, o.in_event, c.known, c.closed, c.same_event),
    )
