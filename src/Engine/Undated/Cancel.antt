-- ===== src/Engine/Undated/Cancel.antt =====
-- internal/engine/engine.go: the cancellation of an order does not depend on the times of orders.
use golang_predix.Common.{
  ◌≡◌, refl, ◌∙◌, ap, Bool, true, false, arith, Option, none, some, Text, Text-discrete, ite,
  if◌then◌else◌,
}
use golang_predix.Common.Dict.{lookup}
use golang_predix.Engine.Types.{Store, Market, OrderBook, canceled, book_of, registered}
use golang_predix.Engine.Ledger.{release_order}
use golang_predix.Engine.Matching.{is_filled, is_canceled, is_rejected}
use golang_predix.Engine.Orders.{
  Failure, event_not_found, order_not_found, order_not_cancelable, wrong_event, set_status,
  is_empty,
}
use golang_predix.Engine.Handlers.{take_from_book, cancel_in, cancel_checked}
use golang_predix.Engine.Undated.{if-apply, undated_store}
use golang_predix.Engine.Undated.Ledger.{undated_after, set_status-undated, release_order-undated}

abbrev swept : Text → Market → Store → Option OrderBook → Store
swept r mk s b = elim b [ none ↦ s | some x ↦ take_from_book (s.heap r) mk x s ]

swept-undated :
    (r : Text) (mk : Market) (s : Store) (b : Option OrderBook)
    → undated_store (swept r mk s b) ≡ swept r mk (undated_store s) b
unfolding take_from_book
swept-undated r mk s none = refl
swept-undated r mk s (some b) = refl

cancel_in-undated :
    (r : Text) (mk : Market) (s : Store)
    → undated_store (cancel_in r mk s) ≡ cancel_in r mk (undated_store s)
unfolding cancel_in
cancel_in-undated r mk s =
    let b = book_of mk (s.heap r).outcome in
    release_order-undated r (set_status r canceled (swept r mk s b))
    ∙ ap (release_order r) (
        set_status-undated r canceled (swept r mk s b)
        ∙ ap (set_status r canceled) (swept-undated r mk s b))

abbrev in_market : Text → Store → Option Market → Option Failure × Store
in_market r s mk = elim mk [ none ↦ (some event_not_found, s) | some x ↦ (none, cancel_in r x s) ]

in_market-undated :
    (r : Text) (s : Store) (mk : Option Market)
    → undated_after (in_market r s mk) ≡ in_market r (undated_store s) mk
in_market-undated r s none = refl
in_market-undated r s (some mk) = ap (λ x. (none, x)) (cancel_in-undated r mk s)

-- The checks of `cancel_checked` in the order of their nesting, from the inside.
abbrev unless : Bool → Store → Option Failure × Store → Option Failure × Store
unless test s x = if test then (some order_not_cancelable, s) else x

abbrev open_in_market : Text → Store → Option Failure × Store
open_in_market r s =
    let o = s.heap r in
    unless (is_filled o.status) s (
      unless (is_canceled o.status) s
        (unless (is_rejected o.status) s (in_market r s (lookup o.event_id s.markets))))

abbrev in_event : Text → Text → Store → Option Failure × Store → Option Failure × Store
in_event event own s x =
    if is_empty event then x else ite (Text-discrete own event) x (some wrong_event, s)

unless-undated :
    (test : Bool) (s : Store) (x y : Option Failure × Store)
    → undated_after x ≡ y
    → undated_after (unless test s x) ≡ unless test (undated_store s) y
unless-undated true s x y same = refl
unless-undated false s x y same = same

open_in_market-undated :
    (r : Text) (s : Store) → undated_after (open_in_market r s) ≡ open_in_market r (undated_store s)
open_in_market-undated r s =
    let o = s.heap r in
    let t = undated_store s in
    let mk = lookup o.event_id s.markets in
    let x = in_market r s mk in
    let y = in_market r t mk in
    let gone = is_rejected o.status in
    let left = is_canceled o.status in
    unless-undated (is_filled o.status) s (unless left s (unless gone s x))
      (unless left t (unless gone t y))
      (unless-undated left s (unless gone s x) (unless gone t y)
        (unless-undated gone s x y (in_market-undated r s mk)))

ite-apply :
    {A B : Type 0} (f : A → B) (a b : Text) (x y : A)
    → f (ite (Text-discrete a b) x y) ≡ ite (Text-discrete a b) (f x) (f y)
ite-apply f a b x y = ground arith

in_event-undated :
    (event own : Text) (s : Store) (x y : Option Failure × Store)
    → undated_after x ≡ y
    → undated_after (in_event event own s x) ≡ in_event event own (undated_store s) y
in_event-undated event own s x y same =
    let wrong : Option Failure × Store = (some wrong_event, s) in
    if-apply (λ z. undated_after z) (is_empty event) x (ite (Text-discrete own event) x wrong)
    ∙ (ap (λ z. if is_empty event then undated_after x else z)
          (ite-apply (λ z. undated_after z) own event x wrong)
        ∙ ap (λ z. in_event event own (undated_store s) z) same)

pub cancel_checked-undated :
    (r event : Text) (s : Store)
    → undated_after (cancel_checked r event s) ≡ cancel_checked r event (undated_store s)
unfolding cancel_checked
cancel_checked-undated r event s =
    let o = s.heap r in
    let t = undated_store s in
    let here = in_event event o.event_id s (open_in_market r s) in
    let there = in_event event o.event_id t (open_in_market r t) in
    let known = registered r s.orders in
    if-apply (λ z. undated_after z) known here (some order_not_found, s)
    ∙ ap (λ z. if known then z else (some order_not_found, t))
        (in_event-undated event o.event_id s (open_in_market r s) (open_in_market r t)
          (open_in_market-undated r s))
