-- ===== src/Engine/Handlers/Announce.antt =====
-- internal/engine/engine.go, `handleCreateOrderCore`: an order whose creation cannot be streamed.
use golang_predix.Common.{ℕ, ◌≡◌, refl, ◌∙◌, false, none, some, List, ◌∷◌, Text, arith}
use golang_predix.Engine.Types.{Order, Store, registered, unregister, update}
use golang_predix.Engine.Ledger.{reserve_order}
use golang_predix.Engine.Events.{Engine, World, EmitError, order_created, order_data, emit_event}
use golang_predix.Engine.Orders.{failed, not_streamed, register, admit, set_status}
use golang_predix.Engine.Handlers.{set_store, withdraw, announce, admit_and_announce}
use golang_predix.Engine.Handlers.Frame.{reserve_order-orders}
use golang_predix.Engine.Handlers.Resubmit.{emit_event-store}

-- The store in which an order reserves its funds.
abbrev pub reserved_store : Order → Store → Store
reserved_store o s = (reserve_order o.id (record s { heap = update o.id o s.heap })).1

registered-unregister :
    (r : Text) (rs : List Text)
    → registered r rs ≡ false
    → registered r (unregister r (r ∷ rs)) ≡ false
unfolding registered unregister
registered-unregister r rs h = ground arith

-- What an admission has done.
pub admit-reserved :
    (o : Order) (s : Store)
    → (admit o s).0 ≡ none
    → ((admit o s).1 ≡ record (reserved_store o s) { orders = o.id ∷ (reserved_store o s).orders })
      × (registered o.id (reserved_store o s).orders ≡ false)
unfolding admit register
admit-reserved o s go =
    let same = reserve_order-orders o.id (record s { heap = update o.id o s.heap }) in
    ground (arith, same)

withdraw_lem :
    (r : Text) (s t : Store)
    → t ≡ record s { orders = r ∷ s.orders }
    → registered r s.orders ≡ false
    → ((withdraw r t).balances ≡ s.balances)
      × ((withdraw r t).positions ≡ s.positions)
      × (registered r (withdraw r t).orders ≡ false)
unfolding withdraw set_status
withdraw_lem r s t e h = rw e (refl, refl, registered-unregister r s.orders h)

-- Where an admitted order cannot be streamed, the caller is told so and the order is registered no
-- more, so that it cannot be canceled; but the balances and the positions are those behind its
-- reservation: what was frozen for it stays frozen.
pub failed_announcement :
    (w : World) (p : ℕ) (o : Order) (e : Engine) (x : EmitError)
    → (admit o e.store).0 ≡ none
    → (emit_event w p order_created
        (order_data ((admit o e.store).1.heap o.id))
        false
        (set_store (admit o e.store).1 e)).0
      ≡ some x
    → let (reply, f) = admit_and_announce w p o e in
      (reply ≡ failed not_streamed)
      × (f.store.balances ≡ (reserved_store o e.store).balances)
      × (f.store.positions ≡ (reserved_store o e.store).positions)
      × (registered o.id f.store.orders ≡ false)
unfolding admit_and_announce announce set_store
failed_announcement w p o e x go lost =
    let s = (admit o e.store).1 in
    let (took, fresh) = admit-reserved o e.store go in
    let kept =
      emit_event-store w p order_created (order_data (s.heap o.id)) false (set_store s e) in
    let (b, q, r) = withdraw_lem o.id (reserved_store o e.store) _ (kept ∙ took) fresh in
    rw (go, admit_and_announce) (rw (lost, announce) (refl, b, q, r))
