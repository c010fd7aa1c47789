-- ===== src/Engine/Handlers/Resubmit.antt =====
-- internal/engine/engine.go: commands that are run again. A stream is delivered at least once, and a
-- replay runs what was already run.
use golang_predix.Common.{
  ℕ, ◌≡◌, refl, sym, ap, ◌∙◌, true, false, Bool, Option, none, some, List, [], ◌∷◌, Text, arith,
  Bool-cases, Option-cases, inl, inr,
}
use golang_predix.Common.Int.{pos, leb_ℤ}
use golang_predix.Common.Dict.{contains-insert_self}
use golang_predix.Engine.Types.{
  Order, Trade, Store, registered, new_market, default_starting_balance, update,
}
use golang_predix.Engine.Ledger.{no_balance, create_user, put_balance, reserve_order}
use golang_predix.Engine.Events.{
  Engine, World, EventType, order_created, order_data, trade_executed, trade_data, EventData,
  emit_event, emit_cycle, fan_out, append_outbox, reset_outbox, set_sequence,
}
use golang_predix.Engine.Orders.{
  Reply, order_exists, order_placed, CreateRequest, is_empty, validate_order, new_order, register,
  admit, match_order,
}
use golang_predix.Engine.Handlers.{
  set_store, env_of, create_event, user_created, count_filled, publish_trades, match_and_report,
  placed, announce, admit_and_announce, create_order_core,
}
use golang_predix.Engine.Handlers.Frame.{match_order-orders}

-- `order_placed` answers.
abbrev pub is_placed : Reply → Bool
is_placed (order_placed r st n m) = true
is_placed _ = false

-- Creating an event again changes nothing.
pub create_event_again :
    (v : Option Text) (e : Engine) → (create_event v (create_event v e).1).1 ≡ (create_event v e).1
unfolding create_event set_store
create_event_again none e = refl
create_event_again (some v) e = ground (arith, contains-insert_self v new_market e.store.markets)

-- Creating a user again grants nothing more.
pub user_created_again :
    (u : Option Text) (e : Engine) → (user_created u (user_created u e).1).1 ≡ (user_created u e).1
unfolding user_created set_store create_user put_balance
user_created_again none e = refl
user_created_again (some u) e = ground (
  arith,
  contains-insert_self u (record no_balance { available = default_starting_balance })
      e.store.balances,
)

-- Emission does not touch the store.
pub emit_event-store :
    (w : World) (p : ℕ) (kind : EventType) (d : EventData) (b : Bool) (e : Engine)
    → (emit_event w p kind d b e).1.store ≡ e.store
unfolding emit_event emit_cycle fan_out append_outbox reset_outbox set_sequence
emit_event-store w p kind d b e = ground arith

publish_trades-store :
    (w : World) (p : ℕ) (ts : List Trade) (e : Engine) → (publish_trades w p ts e).store ≡ e.store
unfolding publish_trades
publish_trades-store w p [] e = refl
publish_trades-store w p (t ∷ ts) e =
    publish_trades-store w p ts _ ∙ emit_event-store w p trade_executed (trade_data t) true _

-- What a match with its reports leaves in the store is what the match leaves.
pub match_and_report-store :
    (w : World) (p : ℕ) (r : Text) (e : Engine)
    → (match_and_report w p r e).store ≡ (match_order (env_of w) r e.store).1
unfolding match_and_report set_store count_filled
match_and_report-store w p r e = elim (Bool-cases (e.replaying p)) [
  | inl on ↦ rw on
  | inr off ↦ rw off (publish_trades-store w p _ _ ∙ ground arith)
]

registered_self : (r : Text) (rs : List Text) → registered r (r ∷ rs) ≡ true
unfolding registered
registered_self r rs = ground arith

-- The checks of `admit` never answer with a placed order.
pub not_placed :
    (o : Order) (s : Store) (x : Reply) → (admit o s).0 ≡ some x → is_placed x ≡ true → ⊥
unfolding admit register
not_placed o s x stop done = ground arith

admit-registered :
    (o : Order) (s : Store) → (admit o s).0 ≡ none → registered o.id (admit o s).1.orders ≡ true
unfolding admit register
admit-registered o s go =
    let reserved = (reserve_order o.id (record s { heap = update o.id o s.heap })).1 in
    ground (arith, registered_self o.id reserved.orders)

-- An order that was placed is registered in the engine that the call leaves.
announce-registered :
    (w : World) (p : ℕ) (r : Text) (e : Engine)
    → registered r e.store.orders ≡ true
    → is_placed (announce w p r e).0 ≡ true
    → registered r (announce w p r e).1.store.orders ≡ true
unfolding announce placed
announce-registered w p r e known done =
    let d = order_data (e.store.heap r) in
    let f = (emit_event w p order_created d false e).1 in
    elim (Option-cases (emit_event w p order_created d false e).0) [
      | inl sent ↦
          let same =
            match_and_report-store w p r f
            ∙ ap (λ s. (match_order (env_of w) r s).1)
                (emit_event-store w p order_created d false e) in
          let orders = ap (λ s. s.orders) same ∙ match_order-orders (env_of w) r e.store in
          rw (sent, announce) (ap (registered r) orders ∙ known)
      | inr (x, lost) ↦ absurd (cc (rw (lost, announce) at done))
    ]

admit_and_announce-registered :
    (w : World) (p : ℕ) (o : Order) (e : Engine)
    → is_placed (admit_and_announce w p o e).0 ≡ true
    → registered o.id (admit_and_announce w p o e).1.store.orders ≡ true
unfolding admit_and_announce set_store
admit_and_announce-registered w p o e done = elim (Option-cases (admit o e.store).0) [
  | inl go ↦
      rw (go, admit_and_announce)
        (announce-registered w p o.id (set_store (admit o e.store).1 e)
          (admit-registered o e.store go) (rw (go, admit_and_announce) at done))
  | inr (x, stop) ↦ absurd (not_placed o e.store x stop (rw (stop, admit_and_announce) at done))
]

-- The checks that a placed request has passed.
pub core_passed :
    (w : World) (p : ℕ) (q : CreateRequest) (e : Engine)
    → is_placed (create_order_core w p (some q) e).0 ≡ true
    → (leb_ℤ q.quantity (pos 0) ≡ false)
      × (validate_order (new_order w q) ≡ none)
      × (create_order_core w p (some q) e ≡ admit_and_announce w p (new_order w q) e)
unfolding create_order_core
core_passed w p q e done = ground arith

-- The id and the checks do not depend on the time of the request.
pub new_order-id :
    (w : World) (q : CreateRequest) → is_empty q.order_id ≡ false → (new_order w q).id ≡ q.order_id
unfolding new_order
new_order-id w q named = rw named

validate-new_order :
    (w w' : World) (q : CreateRequest)
    → validate_order (new_order w q) ≡ validate_order (new_order w' q)
unfolding validate_order new_order
validate-new_order w w' q = refl

admit_exists :
    (o : Order) (s : Store)
    → registered o.id s.orders ≡ true
    → admit o s ≡ (some (order_exists o.id (s.heap o.id).status), s)
unfolding admit
admit_exists o s known = rw known

pub admit_known :
    (w : World) (p : ℕ) (o : Order) (e : Engine)
    → registered o.id e.store.orders ≡ true
    → admit_and_announce w p o e ≡ (order_exists o.id (e.store.heap o.id).status, e)
unfolding admit_and_announce set_store
admit_known w p o e known =
    let exists = admit_exists o e.store known in rw (exists, admit_and_announce, exists)

core_runs :
    (w : World) (p : ℕ) (q : CreateRequest) (e : Engine)
    → leb_ℤ q.quantity (pos 0) ≡ false
    → validate_order (new_order w q) ≡ none
    → create_order_core w p (some q) e ≡ admit_and_announce w p (new_order w q) e
unfolding create_order_core
core_runs w p q e some_quantity valid = rw (some_quantity, valid, create_order_core)

-- The order of a request with an id, where it was placed, is registered under it.
pub core-registered :
    (w : World) (p : ℕ) (q : CreateRequest) (e : Engine)
    → is_empty q.order_id ≡ false
    → is_placed (create_order_core w p (some q) e).0 ≡ true
    → registered q.order_id (create_order_core w p (some q) e).1.store.orders ≡ true
core-registered w p q e named done =
    let (some_quantity, valid, ran) = core_passed w p q e done in
    let f = (create_order_core w p (some q) e).1 in
    ap (λ r. registered r f.store.orders) (sym (new_order-id w q named))
    ∙ (ap (λ x. registered (new_order w q).id x.1.store.orders) ran
        ∙ admit_and_announce-registered w p (new_order w q) e (rw ran at done))

-- A request that names an id of its own and was placed, and that comes again at any time and on
-- any partition, is answered with the state of the order, and changes nothing.
pub create_order_again :
    (w w' : World) (p p' : ℕ) (q : CreateRequest) (e : Engine)
    → is_empty q.order_id ≡ false
    → is_placed (create_order_core w p (some q) e).0 ≡ true
    → let f = (create_order_core w p (some q) e).1 in
      create_order_core w' p' (some q) f
      ≡ (order_exists q.order_id (f.store.heap q.order_id).status, f)
create_order_again w w' p p' q e named done =
    let (some_quantity, valid, ran) = core_passed w p q e done in
    let f = (create_order_core w p (some q) e).1 in
    let id' = new_order-id w' q named in
    let known = ap (λ r. registered r f.store.orders) id' ∙ core-registered w p q e named done in
    core_runs w' p' q f some_quantity (validate-new_order w' w q ∙ valid)
    ∙ (admit_known w' p' (new_order w' q) f known
        ∙ ap {B = Reply × Engine} (λ r. (order_exists r (f.store.heap r).status, f)) id')
