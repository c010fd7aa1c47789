-- ===== src/Engine/Commands/Keep.antt =====
-- internal/engine: an order that is registered stays registered, whatever is done for other orders.
use golang_predix.Common.{
  ℕ, ◌+◌, ◌≡◌, ap, ◌∙◌, true, false, Bool-cases, Option, Option-cases, none, some, List, [], ◌∷◌,
  Text, inl, inr, arith,
}
use golang_predix.Common.Int.{pos, leb_ℤ}
use golang_predix.Common.Dict.{lookup}
use golang_predix.Engine.Types.{Order, Market, Store, registered, unregister, update}
use golang_predix.Engine.Ledger.{create_user, put_balance}
use golang_predix.Engine.Events.{
  Engine, World, order_created, order_canceled, order_data, cancel_data, emit_event,
}
use golang_predix.Engine.Orders.{
  CreateRequest, CancelRequest, is_empty, register, admit, new_order, set_status, validate_order,
  match_order,
}
use golang_predix.Engine.Handlers.{
  set_store, env_of, create_event, user_created, placed, withdraw, announce, admit_and_announce,
  create_order_core, count_answer, create_order, take_from_book, cancel_in, cancel_checked,
  count_canceled, cancel_order,
}
use golang_predix.Engine.Handlers.Frame.{
  reserve_order-orders, release_order-orders, match_order-orders,
}
use golang_predix.Engine.Handlers.Resubmit.{emit_event-store, match_and_report-store}
use golang_predix.Engine.Handlers.Announce.{admit-reserved}
use golang_predix.Engine.Commands.{
  Command, CommandType, create_order_command, cancel_order_command, get_depth_command,
  get_open_orders_command, create_event_command, user_created_command, no_command, unknown_command,
  Payload, handle_message, replied, process_entry, process_entries, apply_command, replay_entries,
}

module _ (r : Text) where
  -- The order is registered in an engine.
  abbrev pub Knows : Engine → Type 0
  Knows e = registered r e.store.orders ≡ true

  admit_keeps :
      (o : Order) (s : Store)
      → registered r s.orders ≡ true
      → registered r (admit o s).1.orders ≡ true
  unfolding admit register registered
  admit_keeps o s k =
      let same = reserve_order-orders o.id (record s { heap = update o.id o s.heap }) in
      ground (arith, ap (registered r) same)

  unregister_self : (q : Text) (qs : List Text) → unregister q (q ∷ qs) ≡ qs
  unfolding unregister
  unregister_self q qs = ground arith

  withdraw_keeps :
      (q : Text) (s : Store) (qs : List Text)
      → s.orders ≡ q ∷ qs
      → registered r qs ≡ true
      → registered r (withdraw q s).orders ≡ true
  unfolding withdraw set_status
  withdraw_keeps q s qs e k =
      ap (λ t. registered r (unregister q t)) e ∙ (ap (registered r) (unregister_self q qs) ∙ k)

  registered_more :
      (q : Text) (qs : List Text) → registered r qs ≡ true → registered r (q ∷ qs) ≡ true
  unfolding registered
  registered_more q qs k = ground arith

  module _ (w : World) (p : ℕ) where
    announce_keeps :
        (q : Text) (e : Engine) (qs : List Text)
        → e.store.orders ≡ q ∷ qs
        → registered r qs ≡ true
        → Knows (announce w p q e).1
    unfolding announce placed set_store
    announce_keeps q e qs top k =
        let d = order_data (e.store.heap q) in
        let f = (emit_event w p order_created d false e).1 in
        let still = emit_event-store w p order_created d false e in
        elim (Option-cases (emit_event w p order_created d false e).0) [
          | inl sent ↦
              let same =
                match_and_report-store w p q f ∙ ap (λ s. (match_order (env_of w) q s).1) still in
              let orders =
                ap (λ s. s.orders) same ∙ match_order-orders (env_of w) q e.store ∙ top in
              rw (sent, announce) (ap (registered r) orders ∙ registered_more q qs k)
          | inr (x, lost) ↦
              rw (lost, announce) (withdraw_keeps q f.store qs (ap (λ s. s.orders) still ∙ top) k)
        ]

    admit_and_announce_keeps :
        (o : Order) (e : Engine) → Knows e → Knows (admit_and_announce w p o e).1
    unfolding admit_and_announce set_store
    admit_and_announce_keeps o e k = elim (Option-cases (admit o e.store).0) [
      | inl go ↦
          let (took, fresh) = admit-reserved o e.store go in
          let same =
            reserve_order-orders o.id (record (e.store) { heap = update o.id o e.store.heap }) in
          rw (go, admit_and_announce)
            (announce_keeps o.id (set_store (admit o e.store).1 e) e.store.orders
              (ap (λ s. s.orders) took ∙ ap (λ t. o.id ∷ t) same) k)
      | inr (x, stop) ↦ rw (stop, admit_and_announce) (admit_keeps o e.store k)
    ]

    core_keeps :
        (q : Option CreateRequest) (e : Engine) → Knows e → Knows (create_order_core w p q e).1
    unfolding create_order_core
    core_keeps none e k = k
    core_keeps (some q) e k = elim (Bool-cases (leb_ℤ q.quantity (pos 0))) [
      | inl bad ↦ rw bad k
      | inr good ↦ rw good (elim (Option-cases (validate_order (new_order w q))) [
        | inl valid ↦ rw (valid, create_order_core) (admit_and_announce_keeps (new_order w q) e k)
        | inr (f, invalid) ↦ rw (invalid, create_order_core) k
      ])
    ]

    create_order_keeps :
        (q : Option CreateRequest) (e : Engine) → Knows e → Knows (create_order w p q e).1
    unfolding create_order count_answer
    create_order_keeps q e k = ground (arith, core_keeps q e k)

    cancel_in_orders : (q : Text) (mk : Market) (s : Store) → (cancel_in q mk s).orders ≡ s.orders
    unfolding cancel_in set_status take_from_book
    cancel_in_orders q mk s = release_order-orders q _ ∙ ground arith

    cancel_checked_orders :
        (q event : Text) (s : Store) → (cancel_checked q event s).1.orders ≡ s.orders
    unfolding cancel_checked
    cancel_checked_orders q event s = elim (Option-cases (lookup (s.heap q).event_id s.markets)) [
      | inl m ↦ ground (arith, m)
      | inr (mk, m) ↦ ground (arith, m, cancel_in_orders q mk s)
    ]

    cancel_order_keeps :
        (q : Option CancelRequest) (e : Engine) → Knows e → Knows (cancel_order w p q e).1
    unfolding cancel_order set_store count_canceled
    cancel_order_keeps none e k = k
    cancel_order_keeps (some q) e k = elim (Bool-cases (is_empty q.order_id)) [
      | inl bad ↦ rw bad k
      | inr good ↦
          let checked = cancel_checked q.order_id q.event_id e.store in
          let left : registered r checked.1.orders ≡ true =
            ap (registered r) (cancel_checked_orders q.order_id q.event_id e.store) ∙ k in
          rw good (elim (Option-cases checked.0) [
            | inl done ↦
                rw (done, cancel_order)
                  (ap (λ s. registered r s.orders)
                      (emit_event-store w p order_canceled (cancel_data q.order_id) false _)
                    ∙ ground (arith, left))
            | inr (f, refused) ↦ rw (refused, cancel_order) left
          ])
    ]

    create_event_keeps : (v : Option Text) (e : Engine) → Knows e → Knows (create_event v e).1
    unfolding create_event set_store
    create_event_keeps none e k = k
    create_event_keeps (some v) e k = ground arith

    user_created_keeps : (u : Option Text) (e : Engine) → Knows e → Knows (user_created u e).1
    unfolding user_created set_store create_user put_balance
    user_created_keeps none e k = k
    user_created_keeps (some u) e k = ground arith

    handle_message_keeps :
        (k : CommandType) (d : Payload) (e : Engine) → Knows e → Knows (handle_message w p k d e).1
    unfolding handle_message replied
    handle_message_keeps create_order_command d e k = create_order_keeps d.as_create e k
    handle_message_keeps cancel_order_command d e k = cancel_order_keeps d.as_cancel e k
    handle_message_keeps get_depth_command d e k = k
    handle_message_keeps get_open_orders_command d e k = k
    handle_message_keeps create_event_command d e k = create_event_keeps d.as_event e k
    handle_message_keeps user_created_command d e k = user_created_keeps d.as_user e k
    handle_message_keeps no_command d e k = k
    handle_message_keeps unknown_command d e k = k

    apply_command_keeps :
        (k : CommandType) (d : Payload) (e : Engine)
        → Knows e
        → Knows (apply_command w p (record { kind = k; payload = d }) e)
    unfolding apply_command
    apply_command_keeps no_command d e k = k
    apply_command_keeps kind d e k = handle_message_keeps kind d e k

    process_entry_keeps :
        (client : Text) (kind : CommandType) (d : Payload) (e : Engine)
        → Knows e
        → Knows (process_entry w p client (some (record { kind = kind; payload = d })) e).1
    unfolding process_entry
    process_entry_keeps client no_command d e k = k
    process_entry_keeps client kind d e k = handle_message_keeps kind d e k

  -- Live consumption, and a replay, forget no order.
  pub process_entries_keeps :
      (p : ℕ) (clients : ℕ → Text) (i : ℕ) (cs : List (World × Option Command)) (e : Engine)
      → Knows e
      → Knows (process_entries p clients i cs e)
  unfolding process_entries
  process_entries_keeps p clients i [] e k = k
  process_entries_keeps p clients i ((w, none) ∷ cs) e k =
      process_entries_keeps p clients (i + 1) cs _ (unfold process_entry in k)
  process_entries_keeps p clients i ((w, some c) ∷ cs) e k =
      process_entries_keeps p clients (i + 1) cs _
        (process_entry_keeps w p (clients i) c.kind c.payload e k)

  pub replay_entries_keeps :
      (p : ℕ) (cs : List (World × Option Command)) (e : Engine)
      → Knows e
      → Knows (replay_entries p cs e)
  unfolding replay_entries
  replay_entries_keeps p [] e k = k
  replay_entries_keeps p ((w, none) ∷ cs) e k = replay_entries_keeps p cs e k
  replay_entries_keeps p ((w, some c) ∷ cs) e k =
      replay_entries_keeps p cs _ (apply_command_keeps w p c.kind c.payload e k)
