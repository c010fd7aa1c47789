-- ===== src/Database/Worker/EndToEnd.antt =====
-- internal/engine/engine.go and internal/dbworker/worker.go: from the commands of a partition to the tables.
use golang_predix.Common.{
  ℕ, ◌+◌, ◌≡◌, refl, sym, subst, inl, inr, false, Option, none, some, List, [], ◌∷◌, ◌++◌, All,
  All-map, All-middle, Text, Bool-cases, Option-cases, arith,
}
use golang_predix.Engine.Events.{order_canceled, cancel_data, Envelope, Engine, World}
use golang_predix.Engine.Orders.{CancelRequest, is_empty}
use golang_predix.Engine.Handlers.{
  set_store, create_event, user_created, cancel_checked, count_canceled, cancel_order,
}
use golang_predix.Engine.Commands.{
  Command, CommandType, create_order_command, cancel_order_command, get_depth_command,
  get_open_orders_command, create_event_command, user_created_command, no_command, unknown_command,
  Payload, replied, handle_message, process_entry, process_entries,
}
use golang_predix.Database.Rows.{Db}
use golang_predix.Database.Worker.{Incoming, received, Delivery, run_worker}
use golang_predix.Partition.Redis.{Redis}
use golang_predix.Database.Worker.Says.{IsFilled}
use golang_predix.Database.Worker.Keeps.{IsFresh}
use golang_predix.Database.Worker.Run.{run_worker-IsFilled}
use golang_predix.Database.Worker.Announced.{
  IsFreshData, received-IsFresh, AllFresh, emit_event-AllFresh, create_order-AllFresh,
}

module _ (w : World) (p : ℕ) where
  cancel_order-AllFresh :
      (q : Option CancelRequest) (e : Engine) → AllFresh e → AllFresh (cancel_order w p q e).1
  unfolding cancel_order set_store count_canceled
  cancel_order-AllFresh none e k = k
  cancel_order-AllFresh (some q) e k = elim (Bool-cases (is_empty q.order_id)) [
    | inl bad ↦ rw bad k
    | inr good ↦ rw good (elim (Option-cases (cancel_checked q.order_id q.event_id e.store).0) [
      | inl ok_ ↦
          rw (ok_, cancel_order)
            (emit_event-AllFresh w p order_canceled (cancel_data q.order_id) false _ tt
              (subst (All (λ v. IsFreshData v.payload)) (ground arith) k))
      | inr (f, refused) ↦ rw (refused, cancel_order) k
    ])
  ]

  create_event-stream : (v : Option Text) (e : Engine) → (create_event v e).1.stream ≡ e.stream
  unfolding create_event set_store
  create_event-stream none e = refl
  create_event-stream (some v) e = ground arith

  user_created-stream : (v : Option Text) (e : Engine) → (user_created v e).1.stream ≡ e.stream
  unfolding user_created set_store
  user_created-stream none e = refl
  user_created-stream (some v) e = ground arith

  handle_message-AllFresh :
      (k : CommandType) (d : Payload) (e : Engine)
      → AllFresh e
      → AllFresh (handle_message w p k d e).1
  unfolding handle_message replied
  handle_message-AllFresh create_order_command d e k = create_order-AllFresh w p d.as_create e k
  handle_message-AllFresh cancel_order_command d e k = cancel_order-AllFresh d.as_cancel e k
  handle_message-AllFresh get_depth_command d e k = k
  handle_message-AllFresh get_open_orders_command d e k = k
  handle_message-AllFresh create_event_command d e k =
      subst (All (λ v. IsFreshData v.payload)) (sym (create_event-stream d.as_event e)) k
  handle_message-AllFresh user_created_command d e k =
      subst (All (λ v. IsFreshData v.payload)) (sym (user_created-stream d.as_user e)) k
  handle_message-AllFresh no_command d e k = k
  handle_message-AllFresh unknown_command d e k = k

  process_entry-AllFresh :
      (client : Text) (c : Option Command) (e : Engine)
      → AllFresh e
      → AllFresh (process_entry w p client c e).1
  unfolding process_entry
  process_entry-AllFresh client none e k = k
  process_entry-AllFresh client (some c) e k = go c.kind
    where
      go :
          (kind : CommandType)
          → AllFresh
              (process_entry w p client (some (record { kind = kind; payload = c.payload })) e).1
      go no_command = k
      go kind = handle_message-AllFresh kind c.payload e k

process_entries-AllFresh :
    (p : ℕ) (clients : ℕ → Text) (i : ℕ) (cs : List (World × Option Command)) (e : Engine)
    → AllFresh e
    → AllFresh (process_entries p clients i cs e)
unfolding process_entries
process_entries-AllFresh p clients i [] e k = k
process_entries-AllFresh p clients i ((w, c) ∷ cs) e k =
    process_entries-AllFresh p clients (i + 1) cs _ (process_entry-AllFresh w p (clients i) c e k)

-- An event that the engine has added to the stream.
abbrev pub FromStream : Engine → Option Incoming → Type 0
FromStream e event =
    (before after : List Envelope) × (v : Envelope) × (e.stream ≡ before ++ v ∷ after)
    × (event ≡ some (received v))

FromStream-IsFresh :
    (e : Engine) (event : Option Incoming) → AllFresh e → FromStream e event → IsFresh event
FromStream-IsFresh e event k (before, after, v, there, same) = subst IsFresh (sym same) (
    received-IsFresh v (
      All-middle (λ v. IsFreshData v.payload) before v after
        (subst (All (λ v. IsFreshData v.payload)) there k)))

-- An engine that has added nothing to the stream processes any entries, and a worker is given events that
-- the engine has added since, in any order, any of them any number of times, under whatever conditions: from tables
-- in which every trade's orders have a row and the rows of the orders say what the trades that name them add
-- up to, it ends in such tables, whether it is through or stopped by an error.
pub engine_to_tables :
    (redis : Redis) (p : ℕ) (clients : ℕ → Text) (cs : List (World × Option Command)) (e : Engine)
    (ds : List (Delivery redis)) (db : Db)
    → e.stream ≡ []
    → All (λ d. FromStream (process_entries p clients 0 cs e) d.event) ds
    → IsFilled db
    → IsFilled (run_worker redis ds db).1
engine_to_tables redis p clients cs e ds db start from k =
    let fresh =
      process_entries-AllFresh p clients 0 cs e
        (subst (All (λ v. IsFreshData v.payload)) (sym start) tt) in
    run_worker-IsFilled redis ds db
      (All-map (λ d. λ h. FromStream-IsFresh (process_entries p clients 0 cs e) d.event fresh h) ds
        from)
      k
