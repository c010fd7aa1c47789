-- ===== src/Engine/Commands/Rebuild.antt =====
-- internal/engine/replay.go: the effect of the commands on the store, live and in a replay.
use golang_predix.Common.{
  ℕ, ◌+◌, ◌≡◌, refl, ap, ◌∙◌, true, false, Option, none, some, List, [], ◌∷◌, All, Text, arith,
  Option-cases, inl, inr, ◌⊎◌, if◌then◌else◌,
}
use golang_predix.Common.Int.{pos, leb_ℤ}
use golang_predix.Common.Dict.{contains, insert}
use golang_predix.Engine.Types.{Order, Store, new_market}
use golang_predix.Engine.Ledger.{create_user}
use golang_predix.Engine.Events.{
  Engine, World, EventType, EventData, order_created, order_data, order_canceled, cancel_data,
  emit_event, emit_cycle, fan_out, next_sequence,
}
use golang_predix.Engine.Orders.{
  Reply, CreateRequest, CancelRequest, is_empty, validate_order, new_order, admit, match_order,
}
use golang_predix.Engine.Handlers.{
  set_store, env_of, create_event, user_created, placed, announce, admit_and_announce,
  create_order_core, create_order, count_answer, cancel_checked, cancel_order, count_canceled,
}
use golang_predix.Engine.Commands.Replay.{apply_command-Quiet}
use golang_predix.Engine.Handlers.Resubmit.{emit_event-store, match_and_report-store}
use golang_predix.Engine.Commands.{
  CommandType, create_order_command, cancel_order_command, get_depth_command,
  get_open_orders_command, create_event_command, user_created_command, no_command, unknown_command,
  Payload, Command, handle_message, replied, process_entry, process_entries, apply_command,
  replay_entries,
}

-- What each command does to the store, without what it tells the outside.
unfoldable pub placed_effect : World → Order → Option Reply × Store → Store
placed_effect w o (some x, s) = s
placed_effect w o (none, s) = (match_order (env_of w) o.id s).1

unfoldable pub create_effect : World → Option CreateRequest → Store → Store
create_effect w none s = s
create_effect w (some q) s =
    let o = new_order w q in
    if leb_ℤ q.quantity (pos 0)
    then s
    else elim (validate_order o) [ some f ↦ s | none ↦ placed_effect w o (admit o s) ]

unfoldable pub cancel_effect : Option CancelRequest → Store → Store
cancel_effect none s = s
cancel_effect (some q) s =
    if is_empty q.order_id then s else (cancel_checked q.order_id q.event_id s).1

unfoldable pub event_effect : Option Text → Store → Store
event_effect none s = s
event_effect (some v) s =
    if is_empty v
    then s
    else if contains v s.markets
    then s
    else record s { markets = insert v new_market s.markets }

unfoldable pub user_effect : Option Text → Store → Store
user_effect none s = s
user_effect (some u) s = if is_empty u then s else create_user u s

unfoldable pub effect : World → CommandType → Payload → Store → Store
effect w create_order_command d s = create_effect w d.as_create s
effect w cancel_order_command d s = cancel_effect d.as_cancel s
effect w create_event_command d s = event_effect d.as_event s
effect w user_created_command d s = user_effect d.as_user s
effect w _ d s = s

unfoldable pub effects : List (World × Option Command) → Store → Store
effects [] s = s
effects ((w, none) ∷ cs) s = effects cs s
effects ((w, some c) ∷ cs) s = effects cs (effect w c.kind c.payload s)

-- The journal and the stream take what the engine emits for the partition.
pub record IsUp (p : ℕ) (w : World) : Type 0 where
  pub encodes : (n : ℕ) → (w.link p n).marshal_ok ≡ true
  pub journals : (n : ℕ) → (w.link p n).append_ok ≡ true
  pub adds : (n : ℕ) → (w.link p n).add_ok ≡ true

-- What is emitted goes nowhere, or is taken.
abbrev pub Concludes : ℕ → World → Engine → Type 0
Concludes p w e = (e.replaying p ≡ true) ⊎ IsUp p w

create_event-effect :
    (v : Option Text) (e : Engine) → (create_event v e).1.store ≡ event_effect v e.store
unfolding create_event event_effect set_store
create_event-effect none e = refl
create_event-effect (some v) e = ground arith

user_created-effect :
    (u : Option Text) (e : Engine) → (user_created u e).1.store ≡ user_effect u e.store
unfolding user_created user_effect set_store
user_created-effect none e = refl
user_created-effect (some u) e = ground arith

module _ (p : ℕ) (w : World) where
  emit_event-none :
      (kind : EventType) (d : EventData) (e : Engine)
      → Concludes p w e
      → (emit_event w p kind d false e).0 ≡ none
  unfolding emit_event emit_cycle fan_out
  emit_event-none kind d e (inl on) = ground (arith, on)
  emit_event-none kind d e (inr up) =
      let n = next_sequence p e in ground (arith, up.encodes n, up.journals n, up.adds n)

  announce-store :
      (r : Text) (e : Engine)
      → Concludes p w e
      → (announce w p r e).1.store ≡ (match_order (env_of w) r e.store).1
  unfolding announce placed
  announce-store r e k =
      let d = order_data (e.store.heap r) in
      rw (emit_event-none order_created d e k, announce)
        (match_and_report-store w p r _
          ∙ ap (λ s. (match_order (env_of w) r s).1) (emit_event-store w p order_created d false e))

  admit_and_announce-store :
      (o : Order) (e : Engine)
      → Concludes p w e
      → (admit_and_announce w p o e).1.store ≡ placed_effect w o (admit o e.store)
  unfolding admit_and_announce set_store placed_effect
  admit_and_announce-store o e k = elim (Option-cases (admit o e.store).0) [
    | inl go ↦
        rw (go, admit_and_announce, placed_effect)
          (announce-store o.id (set_store (admit o e.store).1 e) k)
    | inr (x, stop) ↦ rw (stop, admit_and_announce, placed_effect)
  ]

  create_order-store :
      (q : Option CreateRequest) (e : Engine)
      → Concludes p w e
      → (create_order w p q e).1.store ≡ create_effect w q e.store
  unfolding create_order create_order_core create_effect count_answer
  create_order-store none e k = ground arith
  create_order-store (some q) e k = ground (arith, admit_and_announce-store (new_order w q) e k)

  cancel_order-store :
      (q : Option CancelRequest) (e : Engine)
      → (cancel_order w p q e).1.store ≡ cancel_effect q e.store
  unfolding cancel_order cancel_effect set_store count_canceled
  cancel_order-store none e = refl
  cancel_order-store (some q) e =
      let sent =
        λ (f : Engine). emit_event-store w p order_canceled (cancel_data q.order_id) false f in
      elim (Option-cases (cancel_checked q.order_id q.event_id e.store).0) [
        | inl done ↦
            rw (done, cancel_order)
              (ground (
                arith,
                sent (set_store (cancel_checked q.order_id q.event_id e.store).1 e),
                sent
                    (count_canceled (set_store (cancel_checked q.order_id q.event_id e.store).1 e)),
              ))
        | inr (f, refused) ↦ rw (refused, cancel_order) (ground arith)
      ]

  handle_message-store :
      (k : CommandType) (d : Payload) (e : Engine)
      → Concludes p w e
      → (handle_message w p k d e).1.store ≡ effect w k d e.store
  unfolding handle_message effect replied create_event user_created event_effect user_effect
      set_store
  handle_message-store create_order_command d e go = create_order-store d.as_create e go
  handle_message-store cancel_order_command d e go = cancel_order-store d.as_cancel e
  handle_message-store get_depth_command d e go = refl
  handle_message-store get_open_orders_command d e go = refl
  handle_message-store create_event_command d e go = create_event-effect d.as_event e
  handle_message-store user_created_command d e go = user_created-effect d.as_user e
  handle_message-store no_command d e go = refl
  handle_message-store unknown_command d e go = refl

  entry_store :
      (k : CommandType) (d : Payload) (client : Text) (e : Engine)
      → Concludes p w e
      → let c : Command = record { kind = k; payload = d } in
        ((process_entry w p client (some c) e).1.store ≡ effect w k d e.store)
        × ((apply_command w p c e).store ≡ effect w k d e.store)
  unfolding process_entry apply_command effect
  entry_store no_command d client e go = (refl, refl)
  entry_store k d client e go = (handle_message-store k d e go, handle_message-store k d e go)

module _ (p : ℕ) where
  pub process_entries-store :
      (clients : ℕ → Text) (i : ℕ) (cs : List (World × Option Command)) (e : Engine)
      → All (λ x. IsUp p x.0) cs
      → (process_entries p clients i cs e).store ≡ effects cs e.store
  unfolding process_entries process_entry effects effect
  process_entries-store clients i [] e ups = refl
  process_entries-store clients i ((w, none) ∷ cs) e (up, ups) =
      process_entries-store clients (i + 1) cs e ups
  process_entries-store clients i ((w, some c) ∷ cs) e (up, ups) =
      process_entries-store clients (i + 1) cs (process_entry w p (clients i) (some c) e).1 ups
      ∙ ap (effects cs) (entry_store p w c.kind c.payload (clients i) e (inr up)).0

  -- A replay emits nothing, so that it does not matter what the journal and the stream take.
  pub replay_entries-store :
      (cs : List (World × Option Command)) (e : Engine)
      → e.replaying p ≡ true
      → (replay_entries p cs e).store ≡ effects cs e.store
  unfolding replay_entries effects
  replay_entries-store [] e on = refl
  replay_entries-store ((w, none) ∷ cs) e on = replay_entries-store cs e on
  replay_entries-store ((w, some c) ∷ cs) e on =
      replay_entries-store cs (apply_command w p c e)
        (ap (λ f. f p) (apply_command-Quiet w p c.kind c.payload e on).mode ∙ on)
      ∙ ap (effects cs) (entry_store p w c.kind c.payload [] e (inl on)).1
