-- ===== src/Engine/Commands/Replay.antt =====
-- internal/engine/replay.go: a replay rebuilds the state of the engine and reports nothing.
use golang_predix.Common.{
  if◌then◌else◌, ℕ, ◌≡◌, refl, ap, ◌∙◌, true, false, Bool, Option, none, some, List, [], ◌∷◌, Text,
  arith, Bool-cases, Option-cases, inl, inr,
}
use golang_predix.Engine.Types.{Order}
use golang_predix.Engine.Events.{
  Engine, World, EventType, order_created, order_canceled, EventData, order_data, cancel_data,
  emit_event,
}
use golang_predix.Common.Int.{pos, leb_ℤ}
use golang_predix.Common.Dict.{contains}
use golang_predix.Engine.Orders.{
  CreateRequest, CancelRequest, is_empty, admit, new_order, validate_order,
}
use golang_predix.Engine.Handlers.{
  set_store, create_event, user_created, match_and_report, placed, announce, admit_and_announce,
  create_order_core, create_order, cancel_order, cancel_checked,
}
use golang_predix.Engine.Commands.Silence.{
  Silent, Quiet, Silent-refl, Silent-trans, Quiet-refl, Quiet-trans, set_store-Quiet,
}
use golang_predix.Engine.Commands.{
  Command, CommandType, create_order_command, cancel_order_command, get_depth_command,
  get_open_orders_command, create_event_command, user_created_command, no_command, unknown_command,
  Payload, handle_message, replied, apply_command, replay_entries, set_replaying,
  replay_command_log,
}

create_event-Quiet : (v : Option Text) (e : Engine) → Quiet e (create_event v e).1
unfolding create_event
create_event-Quiet none e = Quiet-refl e
create_event-Quiet (some v) e = elim (Bool-cases (is_empty v)) [
  | inl bad ↦ rw bad (Quiet-refl e)
  | inr good ↦ rw good (elim (Bool-cases (contains v e.store.markets)) [
    | inl known ↦ rw known (Quiet-refl e)
    | inr new ↦ rw new (set_store-Quiet _ e)
  ])
]

user_created-Quiet : (u : Option Text) (e : Engine) → Quiet e (user_created u e).1
unfolding user_created
user_created-Quiet none e = Quiet-refl e
user_created-Quiet (some u) e = elim (Bool-cases (is_empty u)) [
  | inl bad ↦ rw bad (Quiet-refl e)
  | inr good ↦ rw good (set_store-Quiet _ e)
]

set_replaying-Silent : (p : ℕ) (b : Bool) (e : Engine) → Silent e (set_replaying p b e)
unfolding set_replaying
set_replaying-Silent p b e = record {
  outbox = refl;
  stream = refl;
  channel = refl;
  sequences = refl;
  accepted = refl;
  rejected = refl;
  canceled = refl;
  filled = refl;
  trades = refl;
}

pub set_replaying_self : (p : ℕ) (e : Engine) → (set_replaying p true e).replaying p ≡ true
unfolding set_replaying
set_replaying_self p e = ground arith

if-Silent : {e f g : Engine} (b : Bool) → Silent e f → Silent e g → Silent e (if b then f else g)
if-Silent true x y = x
if-Silent false x y = y

module _ (w : World) (p : ℕ) where
  emit_nothing :
      (kind : EventType) (d : EventData) (b : Bool) (e : Engine)
      → e.replaying p ≡ true
      → emit_event w p kind d b e ≡ (none, e)
  unfolding emit_event
  emit_nothing kind d b e on = rw on

  placed-Quiet :
      (r : Text) (e : Engine)
      → e.replaying p ≡ true
      → Quiet e (placed r (match_and_report w p r e)).1
  unfolding placed match_and_report set_store
  placed-Quiet r e on = rw on (record {
    silent = record {
      outbox = refl;
      stream = refl;
      channel = refl;
      sequences = refl;
      accepted = refl;
      rejected = refl;
      canceled = refl;
      filled = refl;
      trades = refl;
    };
    mode = refl;
  })

  announce-Quiet : (r : Text) (e : Engine) → e.replaying p ≡ true → Quiet e (announce w p r e).1
  unfolding announce
  announce-Quiet r e on =
      let silence = emit_nothing order_created (order_data (e.store.heap r)) false e on in
      rw (silence, announce, silence) (placed-Quiet r e on)

  admit-Quiet :
      (o : Order) (e : Engine) → e.replaying p ≡ true → Quiet e (admit_and_announce w p o e).1
  unfolding admit_and_announce set_store
  admit-Quiet o e on = elim (Option-cases (admit o e.store).0) [
    | inl go ↦
        rw (go, admit_and_announce)
          (Quiet-trans (set_store-Quiet _ e)
            (announce-Quiet o.id (set_store (admit o e.store).1 e) on))
    | inr (x, stop) ↦ rw (stop, admit_and_announce) (set_store-Quiet _ e)
  ]

  core-Quiet :
      (q : Option CreateRequest) (e : Engine)
      → e.replaying p ≡ true
      → Quiet e (create_order_core w p q e).1
  unfolding create_order_core
  core-Quiet none e on = Quiet-refl e
  core-Quiet (some q) e on = elim (Bool-cases (leb_ℤ q.quantity (pos 0))) [
    | inl bad ↦ rw bad (Quiet-refl e)
    | inr good ↦ rw good (elim (Option-cases (validate_order (new_order w q))) [
      | inl valid ↦ rw (valid, create_order_core) (admit-Quiet (new_order w q) e on)
      | inr (f, invalid) ↦ rw (invalid, create_order_core) (Quiet-refl e)
    ])
  ]

  create_order-Quiet :
      (q : Option CreateRequest) (e : Engine)
      → e.replaying p ≡ true
      → Quiet e (create_order w p q e).1
  unfolding create_order
  create_order-Quiet q e on =
      let k = core-Quiet q e on in
      let still : (create_order_core w p q e).1.replaying p ≡ true = ap (λ f. f p) k.mode ∙ on in
      rw still k

  cancel_order-Quiet :
      (q : Option CancelRequest) (e : Engine)
      → e.replaying p ≡ true
      → Quiet e (cancel_order w p q e).1
  unfolding cancel_order
  cancel_order-Quiet none e on = Quiet-refl e
  cancel_order-Quiet (some q) e on = elim (Bool-cases (is_empty q.order_id)) [
    | inl bad ↦ rw bad (Quiet-refl e)
    | inr good ↦
        let s = (cancel_checked q.order_id q.event_id e.store).1 in
        let e' = set_store s e in
        let on' : e'.replaying p ≡ true = ap (λ f. f p) (set_store-Quiet s e).mode ∙ on in
        rw good (elim (Option-cases (cancel_checked q.order_id q.event_id e.store).0) [
          | inl done ↦
              rw
                (
                  done,
                  cancel_order,
                  on,
                  emit_nothing order_canceled (cancel_data q.order_id) false e' on',
                )
                (set_store-Quiet s e)
          | inr (f, refused) ↦ rw (refused, cancel_order) (set_store-Quiet s e)
        ])
  ]

  handle_message-Quiet :
      (k : CommandType) (d : Payload) (e : Engine)
      → e.replaying p ≡ true
      → Quiet e (handle_message w p k d e).1
  unfolding handle_message replied
  handle_message-Quiet create_order_command d e on = create_order-Quiet d.as_create e on
  handle_message-Quiet cancel_order_command d e on = cancel_order-Quiet d.as_cancel e on
  handle_message-Quiet get_depth_command d e on = Quiet-refl e
  handle_message-Quiet get_open_orders_command d e on = Quiet-refl e
  handle_message-Quiet create_event_command d e on = create_event-Quiet d.as_event e
  handle_message-Quiet user_created_command d e on = user_created-Quiet d.as_user e
  handle_message-Quiet no_command d e on = Quiet-refl e
  handle_message-Quiet unknown_command d e on = Quiet-refl e

  pub apply_command-Quiet :
      (k : CommandType) (d : Payload) (e : Engine)
      → e.replaying p ≡ true
      → Quiet e (apply_command w p (record { kind = k; payload = d }) e)
  unfolding apply_command
  apply_command-Quiet no_command d e on = Quiet-refl e
  apply_command-Quiet k d e on = handle_message-Quiet k d e on

replay_entries-Quiet :
    (p : ℕ) (cs : List (World × Option Command)) (e : Engine)
    → e.replaying p ≡ true
    → Quiet e (replay_entries p cs e)
unfolding replay_entries
replay_entries-Quiet p [] e on = Quiet-refl e
replay_entries-Quiet p ((w, none) ∷ cs) e on = replay_entries-Quiet p cs e on
replay_entries-Quiet p ((w, some c) ∷ cs) e on =
    let first = apply_command-Quiet w p c.kind c.payload e on in
    Quiet-trans first
      (replay_entries-Quiet p cs (apply_command w p c e) (ap (λ f. f p) first.mode ∙ on))

-- A replay of any stream leaves the journal, the stream, the channel, the sequence numbers and the
-- counters of accepted, rejected, canceled and filled orders and of trades as they were.
pub replay_is_Silent :
    (p : ℕ) (cs : Option (List (World × Option Command))) (e : Engine)
    → Silent e (replay_command_log p cs e)
unfolding replay_command_log
replay_is_Silent p none e = Silent-refl e
replay_is_Silent p (some cs) e =
    let started = set_replaying p true e in
    let k = replay_entries-Quiet p cs started (set_replaying_self p e) in
    if-Silent e.has_redis
      (Silent-trans (set_replaying-Silent p true e)
        (Silent-trans k.silent (set_replaying-Silent p false _)))
      (Silent-refl e)
