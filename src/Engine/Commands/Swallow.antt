-- ===== src/Engine/Commands/Swallow.antt =====
-- internal/engine/replay.go and internal/engine/engine.go: a replay runs the whole stream of a partition, also the
-- commands that no engine has consumed yet.
use golang_predix.Common.{
  ℕ, ◌≡◌, refl, ap, ◌∙◌, true, false, Bool-cases, Option, Option-cases, none, some, List, [], ◌∷◌,
  ◌++◌, Text, inl, inr, arith,
}
use golang_predix.Common.Int.{pos, leb_ℤ}
use golang_predix.Engine.Types.{registered}
use golang_predix.Engine.Events.{Engine, World}
use golang_predix.Engine.Orders.{CreateRequest, is_empty, new_order, validate_order}
use golang_predix.Engine.Handlers.{create_order_core, count_answer, create_order}
use golang_predix.Engine.Handlers.Resubmit.{is_placed, core-registered, admit_known, new_order-id}
use golang_predix.Engine.Commands.{
  Command, create_order_command, Payload, handle_message, replied, process_entry, process_entries,
  apply_command, replay_entries, set_replaying, replay_command_log,
}
use golang_predix.Engine.Commands.Silence.{Silent}
use golang_predix.Engine.Commands.Replay.{replay_is_Silent}
use golang_predix.Engine.Commands.Keep.{Knows, process_entries_keeps, replay_entries_keeps}

-- A request for a registered order changes nothing.
core_known :
    (w : World) (p : ℕ) (q : CreateRequest) (e : Engine)
    → is_empty q.order_id ≡ false
    → Knows q.order_id e
    → (create_order_core w p (some q) e).1 ≡ e
unfolding create_order_core
core_known w p q e named k = elim (Bool-cases (leb_ℤ q.quantity (pos 0))) [
  | inl bad ↦ rw bad refl
  | inr good ↦ rw good (elim (Option-cases (validate_order (new_order w q))) [
    | inl valid ↦
        let known = ap (λ r. registered r e.store.orders) (new_order-id w q named) ∙ k in
        rw (valid, create_order_core) (ap (λ x. x.1) (admit_known w p (new_order w q) e known))
    | inr (f, invalid) ↦ rw (invalid, create_order_core) refl
  ])
]

-- What the outside sees of an engine, and its store, but for the counters.
abbrev pub SameOutput : Engine → Engine → Type 0
SameOutput e f =
    (f.store ≡ e.store) × (f.stream ≡ e.stream) × (f.channel ≡ e.channel) × (f.outbox ≡ e.outbox)

count_answer-SameOutput :
    (w : World) (p : ℕ) (q : CreateRequest) (e : Engine)
    → (create_order_core w p (some q) e).1 ≡ e
    → SameOutput e (create_order w p (some q) e).1
unfolding create_order count_answer
count_answer-SameOutput w p q e same = ground (arith, same)

replay_entries-append :
    (p : ℕ) (xs ys : List (World × Option Command)) (e : Engine)
    → replay_entries p (xs ++ ys) e ≡ replay_entries p ys (replay_entries p xs e)
unfolding replay_entries
replay_entries-append p [] ys e = refl
replay_entries-append p ((w, none) ∷ xs) ys e = replay_entries-append p xs ys e
replay_entries-append p ((w, some c) ∷ xs) ys e =
    replay_entries-append p xs ys (apply_command w p c e)

replay_command_log-some :
    (p : ℕ) (cs : List (World × Option Command)) (e : Engine)
    → e.has_redis ≡ true
    → (replay_command_log p (some cs) e).store
      ≡ (replay_entries p cs (set_replaying p true e)).store
unfolding replay_command_log set_replaying
replay_command_log-some p cs e redis = ground (arith, redis)

-- The command to place an order.
abbrev pub placing : Payload → Command
placing d = record { kind = create_order_command; payload = d }

module _ (p : ℕ) (w : World) (q : CreateRequest) (d : Payload)
    (is_create : d.as_create ≡ some q) where
  apply_placing :
      (e : Engine)
      → (apply_command w p (placing d) e).store ≡ (create_order_core w p (some q) e).1.store
  unfolding apply_command handle_message replied create_order count_answer
  apply_placing e = ground (arith, is_create)

  consume_placing :
      (client : Text) (e : Engine)
      → is_empty q.order_id ≡ false
      → Knows q.order_id e
      → SameOutput e (process_entry w p client (some (placing d)) e).1
  unfolding process_entry handle_message replied
  consume_placing client e named k =
      rw is_create (count_answer-SameOutput w p q e (core_known w p q e named k))

  replay-Knows :
      (before after : List (World × Option Command)) (e : Engine)
      → is_empty q.order_id ≡ false
      → e.has_redis ≡ true
      → is_placed
          (create_order_core w p (some q) (replay_entries p before (set_replaying p true e))).0
        ≡ true
      → Knows q.order_id (replay_command_log p (some (before ++ (w, some (placing d)) ∷ after)) e)
  replay-Knows before after e named redis done =
      let f = replay_entries p before (set_replaying p true e) in
      let there : Knows q.order_id (apply_command w p (placing d) f) =
        ap (λ s. registered q.order_id s.orders) (apply_placing f)
        ∙ core-registered w p q f named done in
      let end : Knows q.order_id
          (replay_entries p (before ++ (w, some (placing d)) ∷ after) (set_replaying p true e)) =
        rw (replay_entries-append p before ((w, some (placing d)) ∷ after) (set_replaying p true e))
          (unfold replay_entries in
            replay_entries_keeps q.order_id p after (apply_command w p (placing d) f) there) in
      ap (λ s. registered q.order_id s.orders)
        (replay_command_log-some p (before ++ (w, some (placing d)) ∷ after) e redis)
      ∙ end

-- An order that a replay places is never announced. Where an engine with Redis replays a stream, with a command for an order
-- with an id of its own that the replay places, then the replay shows nothing of it: it leaves the journal, the
-- stream, the channel, the sequence numbers and the counters of accepted, rejected, canceled and filled orders and of trades as
-- they were. And when the engine consumes this command after that, behind any other entries, as it does where no engine
-- had consumed it before the replay, then it adds nothing to the stream of events, the channel and the journal either,
-- and leaves the store as it is.
pub replay_swallows :
    (p : ℕ) (w w' : World) (q : CreateRequest) (d : Payload)
    (before after : List (World × Option Command)) (e : Engine) (clients : ℕ → Text) (i : ℕ)
    (earlier : List (World × Option Command)) (client : Text)
    → (is_create : d.as_create ≡ some q) → is_empty q.order_id ≡ false
    → e.has_redis ≡ true
    → is_placed
        (create_order_core w p (some q) (replay_entries p before (set_replaying p true e))).0
      ≡ true
    → let f = replay_command_log p (some (before ++ (w, some (placing d)) ∷ after)) e in
      let g = process_entries p clients i earlier f in
      Silent e f × SameOutput g (process_entry w' p client (some (placing d)) g).1
replay_swallows p w w' q d before after e clients i earlier client is_create named redis done =
    let log = some (before ++ (w, some (placing d)) ∷ after) in
    let f = replay_command_log p log e in
    (
      replay_is_Silent p log e,
      consume_placing p w' q d is_create client (process_entries p clients i earlier f) named (
          process_entries_keeps q.order_id p clients i earlier f
            (replay-Knows p w q d is_create before after e named redis done)),
    )
