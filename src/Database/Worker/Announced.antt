-- ===== src/Database/Worker/Announced.antt =====
-- internal/engine/engine.go and internal/dbworker/worker.go: the orders that the engine announces are
-- unfilled, and what that makes of the tables.
use golang_predix.Common.{
  ℕ, ◌≡◌, refl, ◌∙◌, sym, ap, subst, inl, inr, Bool, true, false, not, ◌&&◌, ◌||◌, Option, none,
  some, List, [], ◌∷◌, ◌++◌, All, All-append, Text, Bool-cases, Option-cases, if◌then◌else◌, arith,
}
use golang_predix.Common.Int.{pos, leb_ℤ, ◌-ℤ◌}
use golang_predix.Engine.Types.{Order, Trade, Store, update}
use golang_predix.Engine.Ledger.{
  put_locked, put_balance, put_position, reserve_funds, reserve_shares, reserve_order,
}
use golang_predix.Engine.Events.{
  EventType, trade_executed, order_created, EventData, trade_data, order_data, cancel_data,
  Envelope, Engine, World, Link, append_outbox, reset_outbox, set_sequence, new_envelope, fan_out,
  emit_cycle, emit_event,
}
use golang_predix.Engine.Orders.{CreateRequest, validate_order, new_order, register, admit}
use golang_predix.Engine.Handlers.{
  set_store, count_filled, publish_trades, match_and_report, placed, announce, admit_and_announce,
  create_order_core, count_answer, create_order,
}
use golang_predix.Database.Queries.{greatest_zero}
use golang_predix.Database.Worker.{received, order_row}
use golang_predix.Database.Worker.Keeps.{IsUnfilled, OnlyUnfilled, IsFresh}

-- A payload that announces no order but an unfilled one.
abbrev pub IsFreshData : EventData → Type 0
IsFreshData (order_data o) = IsUnfilled o
IsFreshData (trade_data t) = Unit
IsFreshData (cancel_data r) = Unit

-- So does every envelope that this engine has added to the stream.
abbrev pub AllFresh : Engine → Type 0
AllFresh e = All (λ v. IsFreshData v.payload) e.stream

pub received-IsFresh : (v : Envelope) → IsFreshData v.payload → IsFresh (some (received v))
unfolding received
received-IsFresh v h = go v.payload h
  where
    go :
        (d : EventData) → IsFreshData d → OnlyUnfilled (elim d [ order_data o ↦ some o | _ ↦ none ])
    go (order_data o) k = k
    go (trade_data t) k = tt
    go (cancel_data r) k = tt

-- Whether a cycle reaches the stream.
abbrev reaches : Link → Engine → Bool
reaches l e = l.marshal_ok && (not e.has_outbox || l.append_ok) && l.add_ok

emit_cycle-stream :
    (l : Link) (broadcast : Bool) (v : Envelope) (e : Engine)
    → (emit_cycle l broadcast v e).1.stream ≡ (if reaches l e then e.stream ++ v ∷ [] else e.stream)
unfolding emit_cycle fan_out append_outbox reset_outbox
emit_cycle-stream l broadcast v e = ground arith

emit_cycle-AllFresh :
    (l : Link) (broadcast : Bool) (v : Envelope) (e : Engine)
    → IsFreshData v.payload
    → AllFresh e
    → AllFresh (emit_cycle l broadcast v e).1
emit_cycle-AllFresh l broadcast v e h k = elim (Bool-cases (reaches l e)) [
  | inl there ↦
      rw (emit_cycle-stream l broadcast v e, there)
        (All-append (λ v. IsFreshData v.payload) e.stream _ k (h, tt))
  | inr not_there ↦ rw (emit_cycle-stream l broadcast v e, not_there) k
]

pub emit_event-AllFresh :
    (w : World) (p : ℕ) (kind : EventType) (d : EventData) (broadcast : Bool) (e : Engine)
    → IsFreshData d
    → AllFresh e
    → AllFresh (emit_event w p kind d broadcast e).1
unfolding emit_event set_sequence new_envelope
emit_event-AllFresh w p kind d broadcast e h k = elim (Bool-cases (e.replaying p)) [
  | inl on ↦ rw on k
  | inr off ↦ rw off (elim (Bool-cases e.has_redis) [
    | inl connected ↦ rw connected (emit_cycle-AllFresh _ broadcast _ _ h k)
    | inr alone ↦ rw alone k
  ])
]

-- Two orders of as many shares, of which as many are filled and remain.
abbrev SameShares : Order → Order → Type 0
SameShares o q =
    (o.quantity ≡ q.quantity)
    × (o.filled_quantity ≡ q.filled_quantity)
    × (o.remaining_quantity ≡ q.remaining_quantity)

SameShares-IsUnfilled : (o q : Order) → SameShares o q → IsUnfilled q → IsUnfilled o
unfolding order_row
SameShares-IsUnfilled o q (a, b, c) h = record {
  filled = b ∙ h.filled;
  remaining = c ∙ (h.remaining ∙ ap (λ x. greatest_zero (x -ℤ pos 0)) (sym a));
}

reserve_order-SameShares :
    (r : Text) (s : Store) → SameShares ((reserve_order r s).1.heap r) (s.heap r)
unfolding reserve_order reserve_funds reserve_shares put_locked put_balance put_position update
reserve_order-SameShares r s = ground arith

admit-SameShares :
    (o : Order) (s : Store) → (admit o s).0 ≡ none → SameShares ((admit o s).1.heap o.id) o
unfolding admit register update
admit-SameShares o s go =
    let (a, b, c) = reserve_order-SameShares o.id (record s { heap = update o.id o s.heap }) in
    ground (arith, a, b, c)

new_order-IsUnfilled :
    (w : World) (q : CreateRequest) → leb_ℤ q.quantity (pos 0) ≡ false → IsUnfilled (new_order w q)
unfolding new_order order_row greatest_zero ◌-ℤ◌
new_order-IsUnfilled w q h = record { filled = refl; remaining = ground arith }

module _ (w : World) (p : ℕ) where
  publish_trades-AllFresh :
      (ts : List Trade) (e : Engine) → AllFresh e → AllFresh (publish_trades w p ts e)
  unfolding publish_trades
  publish_trades-AllFresh [] e k = k
  publish_trades-AllFresh (t ∷ ts) e k =
      publish_trades-AllFresh ts _
        (emit_event-AllFresh w p trade_executed (trade_data t) true _ tt k)

  count_filled-stream : (b : Bool) (e : Engine) → (count_filled b e).stream ≡ e.stream
  unfolding count_filled
  count_filled-stream b e = ground arith

  match_and_report-AllFresh :
      (r : Text) (e : Engine) → AllFresh e → AllFresh (match_and_report w p r e)
  unfolding match_and_report set_store
  match_and_report-AllFresh r e k = elim (Bool-cases (e.replaying p)) [
    | inl on ↦ rw on k
    | inr off ↦ rw off (
        publish_trades-AllFresh _ _
          (subst (All (λ v. IsFreshData v.payload)) (sym (count_filled-stream _ _)) k))
  ]

  announce-AllFresh :
      (r : Text) (e : Engine)
      → IsUnfilled (e.store.heap r)
      → AllFresh e
      → AllFresh (announce w p r e).1
  unfolding announce placed set_store
  announce-AllFresh r e h k =
      let told = emit_event-AllFresh w p order_created (order_data (e.store.heap r)) false e h k in
      elim (Option-cases (emit_event w p order_created (order_data (e.store.heap r)) false e).0) [
        | inl e' ↦ rw (e', announce) (match_and_report-AllFresh r _ told)
        | inr (x, e') ↦ rw (e', announce) told
      ]

  admit_and_announce-AllFresh :
      (o : Order) (e : Engine) → IsUnfilled o → AllFresh e → AllFresh (admit_and_announce w p o e).1
  unfolding admit_and_announce set_store
  admit_and_announce-AllFresh o e h k = elim (Option-cases (admit o e.store).0) [
    | inl go ↦
        rw (go, admit_and_announce)
          (announce-AllFresh o.id _ (SameShares-IsUnfilled _ o (admit-SameShares o e.store go) h) k)
    | inr (x, e') ↦ rw (e', admit_and_announce) k
  ]

  create_order_core-AllFresh :
      (q : Option CreateRequest) (e : Engine) → AllFresh e → AllFresh (create_order_core w p q e).1
  unfolding create_order_core
  create_order_core-AllFresh none e k = k
  create_order_core-AllFresh (some q) e k = elim (Bool-cases (leb_ℤ q.quantity (pos 0))) [
    | inl bad ↦ rw bad k
    | inr good ↦ rw good (elim (Option-cases (validate_order (new_order w q))) [
      | inl valid ↦
          rw (valid, create_order_core)
            (admit_and_announce-AllFresh (new_order w q) e (new_order-IsUnfilled w q good) k)
      | inr (f, refused) ↦ rw (refused, create_order_core) k
    ])
  ]

  count_answer-stream : (b : Bool) (e : Engine) → (count_answer b e).stream ≡ e.stream
  unfolding count_answer
  count_answer-stream b e = ground arith

  pub create_order-AllFresh :
      (q : Option CreateRequest) (e : Engine) → AllFresh e → AllFresh (create_order w p q e).1
  unfolding create_order
  create_order-AllFresh q e k =
      let next = create_order_core-AllFresh q e k in
      elim (Bool-cases ((create_order_core w p q e).1.replaying p)) [
        | inl on ↦ rw on next
        | inr off ↦
            rw off (subst (All (λ v. IsFreshData v.payload)) (sym (count_answer-stream _ _)) next)
      ]
