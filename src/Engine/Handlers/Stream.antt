-- ===== src/Engine/Handlers/Stream.antt =====
-- internal/engine/engine.go: what the creation of an order adds to the stream of events.
use golang_predix.Common.{
  ℕ, ◌+◌, ◌≡◌, sym, ap, ◌∙◌, true, false, not, ◌&&◌, ◌||◌, Bool, if◌then◌else◌, Bool-cases,
  Option-cases, none, some, List, [], ◌∷◌, ◌++◌, Text, inl, inr, arith,
}
use mathlib.Core.List.{append-nil, append_assoc}
use golang_predix.Engine.Types.{Order, Trade, Store, update, update_lem}
use golang_predix.Engine.Ledger.{
  reserve_order, reserve_funds, reserve_shares, put_balance, put_position, put_locked,
}
use golang_predix.Engine.Events.{
  EventType, order_created, trade_executed, EventData, order_data, trade_data, Envelope, Engine,
  World, token_of, new_envelope, next_sequence, set_sequence, append_outbox, reset_outbox, fan_out,
  emit_cycle, emit_event,
}
use golang_predix.Engine.Orders.{CreateRequest, new_order, register, admit, match_order}
use golang_predix.Engine.Matching.{is_filled}
use golang_predix.Engine.Handlers.Resubmit.{is_placed, not_placed, core_passed}
use golang_predix.Engine.Handlers.{
  set_store, env_of, count_filled, publish_trades, match_and_report, placed, announce,
  admit_and_announce, create_order_core, count_answer, create_order,
}

-- The stream of an engine has grown.
abbrev Grown : Engine → Engine → Type 0
Grown e f = (rest : List Envelope) × (f.stream ≡ e.stream ++ rest)

Grown-trans : (e f g : Engine) → Grown e f → Grown f g → Grown e g
Grown-trans e f g (xs, p) (ys, q) =
    (xs ++ ys, q ∙ (ap (λ t. t ++ ys) p ∙ append_assoc e.stream xs ys))

Grown-from : (e f g : Engine) → f.stream ≡ e.stream → Grown f g → Grown e g
Grown-from e f g same (xs, q) = (xs, q ∙ ap (λ t. t ++ xs) same)

count_filled-stream : (b : Bool) (e : Engine) → (count_filled b e).stream ≡ e.stream
unfolding count_filled
count_filled-stream b e = ground arith

module _ (w : World) (p : ℕ) where
  -- What an emission adds to the stream.
  new_lines : EventType → EventData → Engine → List Envelope
  new_lines kind d e =
      let n = next_sequence p e in
      let l = w.link p n in
      let v = new_envelope w kind d p (token_of (e.partition_token p)) n in
      if e.replaying p
      then []
      else if e.has_redis && l.marshal_ok && (not e.has_outbox || l.append_ok) && l.add_ok
      then v ∷ []
      else []

  emit_event-Grown :
      (kind : EventType) (d : EventData) (b : Bool) (e : Engine)
      → Grown e (emit_event w p kind d b e).1
  unfolding emit_event emit_cycle fan_out append_outbox reset_outbox set_sequence new_lines
  emit_event-Grown kind d b e = (new_lines kind d e, ground (arith, append-nil e.stream))

  emit_event-streamed :
      (kind : EventType) (d : EventData) (b : Bool) (e : Engine)
      → e.replaying p ≡ false
      → e.has_redis ≡ true
      → (emit_event w p kind d b e).0 ≡ none
      → (emit_event w p kind d b e).1.stream
        ≡ e.stream
          ++ new_envelope w kind d p (token_of (e.partition_token p)) (next_sequence p e) ∷ []
  unfolding emit_event emit_cycle fan_out append_outbox reset_outbox set_sequence
  emit_event-streamed kind d b e live redis sent = ground arith

  publish_trades-Grown : (ts : List Trade) (e : Engine) → Grown e (publish_trades w p ts e)
  unfolding publish_trades
  publish_trades-Grown [] e = ([], sym (append-nil e.stream))
  publish_trades-Grown (t ∷ ts) e =
      let m = e.metrics in
      let counted = record e { metrics = record m { trades_executed = m.trades_executed + 1 } } in
      let sent = (emit_event w p trade_executed (trade_data t) true counted).1 in
      Grown-trans e sent (publish_trades w p ts sent)
        (emit_event-Grown trade_executed (trade_data t) true counted) (publish_trades-Grown ts sent)

  match_and_report-Grown : (r : Text) (e : Engine) → Grown e (match_and_report w p r e)
  unfolding match_and_report set_store
  match_and_report-Grown r e =
      let (trades, s) = match_order (env_of w) r e.store in
      let e' = set_store s e in
      let counted = count_filled (is_filled (s.heap r).status) e' in
      elim (Bool-cases (e.replaying p)) [
        | inl on ↦ rw on ([], sym (append-nil e.stream))
        | inr off ↦ rw off (
            Grown-from e counted (publish_trades w p trades counted)
              (count_filled-stream (is_filled (s.heap r).status) e')
              (publish_trades-Grown trades counted))
      ]

  -- The announcement of an order that is being admitted.
  unfoldable pub announcement : Order → Engine → Envelope
  announcement o e =
      new_envelope w order_created (order_data ((admit o e.store).1.heap o.id)) p
        (token_of (e.partition_token p)) (next_sequence p e)

  announce-Grown :
      (o : Order) (e : Engine)
      → e.replaying p ≡ false
      → e.has_redis ≡ true
      → (admit o e.store).0 ≡ none
      → is_placed (announce w p o.id (set_store (admit o e.store).1 e)).0 ≡ true
      → (rest : List Envelope) × ((announce w p o.id (set_store (admit o e.store).1 e)).1.stream
          ≡ e.stream ++ announcement o e ∷ rest)
  unfolding announce placed set_store announcement new_envelope next_sequence
  announce-Grown o e live redis go done =
      let f = set_store (admit o e.store).1 e in
      let d = order_data (f.store.heap o.id) in
      let g = (emit_event w p order_created d false f).1 in
      elim (Option-cases (emit_event w p order_created d false f).0) [
        | inr (x, lost) ↦ absurd (cc (rw (lost, announce) at done))
        | inl sent ↦
            let (rest, more) = match_and_report-Grown o.id g in
            let line = emit_event-streamed order_created d false f live redis sent in
            (
              rest,
              rw (sent, announce)
                  (more ∙ (ap (λ t. t ++ rest) line ∙ append_assoc e.stream (_ ∷ []) rest)),
            )
      ]

  core-announced :
      (q : CreateRequest) (e : Engine)
      → e.replaying p ≡ false
      → e.has_redis ≡ true
      → is_placed (create_order_core w p (some q) e).0 ≡ true
      → (rest : List Envelope) × ((create_order_core w p (some q) e).1.stream
          ≡ e.stream ++ announcement (new_order w q) e ∷ rest)
  core-announced q e live redis done =
      let (some_quantity, valid, ran) = core_passed w p q e done in
      let o = new_order w q in
      let placed_ : is_placed (admit_and_announce w p o e).0 ≡ true = rw ran at done in
      rw ran (
        unfold admit_and_announce in
        elim (Option-cases (admit o e.store).0) [
          | inl go ↦
              rw (go, admit_and_announce)
                (announce-Grown o e live redis go (rw (go, admit_and_announce) at placed_))
          | inr (x, stop) ↦
              absurd (not_placed o e.store x stop (rw (stop, admit_and_announce) at placed_))
        ])

  -- An order that is placed outside a replay is the first thing that its creation announces.
  pub create_order-announced :
      (q : CreateRequest) (e : Engine)
      → e.replaying p ≡ false
      → e.has_redis ≡ true
      → is_placed (create_order_core w p (some q) e).0 ≡ true
      → (rest : List Envelope) × ((create_order w p (some q) e).1.stream
          ≡ e.stream ++ announcement (new_order w q) e ∷ rest)
  unfolding create_order count_answer
  create_order-announced q e live redis done =
      let (rest, grown) = core-announced q e live redis done in (rest, ground (arith, grown))

reserve_order-id : (r : Text) (s : Store) → (((reserve_order r s).1.heap r).id) ≡ (s.heap r).id
unfolding reserve_order reserve_funds reserve_shares put_balance put_position put_locked update
reserve_order-id r s = ground arith

-- The announced order has the id of the order.
pub admit-id : (o : Order) (s : Store) → (admit o s).0 ≡ none → ((admit o s).1.heap o.id).id ≡ o.id
unfolding admit register
admit-id o s go =
    let t = record s { heap = update o.id o s.heap } in
    ground (arith, reserve_order-id o.id t, update_lem o.id o.id o s.heap)
