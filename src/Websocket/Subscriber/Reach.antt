-- ===== src/Websocket/Subscriber/Reach.antt =====
-- internal/engine/engine.go, `matchOrder`, and internal/websocket: from the trades of a match to the clients.
use golang_predix.Common.{
  ℕ, suc, ◌+◌, ◌≤◌, ◌≡◌, refl, sym, ap, subst, ◌∙◌, Bool, true, false, Bool-cases, some, List, [],
  ◌∷◌, ◌++◌, length, length-append, map, inl, inr, if◌then◌else◌, arith,
}
use mathlib.Core.List.{append-nil, append_assoc}
use golang_predix.Common.Dict.{Dict}
use golang_predix.Engine.Types.{Trade}
use golang_predix.Engine.Events.{
  EventType, trade_executed, EventData, trade_data, Envelope, Engine, World, token_of, new_envelope,
  next_sequence, set_sequence, append_outbox, reset_outbox, fan_out, emit_cycle, emit_event,
}
use golang_predix.Engine.Handlers.{publish_trades}
use golang_predix.Websocket.Client.{Message, Client, trade_message, send_buffer_size}
use golang_predix.Websocket.Hub.{Hub, broadcast_event}
use golang_predix.Websocket.Hub.Tables.{follows, IsProper}
use golang_predix.Websocket.Hub.Broadcast.{reached, broadcast_event-reaches}
use golang_predix.Websocket.Subscriber.{
  Selected, trade_summary, handle_trade, handle, run_subscriber, heard,
}

-- Redis and the disk take what is emitted for a partition, and the channel too.
pub record IsHeard (p : ℕ) (w : World) : Type 0 where
  pub encodes : (n : ℕ) → (w.link p n).marshal_ok ≡ true
  pub journals : (n : ℕ) → (w.link p n).append_ok ≡ true
  pub adds : (n : ℕ) → (w.link p n).add_ok ≡ true
  pub publishes : (n : ℕ) → (w.link p n).publish_ok ≡ true

-- Envelopes that announce trades, one each, in their order.
abbrev pub Tells : List Envelope → List Trade → Type 0
Tells [] [] = Unit
Tells (v ∷ vs) (t ∷ ts) = (v.kind ≡ trade_executed) × (v.payload ≡ trade_data t) × Tells vs ts
Tells _ _ = ⊥

-- An engine that emits for a partition.
abbrev pub IsLive : ℕ → Engine → Type 0
IsLive p e = (e.replaying p ≡ false) × (e.has_redis ≡ true)

module _ (w : World) (p : ℕ) (up : IsHeard p w) where
  emit_event-published :
      (kind : EventType) (d : EventData) (e : Engine)
      → IsLive p e
      → let f = (emit_event w p kind d true e).1 in
        (f.channel
          ≡ e.channel
            ++ new_envelope w kind d p (token_of (e.partition_token p)) (next_sequence p e) ∷ [])
        × IsLive p f
  unfolding emit_event emit_cycle fan_out append_outbox reset_outbox set_sequence
  emit_event-published kind d e (live, redis) =
      let n = next_sequence p e in
      ground (arith, up.encodes n, up.journals n, up.adds n, up.publishes n)

  -- The trades of a match go to the channel, one envelope each.
  publish_trades-Tells :
      (ts : List Trade) (e : Engine)
      → IsLive p e
      → (vs : List Envelope) × ((publish_trades w p ts e).channel ≡ e.channel ++ vs) × Tells vs ts
  unfolding publish_trades new_envelope
  publish_trades-Tells [] e live = ([], sym (append-nil e.channel), tt)
  publish_trades-Tells (t ∷ ts) e live =
      let m = e.metrics in
      let counted = record e { metrics = record m { trades_executed = m.trades_executed + 1 } } in
      let f = (emit_event w p trade_executed (trade_data t) true counted).1 in
      let (line, still) = emit_event-published trade_executed (trade_data t) counted live in
      let (vs, more, told) = publish_trades-Tells ts f still in
      (
        _ ∷ vs,
        more ∙ (ap (λ c. c ++ vs) line ∙ append_assoc e.channel (_ ∷ []) vs),
        (refl, refl, told),
      )

-- The messages of trades that a client follows.
unfoldable pub news : ℕ → List Trade → Dict (List ℕ) → List Message
news c [] subs = []
news c (t ∷ ts) subs =
    let rest = news c ts subs in
    if follows c t.event_id subs then trade_message (trade_summary t) ∷ rest else rest

-- No client is closed, and each has room for a number of messages.
abbrev pub HasRoom : ℕ → Hub → Type 0
HasRoom n h =
    (c : ℕ) → ((h.clients c).closed ≡ false) × (length (h.clients c).buffer + n ≤ send_buffer_size)

reached-room :
    (m : Message) (x : Client) (n : ℕ)
    → x.closed ≡ false
    → length x.buffer + (n + 1) ≤ send_buffer_size
    → reached m x ≡ record x { buffer = x.buffer ++ m ∷ [] }
reached-room m x n h room = ground arith

Tells-length : (vs : List Envelope) (ts : List Trade) → Tells vs ts → length vs ≡ length ts
Tells-length [] [] told = refl
Tells-length [] (t ∷ ts) told = absurd told
Tells-length (v ∷ vs) [] told = absurd told
Tells-length (v ∷ vs) (t ∷ ts) told = ap suc (Tells-length vs ts told.2)

run_subscriber_step :
    (v : Envelope) (t : Trade) (ss : List Selected) (h i : Hub)
    → v.kind ≡ trade_executed
    → v.payload ≡ trade_data t
    → broadcast_event t.event_id (trade_message (trade_summary t)) h ≡ some i
    → run_subscriber (heard v ∷ ss) h ≡ run_subscriber ss i
unfolding run_subscriber heard handle handle_trade
run_subscriber_step v t ss h i kind told sent = rw kind (rw told (rw (sent, run_subscriber) refl))

-- What one broadcast leaves of a client.
after_one :
    (follow : Bool) (m : Message) (x y : Client) (n : ℕ)
    → x.closed ≡ false
    → length x.buffer + (n + 1) ≤ send_buffer_size
    → y ≡ (if follow then reached m x else x)
    → (y.closed ≡ false)
      × (length y.buffer + n ≤ send_buffer_size)
      × (y.buffer ≡ x.buffer ++ (if follow then m ∷ [] else []))
after_one true m x y n h room e =
    let put = e ∙ reached-room m x n h room in
    (
      ap (λ z. z.closed) put ∙ h,
      omega (arith, ap (λ z. length z.buffer) put, length-append x.buffer (m ∷ [])),
      ap (λ z. z.buffer) put,
    )
after_one false m x y n h room e = (
  ap (λ z. z.closed) e ∙ h,
  omega (arith, ap (λ z. length z.buffer) e),
  ap (λ z. z.buffer) e ∙ sym (append-nil x.buffer),
)

news-cons :
    (c : ℕ) (t : Trade) (ts : List Trade) (subs : Dict (List ℕ))
    → (if follows c t.event_id subs then trade_message (trade_summary t) ∷ [] else [])
        ++ news c ts subs
      ≡ news c (t ∷ ts) subs
unfolding news
news-cons c t ts subs = elim (Bool-cases (follows c t.event_id subs)) [
  | inl e ↦ rw e refl
  | inr e ↦ rw e refl
]

run_subscriber-Tells :
    (vs : List Envelope) (ts : List Trade) (h : Hub)
    → Tells vs ts
    → IsProper h.subscriptions
    → HasRoom (length ts) h
    → (i : Hub) × (run_subscriber (map heard vs) h ≡ some i)
      × (i.subscriptions ≡ h.subscriptions)
      × ((c : ℕ) → (i.clients c).buffer ≡ (h.clients c).buffer ++ news c ts h.subscriptions)
run_subscriber-Tells [] [] h told proper room = (
  h,
  unfold run_subscriber in refl,
  refl,
  λ c. unfold news in sym (append-nil (h.clients c).buffer),
)
run_subscriber-Tells [] (t ∷ ts) h told proper room = absurd told
run_subscriber-Tells (v ∷ vs) [] h told proper room = absurd told
run_subscriber-Tells (v ∷ vs) (t ∷ ts) h (kind, is_trade, told) proper room =
    let m = trade_message (trade_summary t) in
    let (i, sent, same, online, after) =
      broadcast_event-reaches t.event_id m h proper (λ c. λ k. (room c).0) in
    let one = λ (c : ℕ).
      after_one (follows c t.event_id h.subscriptions) m (h.clients c) (i.clients c) (length ts)
        (room c).0 (omega (arith, (room c).1)) (after c) in
    let (j, done, still, buffers) =
      run_subscriber-Tells vs ts i told (subst IsProper (sym same) proper)
        (λ c. ((one c).0, (one c).1)) in
    (
      j,
      run_subscriber_step v t (map heard vs) h i kind is_trade sent ∙ done,
      still ∙ same,
      λ c.
          buffers c
          ∙ (ap (λ l. (i.clients c).buffer ++ news c ts l) same
              ∙ (ap (λ b. b ++ news c ts h.subscriptions) (one c).2
                  ∙ (append_assoc (h.clients c).buffer _ (news c ts h.subscriptions)
                      ∙ ap (λ l. (h.clients c).buffer ++ l) (news-cons c t ts h.subscriptions)))),
    )

-- The trades of a match reach the clients. Where an engine with Redis that is not replaying publishes trades, and Redis and the
-- disk take what it emits, its channel grows by one envelope for each trade, in their order. And where a subscriber
-- gets these envelopes, on a hub whose sets have each client once, where no client is closed and each has room for as many
-- messages as there are trades, it does not panic and changes no set; each client then has in its buffer, behind what
-- was there, the message of each trade of an event that it follows, once each and in the order of the trades, and
-- nothing else.
pub trades_reach_clients :
    (w : World) (p : ℕ) (ts : List Trade) (e : Engine) (h : Hub)
    → IsHeard p w
    → IsLive p e
    → IsProper h.subscriptions
    → HasRoom (length ts) h
    → (vs : List Envelope) × ((publish_trades w p ts e).channel ≡ e.channel ++ vs)
      × (length vs ≡ length ts)
      × ((i : Hub) × (run_subscriber (map heard vs) h ≡ some i)
          × (i.subscriptions ≡ h.subscriptions)
          × ((c : ℕ) → (i.clients c).buffer ≡ (h.clients c).buffer ++ news c ts h.subscriptions))
trades_reach_clients w p ts e h up live proper room =
    let (vs, grown, told) = publish_trades-Tells w p up ts e live in
    (vs, grown, Tells-length vs ts told, run_subscriber-Tells vs ts h told proper room)
