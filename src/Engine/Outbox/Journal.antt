-- ===== src/Engine/Outbox/Journal.antt =====
-- internal/engine/outbox.go and `emitEventP` of internal/engine/engine.go: what the journal keeps,
-- what a recovery publishes, and what a reset drops.
use golang_predix.Common.{
  ℕ, ◌+◌, ◌≡◌, refl, ap, sym, ◌∙◌, ◌⊎◌, ◌≢◌, inl, inr, Bool, true, false, Option, none, some, List,
  [], ◌∷◌, ◌++◌, arith, Bool-cases, Option-cases, if◌then◌else◌,
}
use mathlib.Core.List.{append-nil, append_assoc}
use golang_predix.Engine.Events.{
  EventType, EventData, Envelope, Engine, World, Link, add_failed, token_of, new_envelope,
  next_sequence, emit_event, emit_cycle, fan_out, append_outbox, reset_outbox, set_sequence,
  is_trade_executed,
}
use golang_predix.Engine.Outbox.{
  publish_envelope, republish_envelope, republish_all, RecoverError, finish_recover, recover_lines,
  recover,
}

-- The envelopes of a journal that go to the WebSocket channel.
pub broadcasts : List Envelope → List Envelope
broadcasts [] = []
broadcasts (v ∷ vs) = if is_trade_executed v.kind then v ∷ broadcasts vs else broadcasts vs

republish_all-outbox :
    (links : ℕ → Link) (i : ℕ) (vs : List Envelope) (e : Engine)
    → (republish_all links i vs e).1.outbox ≡ e.outbox
unfolding republish_all
republish_all-outbox links i [] e = refl
republish_all-outbox links i (v ∷ vs) e =
    let same : (republish_envelope (links i) v e).1.outbox ≡ e.outbox =
      unfold republish_envelope in unfold publish_envelope in ground arith in
    elim (Option-cases (republish_envelope (links i) v e).0) [
      | inl go ↦ rw (go, republish_all) (republish_all-outbox links (i + 1) vs _ ∙ same)
      | inr (x, stop) ↦ rw (stop, republish_all) same
    ]

-- The stream and the channel behind one line that is published.
republish_envelope-sent :
    (l : Link) (v : Envelope) (e : Engine)
    → l.marshal_ok ≡ true
    → (republish_envelope l v e).0 ≡ none
    → ((republish_envelope l v e).1.stream ≡ e.stream ++ v ∷ [])
      × ((republish_envelope l v e).1.channel ≡ e.channel ++ broadcasts (v ∷ []))
unfolding republish_envelope publish_envelope broadcasts
republish_envelope-sent l v e readable done = ground (arith, append-nil e.channel)

broadcasts-cons :
    (v : Envelope) (vs : List Envelope) → broadcasts (v ∷ vs) ≡ broadcasts (v ∷ []) ++ broadcasts vs
unfolding broadcasts
broadcasts-cons v vs = ground arith

republish_all-sent :
    (links : ℕ → Link) (i : ℕ) (vs : List Envelope) (e : Engine)
    → ((j : ℕ) → (links j).marshal_ok ≡ true)
    → (republish_all links i vs e).0 ≡ none
    → ((republish_all links i vs e).1.stream ≡ e.stream ++ vs)
      × ((republish_all links i vs e).1.channel ≡ e.channel ++ broadcasts vs)
unfolding republish_all
republish_all-sent links i [] e readable done =
    unfold broadcasts in (sym (append-nil e.stream), sym (append-nil e.channel))
republish_all-sent links i (v ∷ vs) e readable done =
    elim (Option-cases (republish_envelope (links i) v e).0) [
      | inr (x, stop) ↦ absurd (cc (rw (stop, republish_all) at done))
      | inl go ↦
          let f = (republish_envelope (links i) v e).1 in
          let (s, c) = republish_envelope-sent (links i) v e (readable i) go in
          let (s', c') =
            republish_all-sent links (i + 1) vs f readable (rw (go, republish_all) at done) in
          rw (go, republish_all)
            (
              s' ∙ (ap (λ t. t ++ vs) s ∙ append_assoc e.stream (v ∷ []) vs),
              c'
                  ∙ (ap (λ t. t ++ broadcasts vs) c
                      ∙ (append_assoc e.channel (broadcasts (v ∷ [])) (broadcasts vs)
                          ∙ ap (λ t. e.channel ++ t) (sym (broadcasts-cons v vs)))),
            )
    ]

-- What a recovery of some lines reports and leaves.
abbrev pub IsRecovered : List Envelope → Engine → Option RecoverError → Engine → Type 0
IsRecovered vs e err f =
    ((err ≡ none)
      × (f.outbox ≡ [])
      × (f.stream ≡ e.stream ++ vs)
      × (f.channel ≡ e.channel ++ broadcasts vs))
    ⊎ ((err ≢ none) × (f.outbox ≡ e.outbox))

finish_lem :
    (reset_ok : Bool) (vs : List Envelope) (e : Engine) (links : ℕ → Link)
    → ((j : ℕ) → (links j).marshal_ok ≡ true)
    → let (err, f) = finish_recover reset_ok (republish_all links 0 vs e) in IsRecovered vs e err f
unfolding finish_recover
finish_lem reset_ok vs e links readable =
    let kept = republish_all-outbox links 0 vs e in
    elim (Option-cases (republish_all links 0 vs e).0) [
      | inr (x, stop) ↦ rw (stop, finish_recover) (inr ((λ p. cc), kept))
      | inl go ↦
          let (s, c) = republish_all-sent links 0 vs e readable go in
          elim (Bool-cases reset_ok) [
            | inl ok ↦ rw (go, finish_recover, ok) (inl (refl, refl, s, c))
            | inr lost ↦ rw (go, finish_recover, lost) (inr ((λ p. cc), kept))
          ]
    ]

recover_lines_lem :
    (reset_ok : Bool) (links : ℕ → Link) (vs : List Envelope) (e : Engine)
    → e.outbox ≡ vs
    → ((j : ℕ) → (links j).marshal_ok ≡ true)
    → let (err, f) = recover_lines links reset_ok vs e in IsRecovered vs e err f
unfolding recover_lines broadcasts
recover_lines_lem reset_ok links [] e whole readable =
    inl (refl, whole, sym (append-nil e.stream), sym (append-nil e.channel))
recover_lines_lem reset_ok links (v ∷ vs) e whole readable =
    finish_lem reset_ok (v ∷ vs) e links readable

-- Where every line of the journal can be decoded, a recovery that reports no error has added all envelopes of the journal
-- to the stream, in their order, has published those of trades to the channel, and leaves an empty journal; one
-- that reports an error leaves the journal as it was.
pub recover_republishes :
    (read_ok reset_ok : Bool) (links : ℕ → Link) (e : Engine)
    → ((j : ℕ) → (links j).marshal_ok ≡ true)
    → let (err, f) = recover read_ok links reset_ok e in
      ((err ≡ none)
        × (f.outbox ≡ [])
        × (f.stream ≡ e.stream ++ e.outbox)
        × (f.channel ≡ e.channel ++ broadcasts e.outbox))
      ⊎ ((err ≢ none) × (f.outbox ≡ e.outbox))
unfolding recover
recover_republishes false reset_ok links e readable = inr ((λ p. cc), refl)
recover_republishes true reset_ok links e readable =
    recover_lines_lem reset_ok links e.outbox e refl readable

-- The envelope of an emission.
abbrev pub envelope_of : World → ℕ → EventType → EventData → Engine → Envelope
envelope_of w p kind d e =
    new_envelope w kind d p (token_of (e.partition_token p)) (next_sequence p e)

-- An emission that is not part of a replay, from an engine with Redis and a journal, whose envelope can be
-- encoded, and written to the journal: it reports no error, and then its envelope is the last of the stream; or it reports
-- an error, and then the envelope is the last line of the journal, behind all lines that were there.
pub emit_event_is_durable :
    (w : World) (p : ℕ) (kind : EventType) (d : EventData) (broadcast : Bool) (e : Engine)
    → e.replaying p ≡ false
    → e.has_redis ≡ true
    → e.has_outbox ≡ true
    → (w.link p (next_sequence p e)).marshal_ok ≡ true
    → (w.link p (next_sequence p e)).append_ok ≡ true
    → let v = envelope_of w p kind d e in
      let (err, f) = emit_event w p kind d broadcast e in
      ((err ≡ none) × (f.stream ≡ e.stream ++ v ∷ []))
      ⊎ ((err ≢ none) × (f.outbox ≡ e.outbox ++ v ∷ []))
unfolding emit_event emit_cycle fan_out append_outbox reset_outbox set_sequence
emit_event_is_durable w p kind d broadcast e live redis journal encoded written = ground arith

-- The journal does not keep what it holds. On an engine with Redis and a journal, outside a
-- replay, an emission without a broadcast that the stream refuses leaves its envelope in the
-- journal; the next such emission that succeeds, and whose reset succeeds, drops the whole
-- journal, and the stream has gained only the second envelope.
pub journal_is_dropped :
    (w w' : World) (p : ℕ) (kind kind' : EventType) (d d' : EventData) (e : Engine)
    → e.replaying p ≡ false
    → e.has_redis ≡ true
    → e.has_outbox ≡ true
    → (emit_event w p kind d false e).0 ≡ some add_failed
    → (emit_event w' p kind' d' false (emit_event w p kind d false e).1).0 ≡ none
    → (w'.link p (next_sequence p (emit_event w p kind d false e).1)).reset_ok ≡ true
    → let f = (emit_event w p kind d false e).1 in
      let g = (emit_event w' p kind' d' false f).1 in
      (f.outbox ≡ e.outbox ++ envelope_of w p kind d e ∷ [])
      × (g.outbox ≡ [])
      × (g.stream ≡ e.stream ++ envelope_of w' p kind' d' f ∷ [])
unfolding emit_event emit_cycle fan_out append_outbox reset_outbox set_sequence
journal_is_dropped w w' p kind kind' d d' e live redis journal refused accepted dropped =
    ground arith
