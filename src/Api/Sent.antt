-- ===== src/Api/Sent.antt =====
-- internal/handler: what the handlers that ask the engine write to the streams.
use golang_predix.Common.{
  ℕ, ◌≤◌, ◌≡◌, ap, inl, inr, true, false, Bool-cases, Option, none, some, Text, arith,
}
use golang_predix.Engine.Commands.{CommandType, Payload, Response}
use golang_predix.Manager.{
  CommandEnvelope, Broker, Call, SendError, stream_for, next_number, partition_for, create_envelope,
  append_command, then_await, send_and_await,
}
use golang_predix.Manager.Retry.{Wrote, Wrote-nothing, append_command-Wrote}
use golang_predix.Manager.Append.{create_envelope-streams, then_await_answer, Wrote-streams}
use golang_predix.Api.Tables.{Site}
use golang_predix.Api.Answers.{Outside, succeeded, succeeded-eq-some}
use golang_predix.Api.Orders.{send, settled}

-- Up to three copies of one command in the stream of an event, and nothing else in any stream.
pub record Sent (o : Outside) (event : Text) (kind : CommandType) (payload : Payload)
    (b b' : Broker) : Type 0 where
  pub command : CommandEnvelope
  pub its_kind : command.kind ≡ kind
  pub its_payload : command.payload ≡ payload
  pub count : ℕ
  pub at_most : count ≤ 3
  pub wrote :
      Wrote
        (stream_for o.router (partition_for o.router event))
        (record { client_id = o.client; command = command })
        count
        b
        b'

settled-eq-some :
    (q : Option (Option SendError × Option Response)) {x : Response}
    → settled q ≡ some (some x)
    → q ≡ some (none, some x)
unfolding settled
settled-eq-some none h = absurd (ground arith)
settled-eq-some (some r) h = ap (λ t. some t) (succeeded-eq-some r (ground arith))

module _ (o : Outside) (event : Text) (kind : CommandType) (payload : Payload) (s : Site) where
  abbrev detached : Call
  detached = record (o.call) { context_done = λ n. false }

  abbrev made : CommandEnvelope × Broker
  made =
      create_envelope o.router detached kind event payload (partition_for o.router event) s.broker

  made_lem : (made.0.kind ≡ kind) × (made.0.payload ≡ payload)
  unfolding create_envelope next_number
  made_lem = ground arith

  abbrev tried : Option SendError × Broker
  tried = append_command o.router detached o.client made.0 (partition_for o.router event) made.1

  -- A server that is not subscribed to the channel of its client gives up before it writes.
  send_deaf : o.subscribed ≡ false → (send o event kind payload s).1.broker ≡ s.broker
  unfolding send send_and_await
  send_deaf e = ground arith

  send_heard : o.subscribed ≡ true → (send o event kind payload s).1.broker ≡ tried.1
  unfolding send send_and_await
  send_heard e = ground arith

  send_answered :
      (x : Response)
      → (send o event kind payload s).0 ≡ some (some x)
      → (o.subscribed ≡ true) × (tried.0 ≡ none)
  send_answered x h = elim (Bool-cases o.subscribed) [
    | inr deaf ↦ absurd (silent deaf)
    | inl hears ↦ (
      hears,
      (then_await_answer made.0.request_id o.heard tried.0 x (settled-eq-some _ (awaited hears))).0,
    )
  ]
    where
      silent : o.subscribed ≡ false → ⊥
      silent e =
          unfold send in unfold send_and_await in unfold settled in unfold succeeded in ground arith

      awaited :
          o.subscribed ≡ true
          → settled (then_await made.0.request_id o.heard tried.0) ≡ some (some x)
      awaited e = unfold send in unfold send_and_await in ground arith

  -- What `SendAndAwait` writes for a handler, and that an answer follows one copy at least.
  pub send-Sent :
      (sent : Sent o event kind payload s.broker (send o event kind payload s).1.broker)
      × ((x : Response) → (send o event kind payload s).0 ≡ some (some x) → 1 ≤ sent.count)
  send-Sent =
      let p = partition_for o.router event in
      let key = stream_for o.router p in
      let (kind_, payload_) = made_lem in
      let (same, _) = create_envelope-streams o.router detached kind event payload p s.broker in
      let (k, le, once, w) = append_command-Wrote o.router detached o.client made.0 p made.1 in
      elim (Bool-cases o.subscribed) [
        | inr deaf ↦ (
          record {
            command = made.0;
            its_kind = kind_;
            its_payload = payload_;
            count = 0;
            at_most = omega arith;
            wrote = rw (send_deaf deaf) (Wrote-nothing key _ s.broker);
          },
          λ x. λ h. absurd (ground (arith, send_answered x h)),
        )
        | inl hears ↦ (
          record {
            command = made.0;
            its_kind = kind_;
            its_payload = payload_;
            count = k;
            at_most = le;
            wrote = rw (send_heard hears) (Wrote-streams key _ k s.broker made.1 tried.1 same w);
          },
          λ x. λ h. once (send_answered x h).1,
        )
      ]
