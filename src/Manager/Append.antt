-- ===== src/Manager/Append.antt =====
-- pkg/redis/manager.go, `SendAndAwaitWithTimeout` and what it calls: how often a command is written, and whose
-- answer is returned.
use golang_predix.Common.{
  ℕ, ◌≤◌, ◌≡◌, refl, ◌∙◌, ap, ap₂, subst, ◌≢◌, Bool, true, false, Option, none, some, List, All, [],
  ◌∷◌, ◌++◌, Text, Text-discrete, arith,
}
use golang_predix.Engine.Commands.{CommandType, Payload, Response}
use golang_predix.Partition.Router.{Router}
use golang_predix.Manager.{
  Entry, Broker, Call, SendError, stream_for, next_number, partition_for, create_envelope,
  append_command, Heard, answer, garbled, hung_up, caller_gone, timed_out, await_response,
  then_await, send_and_await,
}
use golang_predix.Manager.Retry.{copies, Wrote, append_command-Wrote}

-- Answers to other requests.
abbrev pub IsStray : Text → Heard → Type 0
IsStray id (answer other x) = other ≢ id
IsStray id _ = ⊥

-- What is heard until an answer is returned.
pub record Answered (id : Text) (x : Response) (hs : List Heard) : Type 0 where
  pub strays : List Heard
  pub rest : List Heard
  pub split : hs ≡ strays ++ answer id x ∷ rest
  pub only_strays : All (IsStray id) strays

await_response-Answered :
    (id : Text) (hs : List Heard) (x : Response)
    → await_response id hs ≡ some (none, some x)
    → Answered id x hs
unfolding await_response
await_response-Answered id [] x h = absurd (ground arith)
await_response-Answered id (answer other y ∷ hs) x h = elim (Text-discrete other id) [
  | yes same ↦
      let e : y ≡ x = ground arith in
      record {
        strays = [];
        rest = hs;
        split = ap₂ (λ t. λ u. answer t u ∷ hs) same e;
        only_strays = tt;
      }
  | no differ ↦
      let a = await_response-Answered id hs x (ground arith) in
      record {
        strays = answer other y ∷ a.strays;
        rest = a.rest;
        split = ap (λ l. answer other y ∷ l) a.split;
        only_strays = (differ, a.only_strays);
      }
]
await_response-Answered id (garbled ∷ hs) x h = absurd (ground arith)
await_response-Answered id (hung_up ∷ hs) x h = absurd (ground arith)
await_response-Answered id (caller_gone ∷ hs) x h = absurd (ground arith)
await_response-Answered id (timed_out ∷ hs) x h = absurd (ground arith)

pub create_envelope-streams :
    (r : Option Router) (call : Call) (kind : CommandType) (event : Text) (payload : Payload)
    (p : ℕ) (b : Broker)
    → ((create_envelope r call kind event payload p b).1.streams ≡ b.streams)
      × ((create_envelope r call kind event payload p b).0.request_id ≡ call.uuid)
unfolding create_envelope next_number
create_envelope-streams r call kind event payload p b = ground arith

pub then_await_answer :
    (id : Text) (hs : List Heard) (failed : Option SendError) (x : Response)
    → then_await id hs failed ≡ some (none, some x)
    → (failed ≡ none) × (await_response id hs ≡ some (none, some x))
unfolding then_await
then_await_answer id hs none x h = (refl, h)
then_await_answer id hs (some e) x h = absurd (ground arith)

pub Wrote-streams :
    (key : Text) (x : Entry) (n : ℕ) (b b₁ b' : Broker)
    → b₁.streams ≡ b.streams
    → Wrote key x n b₁ b'
    → Wrote key x n b b'
Wrote-streams key x n b b₁ b' same w = record {
  here = w.here ∙ ap (λ s. s key ++ copies n x) same;
  elsewhere = λ k. λ ne. w.elsewhere k ne ∙ ap (λ s. s k) same;
}

-- A call of `SendAndAwait` that returns an answer has written its command to the stream of the event's partition at least
-- once and at most three times, all the copies the same, and to no other stream; and the answer is the first one that it heard
-- with the id of its own request, behind answers to other requests only.
pub send_and_await_answers :
    (r : Option Router) (call : Call) (client : Text) (subscribed : Bool) (event : Text)
    (kind : CommandType) (payload : Payload) (hs : List Heard) (b b' : Broker) (x : Response)
    → send_and_await r call client subscribed event kind payload hs b ≡ (some (none, some x), b')
    → let p = partition_for r event in
      let v =
        (create_envelope r (record call { context_done = λ n. false }) kind event payload p b).0 in
      (k : ℕ) × (1 ≤ k)
      × (k ≤ 3)
      × Wrote (stream_for r p) (record { client_id = client; command = v }) k b b'
      × (v.request_id ≡ call.uuid)
      × Answered call.uuid x hs
unfolding send_and_await
send_and_await_answers r call client false event kind payload hs b b' x h = absurd (ground arith)
send_and_await_answers r call client true event kind payload hs b b' x h =
    let p = partition_for r event in
    let detached = record call { context_done = λ n. false } in
    let made = create_envelope r detached kind event payload p b in
    let sent = append_command r detached client made.0 p made.1 in
    let (k, le, wrote, w) = append_command-Wrote r detached client made.0 p made.1 in
    let (same, id) = create_envelope-streams r detached kind event payload p b in
    let (fine, heard) = then_await_answer made.0.request_id hs sent.0 x (ap (λ q. q.0) h) in
    let there =
      subst (Wrote (stream_for r p) (record { client_id = client; command = made.0 }) k made.1)
        (ap (λ q. q.1) h) w in
    (
      k,
      wrote fine,
      le,
      Wrote-streams (stream_for r p) _ k b made.1 b' same there,
      id,
      await_response-Answered call.uuid hs x
          (subst (λ t. await_response t hs ≡ some (none, some x)) id heard),
    )
