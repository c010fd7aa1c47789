-- ===== src/Manager.antt =====
-- pkg/redis/manager.go: how the API server sends commands to the partitions and waits for the answers.
--
-- Redis is not part of the program: what it does with each call is said by a `Call`. An append that fails may have
-- been written all the same, where only its answer was lost. A stream is the list of the entries added to it.
pub mod Retry
pub mod Append
pub mod Fanout
use golang_predix.Common.{
  ℕ, zero, suc, ◌+◌, Bool, true, false, Option, none, some, List, [], ◌∷◌, ◌++◌, ite, Text,
  Text-discrete, codes, if◌then◌else◌,
}
use golang_predix.Engine.Orders.{is_empty}
use golang_predix.Engine.Commands.{CommandType, Payload, Response}
use golang_predix.Partition.Router.{Router, partition, stream, group, sequence_key}

-- `CommandEnvelope`
pub record CommandEnvelope : Type 0 where
  pub command_id : Text
  pub kind : CommandType
  pub event_id : Text
  pub request_id : Text
  pub sequence : ℕ
  pub timestamp : ℕ
  pub payload : Payload

-- The values of an entry of a command stream.
pub record Entry : Type 0 where
  pub client_id : Text
  pub command : CommandEnvelope

pub record Broker : Type 0 where
  pub streams : Text → List Entry
  pub counters : Text → ℕ

-- What becomes of an `XADD`.
pub data Added : Type 0 where
  added not_added unanswered : Added

-- The outside of one call: a uuid, the clock, whether `INCR` answers, whether the envelope can be marshalled, what
-- becomes of the n-th `XADD`, and whether the context is done behind it.
pub record Call : Type 0 where
  pub uuid : Text
  pub now : ℕ
  pub incr_ok : Bool
  pub marshal_ok : Bool
  pub xadd : ℕ → Added
  pub context_done : ℕ → Bool

pub data SendError : Type 0 where
  not_marshalled not_appended context_canceled not_subscribed : SendError
  reply_unreadable reply_channel_closed reply_timeout : SendError

-- `streamFor`, `groupFor`, `seqKeyFor` and `partitionFor`
unfoldable pub stream_for : Option Router → ℕ → Text
stream_for none p = codes "commands"
stream_for (some r) p = stream r p

unfoldable pub group_for : Option Router → ℕ → Text
group_for none p = codes "engines"
group_for (some r) p = group p

unfoldable pub seq_key_for : Option Router → ℕ → Text
seq_key_for none p = codes "commands:sequence"
seq_key_for (some r) p = sequence_key r p

unfoldable pub partition_for : Option Router → Text → ℕ
partition_for none event = 0
partition_for (some r) event = if is_empty event then 0 else partition r event

-- The `INCR` of `createEnvelope`, with 0 where it fails.
unfoldable pub next_number : Bool → Text → Broker → ℕ × Broker
next_number false key b = (0, b)
next_number true key b =
    let n = b.counters key + 1 in
    (n, record b { counters = λ k. ite (Text-discrete k key) n (b.counters k) })

-- `createEnvelope`
unfoldable pub create_envelope :
    Option Router → Call → CommandType → Text → Payload → ℕ → Broker → CommandEnvelope × Broker
create_envelope r call kind event payload p b =
    let (n, b') = next_number call.incr_ok (seq_key_for r p) b in
    (
      record {
        command_id = call.uuid;
        kind = kind;
        event_id = event;
        request_id = call.uuid;
        sequence = n;
        timestamp = call.now;
        payload = payload;
      },
      b',
    )

unfoldable pub push : Text → Entry → Broker → Broker
push key x b = record b {
  streams = λ k. ite (Text-discrete k key) (b.streams k ++ x ∷ []) (b.streams k);
}

-- `XADD`, and whether it returns an error.
unfoldable pub xadd : Added → Text → Entry → Broker → Bool × Broker
xadd added key x b = (true, push key x b)
xadd not_added key x b = (false, b)
xadd unanswered key x b = (false, push key x b)

-- The loop of `appendCommand`, with the attempts that are left. The context that is done during the pause counts as
-- done behind the attempt.
unfoldable pub attempt : Call → Text → Entry → ℕ → ℕ → Broker → Option SendError × Broker
attempt call key x zero n b = (some not_appended, b)
attempt call key x (suc left) n b =
    let (accepted, b') = xadd (call.xadd n) key x b in
    let again = attempt call key x left (n + 1) b' in
    if accepted
    then (none, b')
    else if call.context_done n
    then (some context_canceled, b')
    else again

-- `MaxAppendRetries`
abbrev pub max_append_retries : ℕ
max_append_retries = 3

-- `appendCommand`
unfoldable pub append_command :
    Option Router → Call → Text → CommandEnvelope → ℕ → Broker → Option SendError × Broker
append_command r call client v p b =
    if call.marshal_ok
    then attempt call (stream_for r p) (record { client_id = client; command = v })
        max_append_retries 0 b
    else (some not_marshalled, b)

-- `SendCommand`
unfoldable pub send_command :
    Option Router → Call → Text → CommandType → Payload → Broker → Option SendError × Broker
send_command r call event kind payload b =
    let p = partition_for r event in
    let (v, b') = create_envelope r call kind event payload p b in
    let (accepted, b'') =
      xadd (call.xadd 0) (stream_for r p) (record { client_id = []; command = v }) b' in
    if call.marshal_ok
    then (if accepted then none else some not_appended, b'')
    else (some not_marshalled, b')

-- The loop of `SendCommandFanout`, with the partitions that are left and the call of each.
unfoldable pub fan_out :
    Router → (ℕ → Call) → CommandType → Payload → ℕ → ℕ → Broker → Option SendError × Broker
fan_out r calls kind payload zero p b = (none, b)
fan_out r calls kind payload (suc left) p b =
    let call = calls p in
    let (v, b') = create_envelope (some r) call kind [] payload p b in
    let (accepted, b'') =
      xadd (call.xadd 0) (stream r p) (record { client_id = []; command = v }) b' in
    let rest = fan_out r calls kind payload left (p + 1) b'' in
    if call.marshal_ok
    then (if accepted then rest else (some not_appended, b''))
    else (some not_marshalled, b')

-- `SendCommandFanout`
unfoldable pub send_command_fanout :
    Option Router → (ℕ → Call) → CommandType → Payload → Broker → Option SendError × Broker
send_command_fanout none calls kind payload b = send_command none (calls 0) [] kind payload b
send_command_fanout (some r) calls kind payload b = fan_out r calls kind payload r.partitions 0 b

-- What `awaitResponse` selects next.
pub data Heard : Type 0 where
  answer : Text → Response → Heard
  garbled hung_up caller_gone timed_out : Heard

-- `awaitResponse`, on what it hears; `none` is that it still waits.
unfoldable pub await_response : Text → List Heard → Option (Option SendError × Option Response)
await_response id [] = none
await_response id (answer other x ∷ hs) =
    ite (Text-discrete other id) (some (none, some x)) (await_response id hs)
await_response id (garbled ∷ hs) = some (some reply_unreadable, none)
await_response id (hung_up ∷ hs) = some (some reply_channel_closed, none)
await_response id (caller_gone ∷ hs) = some (some context_canceled, none)
await_response id (timed_out ∷ hs) = some (some reply_timeout, none)

-- The wait of `SendAndAwaitWithTimeout` behind its append.
unfoldable pub then_await :
    Text → List Heard → Option SendError → Option (Option SendError × Option Response)
then_await id hs (some e) = some (some e, none)
then_await id hs none = await_response id hs

-- `SendAndAwaitWithTimeout`, whose append has a context of its own that is never done; `subscribed` says whether the
-- subscription to the channel of the client is confirmed.
unfoldable pub send_and_await :
    Option Router
    → Call
    → Text
    → Bool
    → Text
    → CommandType
    → Payload
    → List Heard
    → Broker
    → Option (Option SendError × Option Response) × Broker
send_and_await r call client subscribed event kind payload hs b =
    let p = partition_for r event in
    let detached = record call { context_done = λ n. false } in
    let (v, b') = create_envelope r detached kind event payload p b in
    let (failed, b'') = append_command r detached client v p b' in
    if subscribed
    then (then_await v.request_id hs failed, b'')
    else (some (some not_subscribed, none), b)
