-- ===== src/Examples/Sending.antt =====
-- Concrete calls of the API server, some of which Redis does not answer.
use golang_predix.Common.{
  ℕ, zero, suc, ◌≡◌, ◌≤◌, refl, true, false, Option, none, some, List, [], ◌∷◌, Text, codes, arith,
}
use golang_predix.Engine.Commands.{
  create_event_command, user_created_command, Payload, Response, reply,
}
use golang_predix.Engine.Orders.{user_ok}
use golang_predix.Partition.Router.{Router}
use golang_predix.Manager.{
  Entry, Broker, Added, added, not_added, unanswered, Call, SendError, Heard, answer, timed_out,
  stream_for, partition_for, create_envelope, send_and_await, send_command_fanout,
}
use golang_predix.Manager.Append.{Answered, send_and_await_answers}
use golang_predix.Manager.Retry.{Wrote}
use golang_predix.Manager.Fanout.{Reached, send_command_fanout-Reached}
use golang_predix.Samples.{no_payload}

abbrev empty_broker : Broker
empty_broker = record { streams = λ k. []; counters = λ k. 0 }

abbrev two : Router
two = record { partitions = 2; stream_prefix = codes "commands" }

-- The first append is written, and its answer is lost.
abbrev shaky : Call
shaky = record {
  uuid = codes "u";
  now = 1;
  incr_ok = true;
  marshal_ok = true;
  xadd = λ n. elim n [ zero ↦ unanswered | suc m ↦ added ];
  context_done = λ n. false;
}

abbrev with_event : Payload
with_event = record no_payload { as_event = some (codes "e") }

abbrev heard : List Heard
heard = answer (codes "x") (reply user_ok) ∷ answer (codes "u") (reply user_ok) ∷ timed_out ∷ []

abbrev sent : Option (Option SendError × Option Response) × Broker
sent =
    send_and_await (some two) shaky (codes "c") true (codes "e") create_event_command with_event
      heard empty_broker

answered : sent ≡ (some (none, some (reply user_ok)), sent.1)
unfolding send_and_await golang_predix.Manager.then_await golang_predix.Manager.append_command
    golang_predix.Manager.attempt golang_predix.Manager.xadd golang_predix.Manager.await_response
    golang_predix.Common.Text-discrete create_envelope
answered = refl

send_and_await_answers_example :
    let p = partition_for (some two) (codes "e") in
    let v =
      (create_envelope
        (some two)
        (record shaky { context_done = λ n. false })
        create_event_command
        (codes "e")
        with_event
        p
        empty_broker).0 in
    (k : ℕ) × (1 ≤ k)
    × (k ≤ 3)
    × Wrote
        (stream_for (some two) p)
        (record { client_id = codes "c"; command = v })
        k
        empty_broker
        sent.1
    × (v.request_id ≡ codes "u")
    × Answered (codes "u") (reply user_ok) heard
send_and_await_answers_example =
    send_and_await_answers (some two) shaky (codes "c") true (codes "e") create_event_command
      with_event heard empty_broker sent.1 (reply user_ok) answered

-- The second partition does not take its command.
abbrev half : ℕ → Call
half p = record shaky { xadd = λ n. elim p [ zero ↦ added | suc q ↦ not_added ] }

send_command_fanout-Reached_example :
    let r = send_command_fanout (some two) half user_created_command no_payload empty_broker in
    Reached two half user_created_command no_payload 0 2 empty_broker r.0 r.1
send_command_fanout-Reached_example =
    send_command_fanout-Reached two half user_created_command no_payload empty_broker
