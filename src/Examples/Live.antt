-- ===== src/Examples/Live.antt =====
-- A concrete hub, with a client that reads and one that does not.
use golang_predix.Common.{
  ℕ, zero, suc, ◌≡◌, refl, Bool, true, false, Option, none, some, List, [], ◌∷◌, ◌++◌, length,
  if◌then◌else◌, Text, codes, arith,
}
use golang_predix.Websocket.Client.{
  Message, error_message, subscribe_method, unsubscribe_method, new_client, Client,
}
use golang_predix.Websocket.Hub.{Hub, broadcast_event}
use golang_predix.Websocket.Hub.Tables.{follows, IsProper}
use golang_predix.Websocket.Hub.Steps.{
  Step, connects, receives, leaves, writes, broadcasts, step, Run, start, goes_to,
}
use golang_predix.Websocket.Hub.Consistent.{Spec, Represents}
use golang_predix.Websocket.Hub.Refine.{Run-Represents}
use golang_predix.Websocket.Hub.Consistent.{spec_run}
use golang_predix.Websocket.Hub.Broadcast.{slow_client_panics}
use golang_predix.Common.{map}
use golang_predix.Engine.Types.{Trade}
use golang_predix.Engine.Events.{Envelope}
use golang_predix.Engine.Handlers.{publish_trades}
use golang_predix.Websocket.Subscriber.{run_subscriber, heard}
use golang_predix.Websocket.Subscriber.Reach.{IsHeard, news, trades_reach_clients}
use golang_predix.Samples.{fresh_engine, world}
use golang_predix.Examples.Tables.{bargain}

-- `NewHub`
abbrev new_hub : Hub
new_hub = record { connected = []; subscriptions = []; clients = λ c. new_client }

abbrev nobody : Spec
nobody = record { online = λ c. false; followed = λ c e. false }

new_hub-Represents : Represents new_hub nobody
unfolding golang_predix.Websocket.Sets.has golang_predix.Common.Dict.value_or
    golang_predix.Common.Dict.lookup golang_predix.Websocket.Client.is_subscribed new_client
new_hub-Represents = record {
  proper = tt;
  online_is = λ c. refl;
  followed_is = λ c e. refl;
  only_online = λ c e h. absurd (ground arith);
  clients_know = λ c e h. refl;
}

abbrev note : Message
note = error_message (codes "note")

abbrev day : List Step
day =
    connects 1
    ∷ connects 2
    ∷ receives 1 (some (record { method = subscribe_method; params = codes "e" ∷ codes "f" ∷ [] }))
    ∷ receives 2 (some (record { method = subscribe_method; params = codes "e" ∷ [] }))
    ∷ broadcasts (codes "e") note
    ∷ writes 1
    ∷ receives 1 (some (record { method = unsubscribe_method; params = codes "f" ∷ [] }))
    ∷ leaves 2
    ∷ []

-- What the steps make of a hub; a panic would keep it.
abbrev after : List Step → Hub → Hub
after [] h = h
after (s ∷ ss) h = after ss (elim (step s h) [ none ↦ h | some i ↦ i ])

a_day : Run new_hub day (after day new_hub)
unfolding golang_predix.Websocket.Sets.has golang_predix.Websocket.Sets.put
    golang_predix.Websocket.Sets.drop golang_predix.Websocket.Client.new_client
    golang_predix.Websocket.Client.set_client golang_predix.Websocket.Client.client_subscribe
    golang_predix.Websocket.Client.client_unsubscribe golang_predix.Websocket.Client.is_subscribed
    golang_predix.Websocket.Client.send golang_predix.Websocket.Client.take_message
    golang_predix.Websocket.Hub.register golang_predix.Websocket.Hub.sweep
    golang_predix.Websocket.Hub.unregister golang_predix.Websocket.Hub.subscribe
    golang_predix.Websocket.Hub.shrink golang_predix.Websocket.Hub.unsubscribe
    golang_predix.Websocket.Hub.send_all golang_predix.Websocket.Hub.set_clients
    golang_predix.Websocket.Hub.broadcast_event golang_predix.Websocket.Hub.subscribe_all
    golang_predix.Websocket.Hub.unsubscribe_all golang_predix.Websocket.Hub.handle_subscribe
    golang_predix.Websocket.Hub.handle_unsubscribe golang_predix.Websocket.Hub.call_method
    golang_predix.Websocket.Hub.handle_message golang_predix.Websocket.Hub.connect
    golang_predix.Websocket.Hub.disconnect golang_predix.Websocket.Hub.Steps.step
    golang_predix.Common.Dict.lookup golang_predix.Common.Dict.insert
    golang_predix.Common.Dict.delete golang_predix.Common.Dict.value_or
    golang_predix.Common.Text-discrete golang_predix.Common.ℕ_discrete
    golang_predix.Engine.Orders.is_empty golang_predix.Websocket.Client.close
a_day = goes_to refl refl (
    goes_to refl refl (
      goes_to refl refl (
        goes_to refl refl
          (goes_to tt refl (goes_to tt refl (goes_to refl refl (goes_to tt refl start)))))))

Run-Represents_example : Represents (after day new_hub) (spec_run day nobody)
Run-Represents_example =
    Run-Represents new_hub (after day new_hub) day nobody a_day new_hub-Represents

abbrev full_buffer : ℕ → List Message
full_buffer zero = []
full_buffer (suc n) = note ∷ full_buffer n

-- Two clients of one event, the second with a full buffer.
abbrev crowded : Hub
crowded = record {
  connected = 1 ∷ 2 ∷ [];
  subscriptions = (codes "e", 1 ∷ 2 ∷ []) ∷ [];
  clients = λ c. record {
    buffer = elim c [ suc (suc n) ↦ full_buffer 256 | _ ↦ [] ];
    subscriptions = codes "e" ∷ [];
    closed = false;
  };
}

crowded_open :
    (c : ℕ)
    → follows c (codes "e") crowded.subscriptions ≡ true
    → (crowded.clients c).closed ≡ false
crowded_open c h = refl

crowded-IsProper : IsProper crowded.subscriptions
crowded-IsProper = (tt, (refl, (((λ e. absurd (omega arith)), tt), (tt, tt))), tt)

-- The same clients with empty buffers, and the trades of a match.
abbrev audience : Hub
audience = record crowded {
  clients = λ c. record { buffer = []; subscriptions = codes "e" ∷ []; closed = false };
}

abbrev bargains : List Trade
bargains = bargain ∷ record bargain { id = codes "t2"; event_id = codes "f" } ∷ []

world-IsHeard : IsHeard 0 world
world-IsHeard = record {
  encodes = λ n. refl;
  journals = λ n. refl;
  adds = λ n. refl;
  publishes = λ n. refl;
}

trades_reach_clients_example :
    (vs : List Envelope) × ((publish_trades world 0 bargains fresh_engine).channel
      ≡ fresh_engine.channel ++ vs)
    × (length vs ≡ length bargains)
    × ((i : Hub) × (run_subscriber (map heard vs) audience ≡ some i)
        × (i.subscriptions ≡ audience.subscriptions)
        × ((c : ℕ)
            → (i.clients c).buffer
              ≡ (audience.clients c).buffer ++ news c bargains audience.subscriptions))
trades_reach_clients_example =
    trades_reach_clients world 0 bargains fresh_engine audience world-IsHeard (refl, refl)
      crowded-IsProper (λ c. (refl, omega arith))

slow_client_panics_example :
    (i : Hub) × (broadcast_event (codes "e") note crowded ≡ some i)
    × ((event : Text) (m : Message)
        → follows 2 event crowded.subscriptions ≡ true
        → broadcast_event event m i ≡ none)
unfolding golang_predix.Websocket.Sets.has golang_predix.Common.Dict.value_or
    golang_predix.Common.Dict.lookup golang_predix.Common.Text-discrete
slow_client_panics_example =
    slow_client_panics (codes "e") note crowded 2 crowded-IsProper crowded_open refl refl
