-- ===== src/Engine/Commands.antt =====
-- internal/engine/engine.go, `handleMessage`, and internal/engine/replay.go.
pub mod Silence
pub mod Replay
pub mod Rebuild
pub mod Timeless
pub mod Restart
pub mod Keep
pub mod Swallow
pub mod Consume
use golang_predix.Common.{
  ℕ, ◌+◌, Bool, true, false, Option, none, some, List, [], ◌∷◌, ite, Text, if◌then◌else◌,
  ℕ_discrete,
}
use golang_predix.Engine.Types.{Order}
use golang_predix.Engine.Events.{Engine, World}
use golang_predix.Engine.Orders.{
  is_empty, Reply, failed, event_not_found, invalid_payload, unknown_message_type, CreateRequest,
  CancelRequest,
}
use golang_predix.Engine.Depth.{Depth, get_depth, get_open_orders}
use golang_predix.Engine.Handlers.{create_event, user_created, create_order, cancel_order}

-- The command types of pkg/redis/manager.go; `none` stands for an empty type.
pub data CommandType : Type 0 where
  create_order_command cancel_order_command get_depth_command : CommandType
  get_open_orders_command create_event_command user_created_command : CommandType
  no_command unknown_command : CommandType

pub record OpenOrdersRequest : Type 0 where
  pub event_id : Text
  pub user_id : Text

-- A raw payload, as what `json.Unmarshal` makes of it for each of the request structs.
pub record Payload : Type 0 where
  pub as_create : Option CreateRequest
  pub as_cancel : Option CancelRequest
  pub as_event : Option Text
  pub as_user : Option Text
  pub as_open : Option OpenOrdersRequest

pub record Command : Type 0 where
  pub kind : CommandType
  pub payload : Payload

-- `EngineResponse`: the reply of a command, or the answer to a query.
pub data Response : Type 0 where
  reply : Reply → Response
  depth : Depth → Response
  open_orders : List Order → Response

unfoldable pub answer_depth : Option Text → Engine → Response
answer_depth none e = reply (failed invalid_payload)
answer_depth (some event) e = elim (get_depth event e.store) [
  | none ↦ reply (failed event_not_found)
  | some d ↦ depth d
]

unfoldable pub answer_open : Option OpenOrdersRequest → Engine → Response
answer_open none e = reply (failed invalid_payload)
answer_open (some q) e = open_orders (get_open_orders q.event_id q.user_id e.store)

unfoldable pub replied : Reply × Engine → Response × Engine
replied (r, e) = (reply r, e)

-- `handleMessage`
unfoldable pub handle_message : World → ℕ → CommandType → Payload → Engine → Response × Engine
handle_message w p create_order_command d e = replied (create_order w p d.as_create e)
handle_message w p cancel_order_command d e = replied (cancel_order w p d.as_cancel e)
handle_message w p get_depth_command d e = (answer_depth d.as_event e, e)
handle_message w p get_open_orders_command d e = (answer_open d.as_open e, e)
handle_message w p create_event_command d e = replied (create_event d.as_event e)
handle_message w p user_created_command d e = replied (user_created d.as_user e)
handle_message w p no_command d e = (reply (failed unknown_message_type), e)
handle_message w p unknown_command d e = (reply (failed unknown_message_type), e)

-- `processStreamEntry` on an entry with a client id; `none` is an entry without a readable
-- command. The reply goes to the client, if there is one. The id of the request, the
-- acknowledgment of the entry and the log are not modelled.
unfoldable pub process_entry :
    World → ℕ → Text → Option Command → Engine → Option (Text × Response) × Engine
process_entry w p client none e = (none, e)
process_entry w p client (some c) e = elim c.kind [
  | no_command ↦ (none, e)
  | _ ↦
      let (response, e') = handle_message w p c.kind c.payload e in
      (if is_empty client then none else some (client, response), e')
]

-- Live consumption of entries of a partition, the i-th from a client of its own.
unfoldable pub process_entries :
    ℕ → (ℕ → Text) → ℕ → List (World × Option Command) → Engine → Engine
process_entries p clients i [] e = e
process_entries p clients i ((w, c) ∷ cs) e =
    process_entries p clients (i + 1) cs (process_entry w p (clients i) c e).1

-- `applyCommand`
unfoldable pub apply_command : World → ℕ → Command → Engine → Engine
apply_command w p c e = elim c.kind [
  | no_command ↦ e
  | _ ↦ (handle_message w p c.kind c.payload e).1
]

-- The loop of `replayCommandLog` over the entries of the stream, each with the world at its time;
-- `none` is an entry without a readable command.
unfoldable pub replay_entries : ℕ → List (World × Option Command) → Engine → Engine
replay_entries p [] e = e
replay_entries p ((w, none) ∷ cs) e = replay_entries p cs e
replay_entries p ((w, some c) ∷ cs) e = replay_entries p cs (apply_command w p c e)

unfoldable pub set_replaying : ℕ → Bool → Engine → Engine
set_replaying p b e = record e { replaying = λ q. ite (ℕ_discrete q p) b (e.replaying q) }

-- `replayCommandLog`; `none` means that the stream could not be read.
unfoldable pub replay_command_log : ℕ → Option (List (World × Option Command)) → Engine → Engine
replay_command_log p none e = e
replay_command_log p (some cs) e =
    if e.has_redis then set_replaying p false (replay_entries p cs (set_replaying p true e)) else e
