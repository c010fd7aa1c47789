-- ===== src/Websocket/Client.antt =====
-- internal/websocket/client.go and message.go: a connection, and what is written to it.
--
-- A client is its number. The channel `send` is its buffer; `closed` says that the channel is closed. Each
-- function returns what the clients are behind it, or `none` where the source panics: a send on a closed
-- channel. A message is kept as the value that is marshalled, since no such value fails to marshal.
use golang_predix.Common.{
  ℕ, Bool, true, false, Option, none, some, List, [], ◌∷◌, ◌++◌, ite, length, ltb, Text,
  Text-discrete, if◌then◌else◌, ℕ_discrete,
}
use golang_predix.Common.Int.{ℤ}
use golang_predix.Engine.Types.{Side, Outcome}
use golang_predix.Engine.Orders.{is_empty}
use golang_predix.Websocket.Sets.{has, put, drop}

pub record TradeData : Type 0 where
  pub price : ℤ
  pub quantity : ℤ
  pub timestamp : ℕ
  pub event_id : Text
  pub user_id : Text
  pub outcome : Outcome
  pub side : Side

pub record DepthEntry : Type 0 where
  pub price : ℤ
  pub quantity : ℤ
  pub total : ℤ

pub record DepthData : Type 0 where
  pub yes_asks : List DepthEntry
  pub yes_bids : List DepthEntry
  pub no_asks : List DepthEntry
  pub no_bids : List DepthEntry

-- `TradeMessage`, `DepthMessage` and the payload of `sendError`.
pub data Message : Type 0 where
  trade_message : TradeData → Message
  depth_message : DepthData → Message
  error_message : Text → Message

-- The method of an `IncomingMessage`.
pub data Method : Type 0 where
  subscribe_method unsubscribe_method unknown_method : Method

pub record IncomingMessage : Type 0 where
  pub method : Method
  pub params : List Text

pub record Client : Type 0 where
  pub buffer : List Message
  pub subscriptions : List Text
  pub closed : Bool

-- The clients behind the pointers.
abbrev pub Clients : Type 0
Clients = ℕ → Client

-- `sendBufferSize`
abbrev pub send_buffer_size : ℕ
send_buffer_size = 256

-- `NewClient`
unfoldable pub new_client : Client
new_client = record { buffer = []; subscriptions = []; closed = false }

unfoldable pub set_client : ℕ → Client → Clients → Clients
set_client c x cs = λ j. ite (ℕ_discrete j c) x (cs j)

-- `Client.Subscribe`
unfoldable pub client_subscribe : ℕ → Text → Clients → Clients
client_subscribe c event cs =
    let x = cs c in
    if is_empty event
    then cs
    else set_client c (record x { subscriptions = put Text-discrete event x.subscriptions }) cs

-- `Client.Unsubscribe`
unfoldable pub client_unsubscribe : ℕ → Text → Clients → Clients
client_unsubscribe c event cs =
    let x = cs c in
    set_client c (record x { subscriptions = drop Text-discrete event x.subscriptions }) cs

-- `IsSubscribed`
unfoldable pub is_subscribed : ℕ → Text → Clients → Bool
is_subscribed c event cs = has Text-discrete event (cs c).subscriptions

-- `close`; a closed client stays as it is.
unfoldable pub close : ℕ → Clients → Clients
close c cs = set_client c (record (cs c) { closed = true }) cs

-- `Send`
unfoldable pub send : ℕ → Message → Clients → Option Clients
send c m cs =
    let x = cs c in
    if x.closed
    then none
    else if ltb (length x.buffer) send_buffer_size
    then some (set_client c (record x { buffer = x.buffer ++ m ∷ [] }) cs)
    else some (close c cs)

-- `sendError`
unfoldable pub send_error : ℕ → Text → Clients → Option Clients
send_error c text cs = send c (error_message text) cs

-- A round of `WritePump` that takes a message from the channel.
unfoldable pub take_message : ℕ → Clients → Clients
take_message c cs = elim (cs c).buffer [
  | [] ↦ cs
  | m ∷ ms ↦ set_client c (record (cs c) { buffer = ms }) cs
]
