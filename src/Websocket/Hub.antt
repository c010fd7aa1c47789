-- ===== src/Websocket/Hub.antt =====
-- internal/websocket/hub.go, and the methods of client.go that call it.
pub mod Tables
pub mod Steps
pub mod Consistent
pub mod Quiet
pub mod Refine
pub mod Broadcast
use golang_predix.Common.{
  ℕ, Bool, true, false, Option, none, some, List, [], ◌∷◌, Text, if◌then◌else◌, ℕ_discrete, codes,
}
use golang_predix.Common.Dict.{Dict, lookup, insert, delete, value_or}
use golang_predix.Engine.Orders.{is_empty}
use golang_predix.Websocket.Sets.{has, put, drop}
use golang_predix.Websocket.Client.{
  Message, Method, subscribe_method, unsubscribe_method, unknown_method, IncomingMessage, Clients,
  new_client, set_client, client_subscribe, client_unsubscribe, close, send, send_error,
}

-- `Hub`, with the clients that it points to.
pub record Hub : Type 0 where
  pub connected : List ℕ
  pub subscriptions : Dict (List ℕ)
  pub clients : Clients

abbrev pub is_none : List ℕ → Bool
is_none [] = true
is_none (c ∷ cs) = false

-- `Register`
unfoldable pub register : ℕ → Hub → Hub
register c h = record h { connected = put ℕ_discrete c h.connected }

-- The loop of `Unregister`: the client leaves every set, and a set that is empty then is deleted.
unfoldable pub sweep : ℕ → Dict (List ℕ) → Dict (List ℕ)
sweep c [] = []
sweep c (e ∷ d) =
    let left = drop ℕ_discrete c e.1 in
    let rest = sweep c d in if is_none left then rest else (e.0, left) ∷ rest

-- `Unregister`
unfoldable pub unregister : ℕ → Hub → Hub
unregister c h = record h {
  connected = drop ℕ_discrete c h.connected;
  subscriptions = sweep c h.subscriptions;
}

-- `Subscribe`
unfoldable pub subscribe : ℕ → Text → Hub → Hub
subscribe c event h = record h {
  subscriptions =
      insert event (put ℕ_discrete c (value_or [] event h.subscriptions)) h.subscriptions;
  clients = client_subscribe c event h.clients;
}

-- The write of `Unsubscribe` to the map of sets.
unfoldable pub shrink : ℕ → Text → List ℕ → Dict (List ℕ) → Dict (List ℕ)
shrink c event cs d =
    let left = drop ℕ_discrete c cs in if is_none left then delete event d else insert event left d

-- `Unsubscribe`
unfoldable pub unsubscribe : ℕ → Text → Hub → Hub
unsubscribe c event h = elim (lookup event h.subscriptions) [
  | none ↦ h
  | some cs ↦ record h {
    subscriptions = shrink c event cs h.subscriptions;
    clients = client_unsubscribe c event h.clients;
  }
]

-- The loop of `BroadcastEvent` over the clients that it copied.
unfoldable pub send_all : List ℕ → Message → Clients → Option Clients
send_all [] m cs = some cs
send_all (c ∷ targets) m cs = elim (send c m cs) [ none ↦ none | some cs' ↦ send_all targets m cs' ]

unfoldable pub set_clients : Hub → Option Clients → Option Hub
set_clients h none = none
set_clients h (some cs) = some (record h { clients = cs })

-- `BroadcastEvent`
unfoldable pub broadcast_event : Text → Message → Hub → Option Hub
broadcast_event event m h = set_clients h (send_all (value_or [] event h.subscriptions) m h.clients)

-- The loop of `handleSubscribe`
unfoldable pub subscribe_all : ℕ → List Text → Hub → Hub
subscribe_all c [] h = h
subscribe_all c (event ∷ events) h =
    subscribe_all c events (if is_empty event then h else subscribe c event h)

-- The loop of `handleUnsubscribe`
unfoldable pub unsubscribe_all : ℕ → List Text → Hub → Hub
unsubscribe_all c [] h = h
unsubscribe_all c (event ∷ events) h =
    unsubscribe_all c events (if is_empty event then h else unsubscribe c event h)

-- `c.sendError`
unfoldable pub refuse : ℕ → Text → Hub → Option Hub
refuse c text h = set_clients h (send_error c text h.clients)

-- `handleSubscribe`
unfoldable pub handle_subscribe : ℕ → List Text → Hub → Option Hub
handle_subscribe c [] h = refuse c (codes "subscription is required") h
handle_subscribe c (event ∷ events) h = some (subscribe_all c (event ∷ events) h)

-- `handleUnsubscribe`
unfoldable pub handle_unsubscribe : ℕ → List Text → Hub → Option Hub
handle_unsubscribe c [] h = refuse c (codes "subscription is required") h
handle_unsubscribe c (event ∷ events) h = some (unsubscribe_all c (event ∷ events) h)

unfoldable pub call_method : ℕ → Method → List Text → Hub → Option Hub
call_method c subscribe_method params h = handle_subscribe c params h
call_method c unsubscribe_method params h = handle_unsubscribe c params h
call_method c unknown_method params h = refuse c (codes "unknown method") h

-- `handleMessage`; `none` is a message that is no JSON of an `IncomingMessage`.
unfoldable pub handle_message : ℕ → Option IncomingMessage → Hub → Option Hub
handle_message c none h = refuse c (codes "invalid message") h
handle_message c (some v) h = call_method c v.method v.params h

-- The end of `Server.Handle`: a client of its own for each connection.
unfoldable pub connect : ℕ → Hub → Hub
connect c h = register c (record h { clients = set_client c new_client h.clients })

-- The end of `ReadPump`
unfoldable pub disconnect : ℕ → Hub → Hub
disconnect c h = let h' = unregister c h in record h' { clients = close c h'.clients }
