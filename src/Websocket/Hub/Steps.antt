-- ===== src/Websocket/Hub/Steps.antt =====
-- internal/websocket: what happens to a hub, one call at a time.
--
-- A connection's own calls come in the order of its two pumps: the hub knows the client from `Register`
-- until its `ReadPump` ends, and only then does it read messages.
use golang_predix.Common.{ℕ, ◌≡◌, true, false, Option, some, List, [], ◌∷◌, Text, ℕ_discrete}
use golang_predix.Websocket.Sets.{has}
use golang_predix.Websocket.Client.{Message, IncomingMessage, close, take_message}
use golang_predix.Websocket.Hub.{Hub, broadcast_event, handle_message, connect, disconnect}

pub data Step : Type 0 where
  connects : ℕ → Step
  receives : ℕ → Option IncomingMessage → Step
  leaves : ℕ → Step
  writes : ℕ → Step
  gives_up : ℕ → Step
  broadcasts : Text → Message → Step

unfoldable pub step : Step → Hub → Option Hub
step (connects c) h = some (connect c h)
step (receives c v) h = handle_message c v h
step (leaves c) h = some (disconnect c h)
step (writes c) h = some (record h { clients = take_message c h.clients })
step (gives_up c) h = some (record h { clients = close c h.clients })
step (broadcasts event m) h = broadcast_event event m h

-- A connection has a client of its own, and a message comes from a client that is connected.
abbrev pub IsLegal : Step → Hub → Type 0
IsLegal (connects c) h = has ℕ_discrete c h.connected ≡ false
IsLegal (receives c v) h = has ℕ_discrete c h.connected ≡ true
IsLegal _ h = Unit

-- The runs that do not panic.
pub data Run : Hub → List Step → Hub → Type 0 where
  start : {h : Hub} → Run h [] h
  goes_to :
      {h i j : Hub} {s : Step} {ss : List Step}
      → IsLegal s h
      → step s h ≡ some i
      → Run i ss j
      → Run h (s ∷ ss) j
