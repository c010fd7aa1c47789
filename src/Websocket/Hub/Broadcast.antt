-- ===== src/Websocket/Hub/Broadcast.antt =====
-- internal/websocket/hub.go, `BroadcastEvent`: whom a message reaches, and what a slow client does.
use golang_predix.Common.{
  ℕ, ◌≡◌, refl, ◌∙◌, ap, ◌≢◌, true, false, none, some, List, [], ◌∷◌, ◌++◌, All, length, ltb, Text,
  ℕ_discrete, inl, inr, Option-cases, if◌then◌else◌, arith,
}
use golang_predix.Common.Dict.{value_or}
use golang_predix.Websocket.Sets.{has, IsOnce, has_not}
use golang_predix.Websocket.Client.{
  Message, Client, Clients, send_buffer_size, set_client, close, send,
}
use golang_predix.Websocket.Hub.{Hub, send_all, set_clients, broadcast_event}
use golang_predix.Websocket.Hub.Tables.{follows, IsProper, IsProper-IsOnce}

-- A client with the message in its buffer, or closed where there is no room.
abbrev pub reached : Message → Client → Client
reached m x =
    if ltb (length x.buffer) send_buffer_size
    then record x { buffer = x.buffer ++ m ∷ [] }
    else record x { closed = true }

send_open :
    (c : ℕ) (m : Message) (cs : Clients)
    → (cs c).closed ≡ false
    → send c m cs ≡ some (set_client c (reached m (cs c)) cs)
unfolding send close
send_open c m cs h = ground arith

others_open :
    (c : ℕ) (x : Client) (cs : Clients) (ts : List ℕ)
    → All (λ j. c ≢ j) ts
    → All (λ j. (cs j).closed ≡ false) ts
    → All (λ j. (set_client c x cs j).closed ≡ false) ts
unfolding set_client
others_open c x cs [] ne h = tt
others_open c x cs (j ∷ ts) ne h = (ground (arith, ne.0, h.0), others_open c x cs ts ne.1 h.1)

set_client_self : (c : ℕ) (x : Client) (cs : Clients) → set_client c x cs c ≡ x
unfolding set_client
set_client_self c x cs = ground arith

set_client_other : (j c : ℕ) (x : Client) (cs : Clients) → j ≢ c → set_client c x cs j ≡ cs j
unfolding set_client
set_client_other j c x cs ne = ground arith

send_step :
    (c j : ℕ) (f : Client → Client) (cs : Clients) (ts : List ℕ) (y : Client)
    → All (λ x. c ≢ x) ts
    → y ≡ (
        if has ℕ_discrete j ts
        then f (set_client c (f (cs c)) cs j)
        else set_client c (f (cs c)) cs j)
    → y ≡ (if has ℕ_discrete j (c ∷ ts) then f (cs j) else cs j)
unfolding has
send_step c j f cs ts y once h = elim (ℕ_discrete j c) [
  | yes same ↦ ground (arith, has_not ℕ_discrete c ts once, set_client_self c (f (cs c)) cs)
  | no differ ↦ ground (arith, set_client_other j c (f (cs c)) cs differ)
]

send_all-reaches :
    (ts : List ℕ) (m : Message) (cs : Clients)
    → IsOnce ℕ_discrete ts
    → All (λ c. (cs c).closed ≡ false) ts
    → (ds : Clients) × (send_all ts m cs ≡ some ds)
      × ((j : ℕ) → ds j ≡ (if has ℕ_discrete j ts then reached m (cs j) else cs j))
unfolding send_all has
send_all-reaches [] m cs once open_ = (cs, refl, λ j. refl)
send_all-reaches (c ∷ ts) m cs once open_ =
    let (ds, e, f) =
      send_all-reaches ts m (set_client c (reached m (cs c)) cs) once.1
        (others_open c (reached m (cs c)) cs ts once.0 open_.1) in
    (
      ds,
      ground (arith, send_open c m cs open_.0),
      λ j. send_step c j (reached m) cs ts (ds j) once.0 (f j),
    )

All-has : (ts : List ℕ) (P : ℕ → Type 0) → ((c : ℕ) → has ℕ_discrete c ts ≡ true → P c) → All P ts
unfolding has
All-has [] P h = tt
All-has (x ∷ ts) P h = (h x (ground arith), All-has ts P (λ c. λ k. h c (ground arith)))

-- A broadcast to an event, on a hub whose sets have each client once, where no client of the event is
-- closed: it does not panic, and changes no set; each client of the event has the message last in its
-- buffer, once, or is closed if there was no room, and no other client is changed.
pub broadcast_event-reaches :
    (event : Text) (m : Message) (h : Hub)
    → IsProper h.subscriptions
    → ((c : ℕ) → follows c event h.subscriptions ≡ true → (h.clients c).closed ≡ false)
    → (i : Hub) × (broadcast_event event m h ≡ some i)
      × (i.subscriptions ≡ h.subscriptions)
      × (i.connected ≡ h.connected)
      × ((c : ℕ)
          → i.clients c
            ≡ (if follows c event h.subscriptions then reached m (h.clients c) else h.clients c))
unfolding broadcast_event set_clients
broadcast_event-reaches event m h proper open_ =
    let ts = value_or [] event h.subscriptions in
    let (ds, e, f) =
      send_all-reaches ts m h.clients (IsProper-IsOnce event h.subscriptions proper)
        (All-has ts (λ c. (h.clients c).closed ≡ false) open_) in
    (record h { clients = ds }, ground arith, refl, refl, f)

send-closed :
    (x c : ℕ) (m : Message) (cs ds : Clients)
    → (cs c).closed ≡ true
    → send x m cs ≡ some ds
    → (ds c).closed ≡ true
unfolding send close set_client
send-closed x c m cs ds shut e = ground arith

send_closed : (c : ℕ) (m : Message) (cs : Clients) → (cs c).closed ≡ true → send c m cs ≡ none
unfolding send
send_closed c m cs shut = ground arith

send_all_panics :
    (ts : List ℕ) (c : ℕ) (m : Message) (cs : Clients)
    → (cs c).closed ≡ true
    → has ℕ_discrete c ts ≡ true
    → send_all ts m cs ≡ none
unfolding send_all has
send_all_panics [] c m cs shut there = absurd (ground arith)
send_all_panics (x ∷ ts) c m cs shut there = elim (Option-cases (send x m cs)) [
  | inl e ↦ ground arith
  | inr (ds, e) ↦
      let later = send_all_panics ts c m ds (send-closed x c m cs ds shut e) in
      ground (arith, send_closed c m cs shut, later)
]

broadcast_event_panics :
    (event : Text) (m : Message) (h : Hub) (c : ℕ)
    → (h.clients c).closed ≡ true
    → follows c event h.subscriptions ≡ true
    → broadcast_event event m h ≡ none
unfolding broadcast_event set_clients
broadcast_event_panics event m h c shut there =
    ap (set_clients h)
      (send_all_panics (value_or [] event h.subscriptions) c m h.clients shut there)

-- A slow client can stop the server. On a hub whose sets have each client once, and where no client of an
-- event is closed, a broadcast to the event when the buffer of one of its clients is full does not panic; but
-- the client is closed and stays in the sets of the hub, so that the next broadcast to any of its events,
-- before the client leaves the hub, sends on a closed channel and panics.
pub slow_client_panics :
    (event : Text) (m : Message) (h : Hub) (c : ℕ)
    → IsProper h.subscriptions
    → ((j : ℕ) → follows j event h.subscriptions ≡ true → (h.clients j).closed ≡ false)
    → follows c event h.subscriptions ≡ true
    → ltb (length (h.clients c).buffer) send_buffer_size ≡ false
    → (i : Hub) × (broadcast_event event m h ≡ some i)
      × ((event' : Text) (m' : Message)
          → follows c event' h.subscriptions ≡ true
          → broadcast_event event' m' i ≡ none)
slow_client_panics event m h c proper open_ there full =
    let (i, e, same, online, after) = broadcast_event-reaches event m h proper open_ in
    let shut : (i.clients c).closed ≡ true = ap (λ x. x.closed) (after c) ∙ rw (there, full) refl in
    (
      i,
      e,
      λ event'.
          λ m'. λ k. broadcast_event_panics event' m' i c shut (ap (follows c event') same ∙ k),
    )
