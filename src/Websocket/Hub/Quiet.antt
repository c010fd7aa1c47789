-- ===== src/Websocket/Hub/Quiet.antt =====
-- internal/websocket/client.go: what is written to the clients changes no subscription.
use golang_predix.Common.{
  ℕ, ◌≡◌, refl, ◌∙◌, ap, Option, none, some, List, [], ◌∷◌, Text, Text-discrete, inl, inr,
  Option-cases, arith,
}
use golang_predix.Websocket.Sets.{has}
use golang_predix.Websocket.Client.{
  Message, Clients, set_client, is_subscribed, close, send, send_error, take_message,
}
use golang_predix.Websocket.Hub.{Hub, send_all, set_clients, refuse}
use golang_predix.Websocket.Hub.Consistent.{Spec, Represents}

-- The same subscriptions of every client.
abbrev pub SameSubscriptions : Clients → Clients → Type 0
SameSubscriptions cs ds = (j : ℕ) → (ds j).subscriptions ≡ (cs j).subscriptions

pub close-same : (c : ℕ) (cs : Clients) → SameSubscriptions cs (close c cs)
unfolding close set_client
close-same c cs j = ground arith

pub take_message-same : (c : ℕ) (cs : Clients) → SameSubscriptions cs (take_message c cs)
unfolding take_message set_client
take_message-same c cs j = ground arith

pub send-same :
    (c : ℕ) (m : Message) (cs : Clients) {ds : Clients}
    → send c m cs ≡ some ds
    → SameSubscriptions cs ds
unfolding send set_client
send-same c m cs h j = ground (arith, close-same c cs j)

pub send_all-same :
    (ts : List ℕ) (m : Message) (cs : Clients) {ds : Clients}
    → send_all ts m cs ≡ some ds
    → SameSubscriptions cs ds
unfolding send_all
send_all-same [] m cs h j = ground arith
send_all-same (c ∷ ts) m cs {ds = ds} h j = elim (Option-cases (send c m cs)) [
  | inl e ↦ absurd (ground arith)
  | inr (cs', e) ↦ send_all-same ts m cs' {ds = ds} (ground arith) j ∙ send-same c m cs e j
]

pub clients-Represents :
    (h : Hub) (cs : Clients) (s : Spec)
    → SameSubscriptions h.clients cs
    → Represents h s
    → Represents (record h { clients = cs }) s
unfolding is_subscribed
clients-Represents h cs s same r = record {
  proper = r.proper;
  online_is = r.online_is;
  followed_is = r.followed_is;
  only_online = r.only_online;
  clients_know = λ j. λ e. λ on. ap (has Text-discrete e) (same j) ∙ r.clients_know j e on;
}

pub set_clients-Represents :
    (h i : Hub) (s : Spec) (x : Option Clients)
    → ((cs : Clients) → x ≡ some cs → SameSubscriptions h.clients cs)
    → set_clients h x ≡ some i
    → Represents h s
    → Represents i s
unfolding set_clients
set_clients-Represents h i s none same e r = absurd (ground arith)
set_clients-Represents h i s (some cs) same e r =
    let k : i ≡ record h { clients = cs } = ground arith in
    rw k (clients-Represents h cs s (same cs refl) r)

pub refuse-Represents :
    (c : ℕ) (text : Text) (h i : Hub) (s : Spec)
    → refuse c text h ≡ some i
    → Represents h s
    → Represents i s
unfolding refuse send_error
refuse-Represents c text h i s e r =
    set_clients-Represents h i s _ (λ cs k. send-same c _ h.clients k) e r
