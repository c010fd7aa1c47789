-- ===== src/Websocket/Hub/Refine.antt =====
-- internal/websocket: every run of the hub keeps the promise of its specification.
use golang_predix.Common.{
  ℕ, ◌≡◌, ◌∙◌, sym, ap, true, false, none, some, List, [], ◌∷◌, ite, Text, Text-discrete,
  ℕ_discrete, inl, inr, Bool-cases, arith,
}
use golang_predix.Engine.Orders.{is_empty}
use golang_predix.Websocket.Sets.{has, has-put, has-drop}
use golang_predix.Websocket.Client.{
  Message, Method, subscribe_method, unsubscribe_method, unknown_method, Clients, new_client,
  set_client, is_subscribed, close, take_message,
}
use golang_predix.Websocket.Hub.{
  Hub, register, unregister, subscribe, unsubscribe, broadcast_event, subscribe_all,
  unsubscribe_all, handle_subscribe, handle_unsubscribe, call_method, handle_message, connect,
  disconnect,
}
use golang_predix.Websocket.Hub.Tables.{sweep-IsProper, follows-sweep}
use golang_predix.Websocket.Hub.Steps.{
  Step, connects, receives, leaves, writes, gives_up, broadcasts, step, IsLegal, Run, start,
  goes_to,
}
use golang_predix.Websocket.Hub.Consistent.{
  follow_all, unfollow_all, requested, spec_step, spec_run, Spec, Represents, follow, unfollow,
  subscribe-Represents, unsubscribe-Represents,
}
use golang_predix.Websocket.Hub.Quiet.{
  close-same, take_message-same, send_all-same, clients-Represents, set_clients-Represents,
  refuse-Represents,
}

subscribe_all-Represents :
    (c : ℕ) (events : List Text) (h : Hub) (s : Spec)
    → s.online c ≡ true
    → Represents h s
    → Represents (subscribe_all c events h) (follow_all c events s)
unfolding subscribe_all follow_all
subscribe_all-Represents c [] h s on r = r
subscribe_all-Represents c (event ∷ events) h s on r = elim (Bool-cases (is_empty event)) [
  | inl empty ↦ rw empty (subscribe_all-Represents c events h s on r)
  | inr named ↦ rw named (
      subscribe_all-Represents c events (subscribe c event h) (follow c event s) on
        (subscribe-Represents c event h s named on r))
]

unsubscribe_all-Represents :
    (c : ℕ) (events : List Text) (h : Hub) (s : Spec)
    → Represents h s
    → Represents (unsubscribe_all c events h) (unfollow_all c events s)
unfolding unsubscribe_all unfollow_all
unsubscribe_all-Represents c [] h s r = r
unsubscribe_all-Represents c (event ∷ events) h s r = elim (Bool-cases (is_empty event)) [
  | inl empty ↦ rw empty (unsubscribe_all-Represents c events h s r)
  | inr named ↦ rw named (
      unsubscribe_all-Represents c events (unsubscribe c event h) (unfollow c event s)
        (unsubscribe-Represents c event h s r))
]

call_method-Represents :
    (c : ℕ) (k : Method) (params : List Text) (h i : Hub) (s : Spec)
    → s.online c ≡ true
    → call_method c k params h ≡ some i
    → Represents h s
    → Represents i (requested c k params s)
unfolding call_method handle_subscribe handle_unsubscribe follow_all unfollow_all
call_method-Represents c subscribe_method [] h i s on e r = refuse-Represents c _ h i s e r
call_method-Represents c subscribe_method (x ∷ xs) h i s on e r =
    let k : i ≡ subscribe_all c (x ∷ xs) h = ground arith in
    rw k (subscribe_all-Represents c (x ∷ xs) h s on r)
call_method-Represents c unsubscribe_method [] h i s on e r = refuse-Represents c _ h i s e r
call_method-Represents c unsubscribe_method (x ∷ xs) h i s on e r =
    let k : i ≡ unsubscribe_all c (x ∷ xs) h = ground arith in
    rw k (unsubscribe_all-Represents c (x ∷ xs) h s r)
call_method-Represents c unknown_method params h i s on e r = refuse-Represents c _ h i s e r

-- A new client has no subscriptions.
new_subscribed :
    (j c : ℕ) (e : Text) (cs : Clients)
    → is_subscribed j e (set_client c new_client cs)
      ≡ ite (ℕ_discrete j c) false (is_subscribed j e cs)
unfolding is_subscribed set_client new_client has
new_subscribed j c e cs = ground arith

closed_subscribed :
    (j c : ℕ) (e : Text) (cs : Clients) → is_subscribed j e (close c cs) ≡ is_subscribed j e cs
unfolding is_subscribed
closed_subscribed j c e cs = ap (has Text-discrete e) (close-same c cs j)

connect-Represents :
    (c : ℕ) (h : Hub) (s : Spec)
    → has ℕ_discrete c h.connected ≡ false
    → Represents h s
    → Represents (connect c h) (spec_step (connects c) s)
unfolding connect register set_client new_client is_subscribed has
connect-Represents c h s fresh r = record {
  proper = r.proper;
  online_is = λ j. ground (arith, has-put ℕ_discrete j c h.connected, r.online_is j);
  followed_is = r.followed_is;
  only_online = λ j. λ e. λ k. ground (arith, r.only_online j e k);
  clients_know = λ j. λ e. λ on.
      ground (
        arith,
        new_subscribed j c e h.clients,
        r.only_online c e,
        r.online_is c,
        r.clients_know j e,
      );
}

disconnect-Represents :
    (c : ℕ) (h : Hub) (s : Spec)
    → Represents h s
    → Represents (disconnect c h) (spec_step (leaves c) s)
unfolding disconnect unregister is_subscribed close set_client
disconnect-Represents c h s r = record {
  proper = sweep-IsProper c h.subscriptions r.proper;
  online_is = λ j. ground (arith, has-drop ℕ_discrete j c h.connected, r.online_is j);
  followed_is =
      λ j. λ e. ground (arith, follows-sweep j c e h.subscriptions r.proper, r.followed_is j e);
  only_online = λ j. λ e. λ k. ground (arith, r.only_online j e);
  clients_know =
      λ j. λ e. λ on. ground (arith, closed_subscribed j c e h.clients, r.clients_know j e);
}

broadcast_event-Represents :
    (event : Text) (m : Message) (h i : Hub) (s : Spec)
    → broadcast_event event m h ≡ some i
    → Represents h s
    → Represents i s
unfolding broadcast_event
broadcast_event-Represents event m h i s e r =
    set_clients-Represents h i s _ (λ cs k. send_all-same _ m h.clients k) e r

-- A step that does not panic does what the specification says.
step-Represents :
    (x : Step) (h i : Hub) (s : Spec)
    → IsLegal x h
    → step x h ≡ some i
    → Represents h s
    → Represents i (spec_step x s)
unfolding step handle_message
step-Represents (connects c) h i s legal e r =
    let k : i ≡ connect c h = ground arith in rw k (connect-Represents c h s legal r)
step-Represents (receives c none) h i s legal e r = refuse-Represents c _ h i s e r
step-Represents (receives c (some v)) h i s legal e r =
    call_method-Represents c v.method v.params h i s (sym (r.online_is c) ∙ legal) e r
step-Represents (leaves c) h i s legal e r =
    let k : i ≡ disconnect c h = ground arith in rw k (disconnect-Represents c h s r)
step-Represents (writes c) h i s legal e r =
    let k : i ≡ record h { clients = take_message c h.clients } = ground arith in
    rw k (clients-Represents h _ s (take_message-same c h.clients) r)
step-Represents (gives_up c) h i s legal e r =
    let k : i ≡ record h { clients = close c h.clients } = ground arith in
    rw k (clients-Represents h _ s (close-same c h.clients) r)
step-Represents (broadcasts event m) h i s legal e r = broadcast_event-Represents event m h i s e r

-- The hub refines the specification: any run of connections, requests, disconnections, writes and broadcasts
-- that does not panic, from a hub that represents a state of the specification, ends in one that represents the
-- state to which the specification goes. So a client is in the set of an event exactly if it has asked for
-- it, has not asked for its end since, and is connected; no set is empty; and a connected client's own
-- subscriptions are the same.
pub Run-Represents :
    (h i : Hub) (xs : List Step) (s : Spec)
    → Run h xs i
    → Represents h s
    → Represents i (spec_run xs s)
Run-Represents h i xs s start r = r
Run-Represents h i xs s (goes_to legal e rest) r =
    Run-Represents _ i _ _ rest (step-Represents _ h _ s legal e r)
