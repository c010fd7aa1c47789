-- ===== src/Websocket/Hub/Consistent.antt =====
-- internal/websocket: the sets of the hub, the subscriptions of the clients, and a specification of both.
use golang_predix.Common.{
  ℕ, ◌≡◌, Bool, true, false, none, some, List, [], ite, Text, Text-discrete, ℕ_discrete, inl, inr,
  Option-cases, arith, ◌∷◌, if◌then◌else◌,
}
use golang_predix.Common.Dict.{Dict, lookup, value_or}
use golang_predix.Engine.Orders.{is_empty}
use golang_predix.Websocket.Sets.{has, put, has-put, has-drop, put-IsOnce}
use golang_predix.Websocket.Client.{
  Clients, set_client, client_subscribe, client_unsubscribe, is_subscribed, Method,
  subscribe_method, unsubscribe_method, unknown_method,
}
use golang_predix.Websocket.Hub.{Hub, subscribe, shrink, unsubscribe}
use golang_predix.Websocket.Hub.Steps.{Step, connects, receives, leaves}
use golang_predix.Websocket.Hub.Tables.{
  follows, IsProper, insert-IsProper, shrink-IsProper, put-some, IsProper-IsOnce, found-IsOnce,
  follows-insert, follows-shrink,
}

-- What a hub promises: who is online, and who follows which event.
pub record Spec : Type 0 where
  pub online : ℕ → Bool
  pub followed : ℕ → Text → Bool

-- The hub's own sets are a representation of it.
pub record Represents (h : Hub) (s : Spec) : Type 0 where
  pub proper : IsProper h.subscriptions
  pub online_is : (c : ℕ) → has ℕ_discrete c h.connected ≡ s.online c
  pub followed_is : (c : ℕ) (event : Text) → follows c event h.subscriptions ≡ s.followed c event
  pub only_online : (c : ℕ) (event : Text) → s.followed c event ≡ true → s.online c ≡ true
  pub clients_know :
      (c : ℕ) (event : Text)
      → s.online c ≡ true
      → is_subscribed c event h.clients ≡ s.followed c event

-- The promise of one subscription, and of its end.
abbrev pub follow : ℕ → Text → Spec → Spec
follow c event s = record s {
  followed = λ j. λ e.
      ite (Text-discrete e event) (ite (ℕ_discrete j c) true (s.followed j e)) (s.followed j e);
}

abbrev pub unfollow : ℕ → Text → Spec → Spec
unfollow c event s = record s {
  followed = λ j. λ e.
      ite (Text-discrete e event) (ite (ℕ_discrete j c) false (s.followed j e)) (s.followed j e);
}

is_subscribed-subscribe :
    (j c : ℕ) (e event : Text) (cs : Clients)
    → is_empty event ≡ false
    → is_subscribed j e (client_subscribe c event cs)
      ≡ ite
          (Text-discrete e event)
          (ite (ℕ_discrete j c) true (is_subscribed j e cs))
          (is_subscribed j e cs)
unfolding is_subscribed client_subscribe set_client
is_subscribed-subscribe j c e event cs h =
    ground (arith, has-put Text-discrete e event (cs c).subscriptions)

is_subscribed-unsubscribe :
    (j c : ℕ) (e event : Text) (cs : Clients)
    → is_subscribed j e (client_unsubscribe c event cs)
      ≡ ite
          (Text-discrete e event)
          (ite (ℕ_discrete j c) false (is_subscribed j e cs))
          (is_subscribed j e cs)
unfolding is_subscribed client_unsubscribe set_client
is_subscribed-unsubscribe j c e event cs =
    ground (arith, has-drop Text-discrete e event (cs c).subscriptions)

pub subscribe-Represents :
    (c : ℕ) (event : Text) (h : Hub) (s : Spec)
    → is_empty event ≡ false
    → s.online c ≡ true
    → Represents h s
    → Represents (subscribe c event h) (follow c event s)
unfolding subscribe
subscribe-Represents c event h s named on r = record {
  proper =
      insert-IsProper event _ h.subscriptions
        (put-some c _, put-IsOnce ℕ_discrete c _ (IsProper-IsOnce event h.subscriptions r.proper))
        r.proper;
  online_is = r.online_is;
  followed_is = λ j. λ e. ground (
    arith,
    follows-insert j e event (put ℕ_discrete c (value_or [] event h.subscriptions)) h.subscriptions,
    has-put ℕ_discrete j c (value_or [] event h.subscriptions),
    r.followed_is j e,
    r.followed_is j event,
  );
  only_online = λ j. λ e. λ k. ground (arith, on, r.only_online j e);
  clients_know = λ j. λ e. λ k.
      ground (arith, is_subscribed-subscribe j c e event h.clients named, r.clients_know j e k);
}

unsubscribe-none :
    (c : ℕ) (event : Text) (h : Hub)
    → lookup event h.subscriptions ≡ none
    → unsubscribe c event h ≡ h
unfolding unsubscribe
unsubscribe-none c event h e = ground arith

unsubscribe-some :
    (c : ℕ) (event : Text) (h : Hub) (cs : List ℕ)
    → lookup event h.subscriptions ≡ some cs
    → unsubscribe c event h ≡ record h {
      subscriptions = shrink c event cs h.subscriptions;
      clients = client_unsubscribe c event h.clients;
    }
unfolding unsubscribe
unsubscribe-some c event h cs e = ground arith

nobody_follows :
    (c : ℕ) (event : Text) (d : Dict (List ℕ)) → lookup event d ≡ none → follows c event d ≡ false
unfolding value_or has
nobody_follows c event d e = ground arith

pub unsubscribe-Represents :
    (c : ℕ) (event : Text) (h : Hub) (s : Spec)
    → Represents h s
    → Represents (unsubscribe c event h) (unfollow c event s)
unsubscribe-Represents c event h s r = elim (Option-cases (lookup event h.subscriptions)) [
  | inl e ↦ rw (unsubscribe-none c event h e) (record {
    proper = r.proper;
    online_is = r.online_is;
    followed_is = λ j. λ k.
        ground (
          arith,
          nobody_follows j event h.subscriptions e,
          r.followed_is j k,
          r.followed_is j event,
        );
    only_online = λ j. λ k. λ f. ground (arith, r.only_online j k);
    clients_know = λ j. λ k. λ on. ground (
      arith,
      nobody_follows j event h.subscriptions e,
      r.clients_know j k on,
      r.followed_is j event,
    );
  })
  | inr (cs, e) ↦ rw (unsubscribe-some c event h cs e) (record {
    proper =
        shrink-IsProper c event cs h.subscriptions
          (found-IsOnce event cs h.subscriptions r.proper e) r.proper;
    online_is = r.online_is;
    followed_is = λ j. λ k.
        ground (arith, follows-shrink j c k event cs h.subscriptions r.proper e, r.followed_is j k);
    only_online = λ j. λ k. λ f. ground (arith, r.only_online j k);
    clients_know = λ j. λ k. λ on.
        ground (arith, is_subscribed-unsubscribe j c k event h.clients, r.clients_know j k on);
  })
]

-- The promise of the loops of a request.
unfoldable pub follow_all : ℕ → List Text → Spec → Spec
follow_all c [] s = s
follow_all c (event ∷ events) s =
    follow_all c events (if is_empty event then s else follow c event s)

unfoldable pub unfollow_all : ℕ → List Text → Spec → Spec
unfollow_all c [] s = s
unfollow_all c (event ∷ events) s =
    unfollow_all c events (if is_empty event then s else unfollow c event s)

-- What a message asks for.
abbrev pub requested : ℕ → Method → List Text → Spec → Spec
requested c subscribe_method params s = follow_all c params s
requested c unsubscribe_method params s = unfollow_all c params s
requested c unknown_method params s = s

-- What a step promises.
abbrev pub spec_step : Step → Spec → Spec
spec_step (connects c) s = record s { online = λ j. ite (ℕ_discrete j c) true (s.online j) }
spec_step (receives c none) s = s
spec_step (receives c (some v)) s = requested c v.method v.params s
spec_step (leaves c) s = record {
  online = λ j. ite (ℕ_discrete j c) false (s.online j);
  followed = λ j. λ e. ite (ℕ_discrete j c) false (s.followed j e);
}
spec_step _ s = s

abbrev pub spec_run : List Step → Spec → Spec
spec_run [] s = s
spec_run (x ∷ xs) s = spec_run xs (spec_step x s)
