-- ===== src/Ownership/Fence.antt =====
-- internal/engine/worker.go and internal/partition/fencing.go: of the engines of a partition, one at most is heard.
use golang_predix.Common.{
  ℕ, zero, suc, ◌≤◌, ◌≡◌, ◌≢◌, refl, ◌∙◌, sym, ap, Bool, some, List, [], ◌∷◌, Text, arith,
}
use golang_predix.Partition.Redis.{Redis}
use golang_predix.Partition.Router.{lease_key, fencing_key}
use golang_predix.Partition.Fencing.{
  fencing_accept, fencing_stale, fencing_decision_for_token, current, fencing_decision,
}
use golang_predix.Ownership.{
  Phase, competing, leased, owning, yielding, System, Move, competes, finishes, renews, draws,
  expires, tick, draw_if, compete_if, finish_if, move, moves,
}
use golang_predix.Ownership.Tokens.{
  token_in, IsFenced, compete-IsFenced, draw-IsFenced, renew_round-IsFenced, finish-IsFenced,
  keys_differ,
}

module _ (redis : Redis) (p ttl : ℕ) where
  compete_if-IsFenced :
      (id : Text) (x : Phase) (y : System redis)
      → IsFenced redis p ttl y
      → IsFenced redis p ttl (compete_if redis p ttl id x y)
  unfolding compete_if
  compete_if-IsFenced id competing y f = compete-IsFenced redis p ttl id y f
  compete_if-IsFenced id leased y f = f
  compete_if-IsFenced id (owning t) y f = f
  compete_if-IsFenced id (yielding t) y f = f

  draw_if-IsFenced :
      (answered : Bool) (id : Text) (x : Phase) (y : System redis)
      → IsFenced redis p ttl y
      → IsFenced redis p ttl (draw_if redis p ttl answered id x y)
  unfolding draw_if
  draw_if-IsFenced answered id competing y f = f
  draw_if-IsFenced answered id leased y f = draw-IsFenced redis p ttl answered id y f
  draw_if-IsFenced answered id (owning t) y f = f
  draw_if-IsFenced answered id (yielding t) y f = f

  tick-IsFenced :
      (id : Text) (x : Phase) (y : System redis)
      → y.phase id ≡ x
      → IsFenced redis p ttl y
      → IsFenced redis p ttl (tick redis p ttl id x y)
  unfolding tick
  tick-IsFenced id competing y e f = f
  tick-IsFenced id leased y e f = f
  tick-IsFenced id (owning t) y e f = renew_round-IsFenced redis p ttl id t y e f
  tick-IsFenced id (yielding t) y e f = f

  finish_if-IsFenced :
      (id : Text) (x : Phase) (y : System redis)
      → IsFenced redis p ttl y
      → IsFenced redis p ttl (finish_if redis p ttl id x y)
  unfolding finish_if
  finish_if-IsFenced id competing y f = f
  finish_if-IsFenced id leased y f = f
  finish_if-IsFenced id (owning t) y f = finish-IsFenced redis p ttl id y f
  finish_if-IsFenced id (yielding t) y f = finish-IsFenced redis p ttl id y f

  expires-IsFenced :
      (y : System redis)
      → IsFenced redis p ttl y
      → IsFenced redis p ttl (record y { server = redis.expire (lease_key p) y.server })
  expires-IsFenced y f =
      let same = redis.counter_expire (lease_key p) (fencing_key p) y.server (keys_differ p) in
      record {
        drawn = λ id t h. let (a, b) = f.drawn id t h in (a, omega arith);
        distinct = f.distinct;
      }

  pub moves-IsFenced :
      (ms : List (Move redis p ttl)) (y : System redis)
      → IsFenced redis p ttl y
      → IsFenced redis p ttl (moves redis p ttl ms y)
  unfolding moves move
  moves-IsFenced [] y f = f
  moves-IsFenced (competes id ∷ ms) y f =
      moves-IsFenced ms _ (compete_if-IsFenced id (y.phase id) y f)
  moves-IsFenced (draws answered id ∷ ms) y f =
      moves-IsFenced ms _ (draw_if-IsFenced answered id (y.phase id) y f)
  moves-IsFenced (renews id ∷ ms) y f = moves-IsFenced ms _ (tick-IsFenced id (y.phase id) y refl f)
  moves-IsFenced (finishes id ∷ ms) y f =
      moves-IsFenced ms _ (finish_if-IsFenced id (y.phase id) y f)
  moves-IsFenced (expires ∷ ms) y f = moves-IsFenced ms _ (expires-IsFenced y f)

  newest : (t c : ℕ) → 1 ≤ t → t ≤ c → fencing_decision_for_token t c ≡ fencing_accept → t ≡ c
  unfolding fencing_decision_for_token
  newest zero c a b h = absurd (omega arith)
  newest (suc t) c a b h = ground arith

  pub stale_or_newest :
      (t c : ℕ) → 1 ≤ t → t ≤ c → t ≢ c → fencing_decision_for_token t c ≡ fencing_stale
  unfolding fencing_decision_for_token
  stale_or_newest zero c a b ne = absurd (omega arith)
  stale_or_newest (suc t) c a b ne = ground arith

  no_token_yet : (v : ℕ) → token_in competing ≡ some v → ⊥
  no_token_yet v e = ground arith

  -- At the start no engine has a token.
  pub idle-IsFenced :
      (y : System redis) → ((id : Text) → y.phase id ≡ competing) → IsFenced redis p ttl y
  idle-IsFenced y idle = record {
    drawn = λ id v e. absurd (no_token_yet v (ap token_in (sym (idle id)) ∙ e));
    distinct = λ i j v e d. absurd (no_token_yet v (ap token_in (sym (idle i)) ∙ e));
  }

  -- Of the engines that compete for a partition, one at most is heard: after any moves of any engines, from
  -- a state in which all of them compete, in whatever order, with leases that expire at any time between them, and with
  -- calls of Redis that fail, if the database worker accepts the token of one engine, the token of any other engine is
  -- stale.
  pub one_engine_is_heard :
      (ms : List (Move redis p ttl)) (y : System redis) (i j : Text) (t u : ℕ)
      → ((id : Text) → y.phase id ≡ competing)
      → token_in ((moves redis p ttl ms y).phase i) ≡ some t
      → token_in ((moves redis p ttl ms y).phase j) ≡ some u
      → i ≢ j
      → fencing_decision redis (fencing_key p) t (moves redis p ttl ms y).server ≡ fencing_accept
      → fencing_decision redis (fencing_key p) u (moves redis p ttl ms y).server ≡ fencing_stale
  unfolding fencing_decision current
  one_engine_is_heard ms y i j t u idle h k ne a =
      let f = moves-IsFenced ms y (idle-IsFenced y idle) in
      let (m, n) = f.drawn i t h in
      let (m', n') = f.drawn j u k in
      let top = newest t _ m n a in
      stale_or_newest u _ m' n' (λ e. ne (f.distinct i j t h (k ∙ ap some (e ∙ sym top))))
