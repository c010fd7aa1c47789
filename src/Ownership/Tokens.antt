-- ===== src/Ownership/Tokens.antt =====
-- internal/engine/worker.go and internal/partition/fencing.go: the tokens that the engines of a partition have
-- drawn, and what one step of an engine does to them.
use golang_predix.Common.{
  ℕ, suc, ◌≤◌, ◌<◌, ◌≡◌, ◌≢◌, refl, ◌∙◌, sym, ap, ◌⊎◌, inl, inr, Bool, true, false, Option, none,
  some, ite, Text, Text-discrete, Bool-cases, if◌then◌else◌, arith,
}
use golang_predix.Partition.Redis.{Redis}
use golang_predix.Partition.Router.{lease_key, fencing_key}
use golang_predix.Partition.Lease.{Lease, new_lease, acquire, renew, release, is_owner}
use golang_predix.Partition.Fencing.{next}
use golang_predix.Ownership.{
  Phase, competing, leased, owning, yielding, System, lease_of, set_phase, compete, draw,
  renew_round, finish,
}

abbrev pub token_in : Phase → Option ℕ
token_in competing = none
token_in leased = none
token_in (owning t) = some t
token_in (yielding t) = some t

pub keys_differ : (p : ℕ) → fencing_key p ≢ lease_key p
unfolding fencing_key lease_key
keys_differ p e = ground arith

module _ (redis : Redis) (p ttl : ℕ) where
  abbrev now : redis.State → ℕ
  now s = redis.counter (fencing_key p) s

  -- The tokens of the engines are drawn ones, and no two engines have the same.
  pub record IsFenced (y : System redis) : Type 0 where
    pub drawn : (id : Text) (t : ℕ) → token_in (y.phase id) ≡ some t → (1 ≤ t) × (t ≤ now y.server)
    pub distinct :
        (i j : Text) (t : ℕ) → token_in (y.phase i) ≡ some t → token_in (y.phase j) ≡ some t → i ≡ j

  set_phase-IsFenced :
      (id : Text) (x : Phase) (s : redis.State) (y : System redis)
      → now y.server ≤ now s
      → ((t : ℕ)
          → token_in x ≡ some t
          → (token_in (y.phase id) ≡ some t) ⊎ ((now y.server < t) × (t ≤ now s)))
      → IsFenced y
      → IsFenced (set_phase redis p ttl id x s y)
  unfolding set_phase
  set_phase-IsFenced id x s y grows from f = record {
    drawn = λ j t h. at (Text-discrete j id) t h;
    distinct = λ i j t h k. both (Text-discrete i id) (Text-discrete j id) t h k;
  }
    where
      at :
          {j : Text} (d : Dec (j ≡ id)) (t : ℕ)
          → token_in (ite d x (y.phase j)) ≡ some t
          → (1 ≤ t) × (t ≤ now s)
      at (yes same) t h = elim (from t h) [
        | inl old ↦ let (a, b) = f.drawn id t old in (a, omega arith)
        | inr (more, le) ↦ (omega arith, le)
      ]
      at {j} (no differ) t h = let (a, b) = f.drawn j t h in (a, omega arith)

      meets :
          (j : Text)
          → ¬ (j ≡ id)
          → (t : ℕ) → token_in x ≡ some t
          → token_in (y.phase j) ≡ some t
          → id ≡ j
      meets j other t h k = elim (from t h) [
        | inl old ↦ f.distinct id j t old k
        | inr (more, le) ↦ let (a, b) = f.drawn j t k in absurd (omega arith)
      ]

      both :
          {i j : Text} (d : Dec (i ≡ id)) (e : Dec (j ≡ id)) (t : ℕ)
          → token_in (ite d x (y.phase i)) ≡ some t
          → token_in (ite e x (y.phase j)) ≡ some t
          → i ≡ j
      both (yes a) (yes b) t h k = a ∙ sym b
      both {i} {j} (yes a) (no b) t h k = a ∙ meets j b t h k
      both {i} {j} (no a) (yes b) t h k = sym (b ∙ meets i a t k h)
      both {i} {j} (no a) (no b) t h k = f.distinct i j t h k

  -- A move that draws no token.
  quiet-IsFenced :
      (id : Text) (x : Phase) (s : redis.State) (y : System redis)
      → now s ≡ now y.server
      → ((t : ℕ) → token_in x ≡ some t → token_in (y.phase id) ≡ some t)
      → IsFenced y
      → IsFenced (set_phase redis p ttl id x s y)
  quiet-IsFenced id x s y same from f =
      set_phase-IsFenced id x s y (omega arith) (λ t h. inl (from t h)) f

  acquire-now :
      (l : Lease) (s : redis.State) → l.key ≡ lease_key p → now (acquire redis l s).1 ≡ now s
  unfolding acquire
  acquire-now l s e =
      redis.counter_set_nx l.key l.instance_id (fencing_key p) l.ttl s (λ q. keys_differ p (q ∙ e))

  renew-now : (l : Lease) (s : redis.State) → now (renew redis l s).1 ≡ now s
  unfolding renew
  renew-now l s = elim (Bool-cases (is_owner (redis.get l.key s) l.instance_id)) [
    | inl mine ↦ rw mine (redis.counter_pexpire l.key (fencing_key p) l.ttl s)
    | inr other ↦ rw other refl
  ]

  release-now :
      (l : Lease) (s : redis.State) → l.key ≡ lease_key p → now (release redis l s) ≡ now s
  unfolding release
  release-now l s e = elim (Bool-cases (is_owner (redis.get l.key s) l.instance_id)) [
    | inl mine ↦ rw mine (redis.counter_del l.key (fencing_key p) s (λ q. keys_differ p (q ∙ e)))
    | inr other ↦ rw other refl
  ]

  lease_of-key : (id : Text) → (lease_of redis p ttl id).key ≡ lease_key p
  unfolding lease_of new_lease
  lease_of-key id = refl

  no_token : (b : Bool) (t : ℕ) → token_in (if b then leased else competing) ≡ some t → ⊥
  no_token true t h = ground arith
  no_token false t h = ground arith

  same_token : (b : Bool) (u t : ℕ) → token_in (if b then owning u else yielding u) ≡ some t → u ≡ t
  same_token true u t h = ground arith
  same_token false u t h = ground arith

  pub compete-IsFenced :
      (id : Text) (y : System redis) → IsFenced y → IsFenced (compete redis p ttl id y)
  unfolding compete
  compete-IsFenced id y f =
      quiet-IsFenced id _ _ y (acquire-now (lease_of redis p ttl id) y.server (lease_of-key id))
        (λ t h. absurd (no_token _ t h)) f

  pub finish-IsFenced :
      (id : Text) (y : System redis) → IsFenced y → IsFenced (finish redis p ttl id y)
  unfolding finish
  finish-IsFenced id y f =
      quiet-IsFenced id competing _ y
        (release-now (lease_of redis p ttl id) y.server (lease_of-key id))
        (λ t h. absurd (ground arith)) f

  pub draw-IsFenced :
      (answered : Bool) (id : Text) (y : System redis)
      → IsFenced y
      → IsFenced (draw redis p ttl answered id y)
  unfolding draw next
  draw-IsFenced false id y f =
      quiet-IsFenced id competing _ y
        (release-now (lease_of redis p ttl id) y.server (lease_of-key id))
        (λ t h. absurd (ground arith)) f
  draw-IsFenced true id y f =
      let value = redis.incr_value (fencing_key p) y.server in
      let grown = redis.counter_incr (fencing_key p) (fencing_key p) y.server in
      let here : now (redis.incr (fencing_key p) y.server).1 ≡ suc (now y.server) = ground arith in
      set_phase-IsFenced id _ _ y (omega arith) (λ t h. inr (ground (arith, value, here))) f

  pub renew_round-IsFenced :
      (id : Text) (t : ℕ) (y : System redis)
      → y.phase id ≡ owning t
      → IsFenced y
      → IsFenced (renew_round redis p ttl id t y)
  unfolding renew_round
  renew_round-IsFenced id t y e f =
      quiet-IsFenced id _ _ y (renew-now (lease_of redis p ttl id) y.server)
        (λ u h. ap token_in e ∙ ap some (same_token _ t u h)) f
