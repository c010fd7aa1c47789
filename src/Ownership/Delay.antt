-- ===== src/Ownership/Delay.antt =====
-- internal/engine/worker.go, `runPartition`: a token that is drawn late.
use golang_predix.Common.{
  ℕ, suc, ◌≡◌, ◌≢◌, refl, ◌∙◌, sym, ap, true, false, Option, none, some, [], ◌∷◌, Text, arith,
}
use golang_predix.Partition.Redis.{Redis}
use golang_predix.Partition.Router.{lease_key, fencing_key}
use golang_predix.Partition.Lease.{new_lease, acquire, renew, is_owner}
use golang_predix.Partition.Fencing.{
  fencing_accept, fencing_stale, fencing_decision_for_token, next, current, fencing_decision,
}
use golang_predix.Ownership.{
  competing, leased, owning, System, lease_of, set_phase, compete, draw, competes, draws, expires,
  draw_if, compete_if, move, moves,
}
use golang_predix.Ownership.Tokens.{keys_differ}

module _ (redis : Redis) (p ttl : ℕ) where
  abbrev pub holder : System redis → Option Text
  holder y = redis.get (lease_key p) y.server

  abbrev pub now : System redis → ℕ
  now y = redis.counter (fencing_key p) y.server

  pub competes_free :
      (id : Text) (y : System redis)
      → y.phase id ≡ competing
      → holder y ≡ none
      → let z = move redis p ttl (competes id) y in
        (z.phase id ≡ leased) × ((j : Text) → j ≢ id → z.phase j ≡ y.phase j) × (holder z ≡ some id)
  unfolding move compete_if compete set_phase lease_of new_lease acquire
  competes_free id y e free =
      let (got, mine) = redis.set_nx_free (lease_key p) id ttl y.server free in
      rw (e, move, compete_if) (ground (arith, got), (λ j ne. ground arith), mine)

  pub draws_late :
      (id : Text) (y : System redis)
      → y.phase id ≡ leased
      → let z = move redis p ttl (draws true id) y in
        (z.phase id ≡ owning (suc (now y)))
        × ((j : Text) → j ≢ id → z.phase j ≡ y.phase j)
        × (holder z ≡ holder y)
        × (now z ≡ suc (now y))
  unfolding move draw_if draw set_phase next
  draws_late id y e =
      let value = redis.incr_value (fencing_key p) y.server in
      let grown = redis.counter_incr (fencing_key p) (fencing_key p) y.server in
      rw (e, move, draw_if)
        (
          ground (arith, value),
          (λ j ne. ground arith),
          redis.get_incr (fencing_key p) (lease_key p) y.server (λ q. keys_differ p (sym q)),
          ground (arith, grown),
        )

  pub lease_expires :
      (y : System redis)
      → let z = move redis p ttl expires y in (z.phase ≡ y.phase) × (holder z ≡ none)
  unfolding move
  lease_expires y = (refl, ground (arith, redis.get_expire (lease_key p) (lease_key p) y.server))

  pub renews_held :
      (id : Text) (y : System redis)
      → holder y ≡ some id
      → (renew redis (lease_of redis p ttl id) y.server).0 ≡ true
  unfolding renew lease_of new_lease is_owner
  renews_held id y h = rw h (ground arith)

  renews_not_held :
      (id j : Text) (y : System redis)
      → holder y ≡ some j
      → j ≢ id
      → (renew redis (lease_of redis p ttl id) y.server).0 ≡ false
  unfolding renew lease_of new_lease is_owner
  renews_not_held id j y h ne = rw h (ground arith)

  stale_before : (n : ℕ) → fencing_decision_for_token (suc n) (suc (suc n)) ≡ fencing_stale
  unfolding fencing_decision_for_token
  stale_before n = ground arith

  pub accepted_now : (n : ℕ) → fencing_decision_for_token (suc n) (suc n) ≡ fencing_accept
  unfolding fencing_decision_for_token
  accepted_now n = ground arith

  -- The lease and the token are two calls. Where the lease of an engine expires between them, and another
  -- engine takes the lease and draws its token before the first engine draws its own, the second engine holds the lease
  -- and renews it, but the database worker drops its events as stale; and it accepts those of the first engine, whose
  -- renewals fail.
  pub late_token_fences_holder :
      (i j : Text) (y : System redis)
      → i ≢ j
      → ((id : Text) → y.phase id ≡ competing)
      → redis.get (lease_key p) y.server ≡ none
      → let z =
          moves redis p ttl
            (competes i ∷ expires ∷ competes j ∷ draws true j ∷ draws true i ∷ [])
            y in
        (t : ℕ) × (u : ℕ) × (z.phase j ≡ owning t)
        × ((renew redis (lease_of redis p ttl j) z.server).0 ≡ true)
        × (fencing_decision redis (fencing_key p) t z.server ≡ fencing_stale)
        × (z.phase i ≡ owning u)
        × ((renew redis (lease_of redis p ttl i) z.server).0 ≡ false)
        × (fencing_decision redis (fencing_key p) u z.server ≡ fencing_accept)
  unfolding moves fencing_decision current
  late_token_fences_holder i j y ne idle free =
      let y₁ = move redis p ttl (competes i) y in
      let y₂ = move redis p ttl expires y₁ in
      let y₃ = move redis p ttl (competes j) y₂ in
      let y₄ = move redis p ttl (draws true j) y₃ in
      let y₅ = move redis p ttl (draws true i) y₄ in
      let (a, others, held) = competes_free i y (idle i) free in
      let (same, gone) = lease_expires y₁ in
      let (b, others₃, held₃) =
        competes_free j y₂ (ap (λ f. f j) same ∙ (others j (λ e. ne (sym e)) ∙ idle j)) gone in
      let (c, others₄, held₄, now₄) = draws_late j y₃ b in
      let i₄ : y₄.phase i ≡ leased = others₄ i ne ∙ (others₃ i ne ∙ (ap (λ f. f i) same ∙ a)) in
      let (d, others₅, held₅, now₅) = draws_late i y₄ i₄ in
      let mine = held₅ ∙ (held₄ ∙ held₃) in
      (
        suc (now y₃),
        suc (now y₄),
        others₅ j (λ e. ne (sym e)) ∙ c,
        renews_held j y₅ mine,
        rw (now₅, now₄) (stale_before (now y₃)),
        d,
        renews_not_held i j y₅ mine (λ e. ne (sym e)),
        rw now₅ (accepted_now (now y₄)),
      )
