-- ===== src/Ownership/Takeover.antt =====
-- internal/engine/worker.go, `runPartition`: the failover of a partition.
use golang_predix.Common.{ℕ, suc, ◌≡◌, ◌≢◌, ◌∙◌, sym, ap, true, some, List, [], ◌∷◌, Text}
use golang_predix.Partition.Redis.{Redis}
use golang_predix.Partition.Router.{fencing_key}
use golang_predix.Partition.Lease.{renew}
use golang_predix.Partition.Fencing.{fencing_accept, fencing_stale, current, fencing_decision}
use golang_predix.Ownership.{
  competing, owning, System, lease_of, Move, competes, draws, expires, move, moves,
}
use golang_predix.Ownership.Tokens.{token_in}
use golang_predix.Ownership.Fence.{moves-IsFenced, idle-IsFenced, stale_or_newest}
use golang_predix.Ownership.Delay.{
  now, competes_free, draws_late, lease_expires, renews_held, accepted_now,
}

module _ (redis : Redis) (p ttl : ℕ) where
  -- After any moves of any engines, from a state in which all of them
  -- compete, let the lease expire, and let an engine that competes then acquire it and draw its token: it owns the
  -- partition, its renewal succeeds, the database worker accepts its token, and the token of every other engine that
  -- has one is stale.
  pub takeover :
      (ms : List (Move redis p ttl)) (y : System redis) (j : Text)
      → ((id : Text) → y.phase id ≡ competing)
      → (moves redis p ttl ms y).phase j ≡ competing
      → let z =
          moves redis p ttl (expires ∷ competes j ∷ draws true j ∷ []) (moves redis p ttl ms y) in
        (t : ℕ) × (z.phase j ≡ owning t)
        × ((renew redis (lease_of redis p ttl j) z.server).0 ≡ true)
        × (fencing_decision redis (fencing_key p) t z.server ≡ fencing_accept)
        × ((i : Text) (u : ℕ)
            → i ≢ j
            → token_in (z.phase i) ≡ some u
            → fencing_decision redis (fencing_key p) u z.server ≡ fencing_stale)
  unfolding moves fencing_decision current
  takeover ms y j idle waits =
      let x = moves redis p ttl ms y in
      let y₁ = move redis p ttl expires x in
      let y₂ = move redis p ttl (competes j) y₁ in
      let z = move redis p ttl (draws true j) y₂ in
      let (same, gone) = lease_expires redis p ttl x in
      let (a, others, held) = competes_free redis p ttl j y₁ (ap (λ f. f j) same ∙ waits) gone in
      let (b, others', held', counted) = draws_late redis p ttl j y₂ a in
      let f =
        moves-IsFenced redis p ttl (expires ∷ competes j ∷ draws true j ∷ []) x
          (moves-IsFenced redis p ttl ms y (idle-IsFenced redis p ttl y idle)) in
      (
        suc (now redis p ttl y₂),
        b,
        renews_held redis p ttl j z (held' ∙ held),
        rw counted (accepted_now redis p ttl (now redis p ttl y₂)),
        λ i u ne h.
            let (m, n) = f.drawn i u h in
            stale_or_newest redis p ttl u _ m n
              (λ e. ne (f.distinct i j u h (ap token_in b ∙ ap some (sym (e ∙ counted))))),
      )
