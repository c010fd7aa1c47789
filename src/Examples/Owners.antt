-- ===== src/Examples/Owners.antt =====
-- Two engines that compete for a partition, with a server that keeps no times.
use golang_predix.Common.{
  ℕ, ◌≡◌, ◌≢◌, refl, sym, true, false, some, List, [], ◌∷◌, Text, codes, arith,
}
use golang_predix.Partition.Redis.{simple_redis, empty_keys}
use golang_predix.Partition.Router.{fencing_key}
use golang_predix.Partition.Lease.{renew}
use golang_predix.Partition.Fencing.{fencing_accept, fencing_stale, fencing_decision}
use golang_predix.Ownership.{
  competing, owning, System, lease_of, Move, competes, renews, finishes, draws, expires, moves,
}
use golang_predix.Ownership.Tokens.{token_in}
use golang_predix.Ownership.Takeover.{takeover}
use golang_predix.Ownership.Fence.{one_engine_is_heard}
use golang_predix.Ownership.Delay.{late_token_fences_holder}

abbrev idle : System simple_redis
idle = record { phase = λ id. competing; server = empty_keys }

-- The first engine owns the partition, loses it to the second, and has yet to stop.
abbrev failover_run : List (Move simple_redis 0 5000)
failover_run =
    competes (codes "a")
    ∷ draws true (codes "a")
    ∷ renews (codes "a")
    ∷ expires
    ∷ competes (codes "b")
    ∷ draws true (codes "b")
    ∷ renews (codes "a")
    ∷ []

a_ne_b : codes "b" ≢ codes "a"
a_ne_b e = ground arith

one_engine_is_heard_example :
    fencing_decision simple_redis
      (fencing_key 0)
      1
      (moves simple_redis 0 5000 failover_run idle).server
    ≡ fencing_stale
unfolding golang_predix.Ownership.lease_of golang_predix.Ownership.set_phase
    golang_predix.Ownership.compete golang_predix.Ownership.draw golang_predix.Ownership.renew_round
    golang_predix.Ownership.finish golang_predix.Ownership.tick golang_predix.Ownership.draw_if
    golang_predix.Ownership.compete_if golang_predix.Ownership.finish_if
    golang_predix.Ownership.move golang_predix.Ownership.moves
    golang_predix.Partition.Lease.new_lease golang_predix.Partition.Lease.is_owner
    golang_predix.Partition.Lease.acquire golang_predix.Partition.Lease.renew
    golang_predix.Partition.Lease.release golang_predix.Partition.Fencing.fencing_decision_for_token
    golang_predix.Partition.Fencing.next golang_predix.Partition.Fencing.current
    golang_predix.Partition.Fencing.fencing_decision golang_predix.Partition.Router.decimal_from
    golang_predix.Partition.Router.decimal golang_predix.Partition.Router.fencing_key
    golang_predix.Partition.Router.lease_key golang_predix.Common.Text-discrete
one_engine_is_heard_example =
    one_engine_is_heard simple_redis 0 5000 failover_run idle (codes "b") (codes "a") 2 1
      (λ id. refl) refl refl a_ne_b refl

late_token_fences_holder_example :
    let z =
      moves simple_redis 0 5000
        (competes (codes "a")
          ∷ expires
          ∷ competes (codes "b")
          ∷ draws true (codes "b")
          ∷ draws true (codes "a")
          ∷ [])
        idle in
    (t : ℕ) × (u : ℕ) × (z.phase (codes "b") ≡ owning t)
    × ((renew simple_redis (lease_of simple_redis 0 5000 (codes "b")) z.server).0 ≡ true)
    × (fencing_decision simple_redis (fencing_key 0) t z.server ≡ fencing_stale)
    × (z.phase (codes "a") ≡ owning u)
    × ((renew simple_redis (lease_of simple_redis 0 5000 (codes "a")) z.server).0 ≡ false)
    × (fencing_decision simple_redis (fencing_key 0) u z.server ≡ fencing_accept)
late_token_fences_holder_example =
    late_token_fences_holder simple_redis 0 5000 (codes "a") (codes "b") idle (λ e. a_ne_b (sym e))
      (λ id. refl) refl

-- The first engine owns the partition.
abbrev reign : List (Move simple_redis 0 5000)
reign = competes (codes "a") ∷ draws true (codes "a") ∷ renews (codes "a") ∷ []

b_waits : (moves simple_redis 0 5000 reign idle).phase (codes "b") ≡ competing
unfolding golang_predix.Ownership.lease_of golang_predix.Ownership.set_phase
    golang_predix.Ownership.compete golang_predix.Ownership.draw golang_predix.Ownership.renew_round
    golang_predix.Ownership.finish golang_predix.Ownership.tick golang_predix.Ownership.draw_if
    golang_predix.Ownership.compete_if golang_predix.Ownership.finish_if
    golang_predix.Ownership.move golang_predix.Ownership.moves
    golang_predix.Partition.Lease.new_lease golang_predix.Partition.Lease.is_owner
    golang_predix.Partition.Lease.acquire golang_predix.Partition.Lease.renew
    golang_predix.Partition.Lease.release golang_predix.Partition.Fencing.fencing_decision_for_token
    golang_predix.Partition.Fencing.next golang_predix.Partition.Fencing.current
    golang_predix.Partition.Fencing.fencing_decision golang_predix.Partition.Router.decimal_from
    golang_predix.Partition.Router.decimal golang_predix.Partition.Router.fencing_key
    golang_predix.Partition.Router.lease_key golang_predix.Common.Text-discrete
b_waits = refl

takeover_example :
    let z =
      moves simple_redis 0 5000
        (expires ∷ competes (codes "b") ∷ draws true (codes "b") ∷ [])
        (moves simple_redis 0 5000 reign idle) in
    (t : ℕ) × (z.phase (codes "b") ≡ owning t)
    × ((renew simple_redis (lease_of simple_redis 0 5000 (codes "b")) z.server).0 ≡ true)
    × (fencing_decision simple_redis (fencing_key 0) t z.server ≡ fencing_accept)
    × ((i : Text) (u : ℕ)
        → i ≢ codes "b"
        → token_in (z.phase i) ≡ some u
        → fencing_decision simple_redis (fencing_key 0) u z.server ≡ fencing_stale)
takeover_example = takeover simple_redis 0 5000 reign idle (codes "b") (λ id. refl) b_waits
