-- ===== src/Ownership.antt =====
-- internal/engine/worker.go: how the engines compete for a partition.
--
-- The loop of `runPartition` is cut at its calls of Redis, between which the other engines, and the expiry of the
-- lease, come in. What it does with a partition that it owns is Commands.
pub mod Tokens
pub mod Fence
pub mod Delay
pub mod Takeover
use golang_predix.Common.{
  ℕ, ◌≡◌, Bool, true, false, Option, none, some, List, [], ◌∷◌, ite, Text, Text-discrete,
  if◌then◌else◌, ltb, ◌||◌, ℕ_discrete,
}
use golang_predix.Common.Int.{ℤ, pos, pos_part, ltb_ℤ, leb_ℤ}
use golang_predix.Partition.Redis.{Redis}
use golang_predix.Partition.Router.{Router, lease_key, fencing_key}
use golang_predix.Partition.Lease.{Lease, new_lease, acquire, renew, release}
use golang_predix.Partition.Fencing.{next}

pub data PartitionError : Type 0 where
  out_of_range already_configured : PartitionError

unfoldable pub configured : ℕ → List ℕ → Bool
configured p [] = false
configured p (q ∷ qs) = ite (ℕ_discrete p q) true (configured p qs)

-- `AddPartition`, on the partitions of the engine.
unfoldable pub add_partition : Router → ℤ → List ℕ → Option PartitionError × List ℕ
add_partition r p ps =
    if ltb_ℤ p (pos 0) || leb_ℤ (pos r.partitions) p
    then (some out_of_range, ps)
    else if configured (pos_part p) ps
    then (some already_configured, ps)
    else (none, pos_part p ∷ ps)

-- Where the loop of an engine stands: it competes for the lease; it has it and draws a token; it owns the partition
-- with its token; or it has seen that the lease is lost, and its consumer has yet to stop.
pub data Phase : Type 0 where
  competing leased : Phase
  owning yielding : ℕ → Phase

-- The engines of one partition, by their ids, and the Redis server.
pub record System (redis : Redis) : Type 0 where
  pub phase : Text → Phase
  pub server : redis.State

module _ (redis : Redis) (p ttl : ℕ) where
  unfoldable pub lease_of : Text → Lease
  lease_of id = new_lease (lease_key p) id ttl

  unfoldable pub set_phase : Text → Phase → redis.State → System redis → System redis
  set_phase id x s y = record { phase = λ j. ite (Text-discrete j id) x (y.phase j); server = s }

  -- `lease.Acquire`; an error of the connection is a round without a call.
  unfoldable pub compete : Text → System redis → System redis
  compete id y =
      let (got, s) = acquire redis (lease_of id) y.server in
      set_phase id (if got then leased else competing) s y

  -- `fencing.Next`, or the release where it fails.
  unfoldable pub draw : Bool → Text → System redis → System redis
  draw answered id y =
      let (token, s) = next redis (fencing_key p) y.server in
      if answered
      then set_phase id (owning token) s y
      else set_phase id competing (release redis (lease_of id) y.server) y

  -- A tick of `renewLease`
  unfoldable pub renew_round : Text → ℕ → System redis → System redis
  renew_round id token y =
      let (kept, s) = renew redis (lease_of id) y.server in
      set_phase id (if kept then owning token else yielding token) s y

  -- The end of a round of `runPartition`: the lease is released and the token forgotten.
  unfoldable pub finish : Text → System redis → System redis
  finish id y = set_phase id competing (release redis (lease_of id) y.server) y

  pub data Move : Type 0 where
    competes finishes renews : Text → Move
    draws : Bool → Text → Move
    expires : Move

  -- What a tick does in each phase.
  unfoldable pub tick : Text → Phase → System redis → System redis
  tick id (owning token) y = renew_round id token y
  tick id _ y = y

  unfoldable pub draw_if : Bool → Text → Phase → System redis → System redis
  draw_if answered id leased y = draw answered id y
  draw_if answered id _ y = y

  unfoldable pub compete_if : Text → Phase → System redis → System redis
  compete_if id competing y = compete id y
  compete_if id _ y = y

  unfoldable pub finish_if : Text → Phase → System redis → System redis
  finish_if id (owning token) y = finish id y
  finish_if id (yielding token) y = finish id y
  finish_if id _ y = y

  -- A move of one engine, in the phase that is its turn, or the expiry of the lease.
  unfoldable pub move : Move → System redis → System redis
  move (competes id) y = compete_if id (y.phase id) y
  move (draws answered id) y = draw_if answered id (y.phase id) y
  move (renews id) y = tick id (y.phase id) y
  move (finishes id) y = finish_if id (y.phase id) y
  move expires y = record y { server = redis.expire (lease_key p) y.server }

  unfoldable pub moves : List Move → System redis → System redis
  moves [] y = y
  moves (m ∷ ms) y = moves ms (move m y)
