-- ===== src/Partition/Lease.antt =====
-- internal/partition/lease.go: the lock in Redis that gives a partition one owner.
pub mod Exclusion
use golang_predix.Common.{
  ℕ, ◌≡◌, Bool, true, false, Option, none, some, ite, Text, Text-discrete, if◌then◌else◌,
}
use golang_predix.Partition.Redis.{Redis}

-- `Lease`. The time to live is in milliseconds.
pub record Lease : Type 0 where
  pub key : Text
  pub instance_id : Text
  pub ttl : ℕ

-- `NewLease`
unfoldable pub new_lease : Text → Text → ℕ → Lease
new_lease key instance_id ttl = record { key = key; instance_id = instance_id; ttl = ttl }

-- The test `GET key == id` of the two scripts.
unfoldable pub is_owner : Option Text → Text → Bool
is_owner none id = false
is_owner (some v) id = ite (Text-discrete v id) true false

module _ (redis : Redis) where
  -- `Acquire`
  unfoldable pub acquire : Lease → redis.State → Bool × redis.State
  acquire l s = redis.set_nx l.key l.instance_id l.ttl s

  -- `Renew`, with its script `compareAndRenew`
  unfoldable pub renew : Lease → redis.State → Bool × redis.State
  renew l s =
      if is_owner (redis.get l.key s) l.instance_id
      then (true, redis.pexpire l.key l.ttl s)
      else (false, s)

  -- `Release`, with its script `compareAndRelease`
  unfoldable pub release : Lease → redis.State → redis.State
  release l s = if is_owner (redis.get l.key s) l.instance_id then redis.del l.key s else s
