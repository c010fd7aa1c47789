-- ===== src/Examples/Sharding.antt =====
-- Concrete leases, tokens and routers, with a server that keeps no times.
use golang_predix.Common.{◌<◌, ◌≡◌, ◌≢◌, refl, true, false, some, [], ◌∷◌, codes, length, get_elem?}
use golang_predix.Common.Int.{pos}
use golang_predix.Partition.Router.{new_router, partition, partition_streams, stream_for_event}
use golang_predix.Partition.Router.Range.{events_are_routed}
use golang_predix.Partition.Redis.{simple_redis, empty_keys}
use golang_predix.Partition.Lease.{Lease, acquire, renew, release}
use golang_predix.Partition.Lease.Exclusion.{
  acquires, renews, releases, act_all, acquire_is_exclusive,
}

abbrev first : Lease
first = record { key = codes "k"; instance_id = 1 ∷ []; ttl = 5000 }

abbrev second : Lease
second = record { key = codes "k"; instance_id = 2 ∷ []; ttl = 5000 }

differ : second.instance_id ≢ first.instance_id
differ e = cc

acquire_is_exclusive_example :
    let s' =
      act_all simple_redis
        (acquires second ∷ renews first ∷ releases second ∷ [])
        (acquire simple_redis first empty_keys).1 in
    ((acquire simple_redis first empty_keys).0 ≡ true)
    × ((renew simple_redis first s').0 ≡ true)
    × (acquire simple_redis first s' ≡ (false, s'))
    × (acquire simple_redis second s' ≡ (false, s'))
    × (renew simple_redis second s' ≡ (false, s'))
    × (release simple_redis second s' ≡ s')
acquire_is_exclusive_example =
    acquire_is_exclusive simple_redis first second
      (acquires second ∷ renews first ∷ releases second ∷ []) empty_keys refl
      (tt, (tt, ((λ e. differ), tt))) refl differ

events_are_routed_example :
    let r = new_router (pos 4) [] in
    (partition r (codes "event-7") < r.partitions)
    × (length (partition_streams r) ≡ r.partitions)
    × (get_elem? (partition_streams r) (partition r (codes "event-7"))
        ≡ some (stream_for_event r (codes "event-7")))
events_are_routed_example = events_are_routed (pos 4) [] (codes "event-7")
