-- ===== src/Partition/Router/Range.antt =====
-- internal/partition/router.go: every event has a partition, and its stream is one of the router's.
use golang_predix.Common.{
  ℕ, zero, suc, ◌+◌, ◌<◌, ◌≡◌, refl, ap, ◌∙◌, some, Text, arith, get_elem?, length,
}
use golang_predix.Common.Int.{ℤ}
use golang_predix.Partition.Router.{
  Router, new_router, partition, stream, stream_for_event, streams_from, partition_streams,
}

streams_from-at :
    (r : Router) (n p i : ℕ) → i < n → get_elem? (streams_from r n p) i ≡ some (stream r (p + i))
unfolding streams_from
streams_from-at r zero p i h = absurd (omega arith)
streams_from-at r (suc n) p zero h = ap (λ k. some (stream r k)) (omega arith)
streams_from-at r (suc n) p (suc i) h =
    streams_from-at r n (p + 1) i (omega arith) ∙ ap (λ k. some (stream r k)) (omega arith)

length-streams_from : (r : Router) (n p : ℕ) → length (streams_from r n p) ≡ n
unfolding streams_from
length-streams_from r zero p = refl
length-streams_from r (suc n) p = ap suc (length-streams_from r n (p + 1))

partition-lt :
    (n : ℤ) (prefix event : Text)
    → partition (new_router n prefix) event < (new_router n prefix).partitions
unfolding partition new_router
partition-lt n prefix event = ground arith

-- A router of `NewRouter` routes every event to one of its partitions, and the stream of the event
-- is the entry of that partition among the streams of the router, of which there is one for each.
pub events_are_routed :
    (n : ℤ) (prefix event : Text)
    → let r = new_router n prefix in
      (partition r event < r.partitions)
      × (length (partition_streams r) ≡ r.partitions)
      × (get_elem? (partition_streams r) (partition r event) ≡ some (stream_for_event r event))
unfolding partition_streams stream_for_event
events_are_routed n prefix event =
    let r = new_router n prefix in
    let below = partition-lt n prefix event in
    (
      below,
      length-streams_from r r.partitions 0,
      streams_from-at r r.partitions 0 (partition r event) below
          ∙ ap (λ k. some (stream r k)) (omega arith),
    )
