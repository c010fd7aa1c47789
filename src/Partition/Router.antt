-- ===== src/Partition/Router.antt =====
-- internal/partition/router.go: from an event to a partition, and the names of its keys.
--
-- `hash/fnv` is the 64-bit FNV-1a hash: for each byte, exclusive or, then a product modulo 2 ^ 64.
pub mod Names
pub mod Range
use golang_predix.Common.{
  ℕ, zero, suc, ◌+◌, ◌*◌, ◌/◌, ◌%◌, ◌^◌, Bool, true, false, List, [], ◌∷◌, ◌++◌, Text, codes, ltb,
  if◌then◌else◌,
}
use golang_predix.Common.Int.{ℤ, pos, pos_part, ltb_ℤ}
use Prim.Native.Nat.{bit_xor}

abbrev pub fnv_offset : ℕ
fnv_offset = 14695981039346656037

abbrev pub fnv_prime : ℕ
fnv_prime = 1099511628211

unfoldable pub hash_from : ℕ → Text → ℕ
hash_from h [] = h
hash_from h (c ∷ s) = hash_from ((bit_xor h c * fnv_prime) % 2 ^ 64) s

unfoldable pub hash64 : Text → ℕ
hash64 s = hash_from fnv_offset s

pub record Router : Type 0 where
  pub partitions : ℕ
  pub stream_prefix : Text

unfoldable pub or_default : Text → Text → Text
or_default [] d = d
or_default (c ∷ s) d = c ∷ s

-- `NewRouter`, which takes at least one partition.
unfoldable pub new_router : ℤ → Text → Router
new_router n prefix = record {
  partitions = if ltb_ℤ n (pos 1) then 1 else pos_part n;
  stream_prefix = or_default prefix (codes "commands");
}

-- `Router.Partition`
unfoldable pub partition : Router → Text → ℕ
partition r event = hash64 event % r.partitions

-- `%d` of a number that is not negative: one digit for each round, and no more rounds than the
-- number says.
unfoldable pub decimal_from : ℕ → ℕ → Text
decimal_from zero n = (48 + n % 10) ∷ []
decimal_from (suc fuel) n =
    let front = decimal_from fuel (n / 10) in
    if ltb n 10 then (48 + n) ∷ [] else front ++ (48 + n % 10) ∷ []

unfoldable pub decimal : ℕ → Text
decimal n = decimal_from n n

-- `Router.Stream`
unfoldable pub stream : Router → ℕ → Text
stream r p = r.stream_prefix ++ (codes ":partition:" ++ decimal p)

-- `Router.StreamForEvent`
unfoldable pub stream_for_event : Router → Text → Text
stream_for_event r event = stream r (partition r event)

-- `Router.Group`
unfoldable pub group : ℕ → Text
group p = codes "engines:p:" ++ decimal p

-- `Router.SequenceKey`
unfoldable pub sequence_key : Router → ℕ → Text
sequence_key r p = r.stream_prefix ++ (codes ":" ++ (decimal p ++ codes ":sequence"))

-- `FencingKey`, also `Router.FencingKey`
unfoldable pub fencing_key : ℕ → Text
fencing_key p = codes "engine:fencing:" ++ decimal p

-- `LeaseKey`, also `Router.LeaseKey`
unfoldable pub lease_key : ℕ → Text
lease_key p = codes "engine:lease:" ++ decimal p

-- The loop of `PartitionStreams`, with the rounds that are left.
unfoldable pub streams_from : Router → ℕ → ℕ → List Text
streams_from r zero p = []
streams_from r (suc n) p = stream r p ∷ streams_from r n (p + 1)

unfoldable pub partition_streams : Router → List Text
partition_streams r = streams_from r r.partitions 0
