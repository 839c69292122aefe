-- ===== src/Channels/Registry.antt =====
-- The registry of all live channels: 64 shards, chosen by the FNV-1a hash of the key's bytes.
-- A channel is held by value under its key; `update` is a method call on the `*Channel` that `Get`
-- returned.
pub mod Laws
use prm.Prelude.{
  ℕ, zero, suc, ◌+◌, ◌*◌, ◌/◌, ◌%◌, ◌^◌, String, bit_xor, Option, none, some, List, [], ◌∷◌, ◌++◌,
  reverse, pair_eq, length, get_or, set, replicate, Assoc, lookup, insert, delete, map,
}
use prm.Channels.{Uuid, Channel, new_channel, remove_member}

abbrev pub num_shards : ℕ
num_shards = 64

-- `key{tenantID, chanID}`
abbrev pub Key : Type 0
Key = Uuid × Uuid

abbrev pub Shard : Type 0
Shard = Assoc Key Channel

pub record Registry : Type 0 where
  pub shards : List Shard

unfoldable pub new_registry : Registry
new_registry = record { shards = replicate num_shards [] }

-- The `n` low bytes of `v`, the least first.
bytes_le : ℕ → ℕ → List ℕ
bytes_le zero v = []
bytes_le (suc n) v = (v % 256) ∷ bytes_le n (v / 256)

-- `id[:]`: sixteen bytes, the most significant first.
uuid_bytes : Uuid → List ℕ
unfolding bytes_le
uuid_bytes id = reverse (bytes_le 16 id)

-- FNV-1a, 64 bit, over the bytes that are written.
fnv64a_write : ℕ → List ℕ → ℕ
fnv64a_write h [] = h
fnv64a_write h (b ∷ bs) = fnv64a_write (bit_xor h b * 1099511628211 % 2 ^ 64) bs

pub shard_for : Key → ℕ
unfolding fnv64a_write uuid_bytes
shard_for k =
    fnv64a_write (fnv64a_write 14695981039346656037 (uuid_bytes k.0)) (uuid_bytes k.1) % num_shards

abbrev pub shard_of : Registry → Key → Shard
shard_of r k = get_or r.shards (shard_for k) []

unfoldable pub get : Registry → Key → Option Channel
get r k = lookup k (shard_of r k)

-- What is done with the channel that the two lookups find.
found_or_new : Option Channel → Registry → Key → String → Registry × Channel
found_or_new (some c) r k name = (r, c)
found_or_new none r k name =
    let c = new_channel k.0 k.1 name in
    (record { shards = set r.shards (shard_for k) (insert k c (shard_of r k)) }, c)

-- The read-locked lookup and the second one under the write lock see the same map here.
unfoldable pub get_or_create : Registry → Key → String → Registry × Channel
unfolding found_or_new
get_or_create r k name = found_or_new (lookup k (shard_of r k)) r k name

unfoldable pub remove : Registry → Key → Registry
remove r k = record { shards = set r.shards (shard_for k) (delete k (shard_of r k)) }

-- The state after a method of the channel at `k` has left it as `c`.
unfoldable pub update : Registry → Key → Channel → Registry
update r k c = record { shards = set r.shards (shard_for k) (insert k c (shard_of r k)) }

sum_lengths : List Shard → ℕ
sum_lengths [] = 0
sum_lengths (s ∷ rest) = length s + sum_lengths rest

unfoldable pub count : Registry → ℕ
unfolding sum_lengths
count r = sum_lengths r.shards

drop_conn : Uuid → Shard → Shard
drop_conn id [] = []
drop_conn id ((k, c) ∷ rest) = (k, (remove_member c id).0) ∷ drop_conn id rest

drop_conn_all : Uuid → List Shard → List Shard
drop_conn_all id [] = []
drop_conn_all id (s ∷ rest) = drop_conn id s ∷ drop_conn_all id rest

unfoldable pub remove_member_from_all : Registry → Uuid → Registry
unfolding drop_conn drop_conn_all
remove_member_from_all r id = record { shards = drop_conn_all id r.shards }
