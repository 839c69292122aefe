-- ===== src/Channels/Registry/Laws.antt =====
-- The sharded registry behaves as one map from keys to channels.
use prm.Prelude.{
  ℕ, zero, suc, ◌<◌, String, ◌≡◌, ◌≢◌, refl, Option, none, some, List, [], ◌∷◌, arith,
  if◌then◌else◌, ◌==◌, nat_eq, pair_eq, pair_beq_iff, ap, ◌∙◌, length, get_or, set, lookup, insert,
  delete, lookup-insert, lookup-delete, length-set, get_or-set_self, get_or-set_ne,
  get_or-replicate, Bool-cases, inl, inr,
}
use prm.Channels.{Uuid, Channel, new_channel, remove_member}
use prm.Channels.Registry.{
  num_shards, Key, Shard, Registry, new_registry, shard_for, shard_of, get, found_or_new,
  get_or_create, remove, update, drop_conn, drop_conn_all, remove_member_from_all,
}

-- All 64 shards are there.
abbrev pub IsSharded : Registry → Type 0
IsSharded r = length r.shards ≡ num_shards

shard_for-lt : (k : Key) → shard_for k < num_shards
unfolding shard_for
shard_for-lt k = omega arith

-- Reading shard after a write of the shard of `k`, for a write that agrees with a map update at `k`.
get_write :
    (r : Registry) (k j : Key) (s : Shard) (o : Option Channel)
    → IsSharded r
    → ((i : Key) → lookup i s ≡ (if k == i then o else lookup i (shard_of r k)))
    → lookup j (get_or (set r.shards (shard_for k) s) (shard_for j) [])
      ≡ (if k == j then o else get r j)
unfolding get
get_write r k j s o n h = elim (Bool-cases (nat_eq.beq (shard_for k) (shard_for j))) [
  | inl same ↦
      let e : shard_for k ≡ shard_for j = (nat_eq.beq_iff _ _).0 same in
      rw (← e, get_or-set_self r.shards (shard_for k) s [] (rw n (shard_for-lt k))) (h j)
  | inr other ↦
      let ne : shard_for k ≢ shard_for j = ground arith in
      rw (get_or-set_ne r.shards (shard_for k) (shard_for j) s [] ne) (elim (Bool-cases (k == j)) [
        | inl e ↦ absurd (ne (ap shard_for ((pair_beq_iff k j).0 e)))
        | inr e ↦ rw e
      ])
]

-- After `Remove` of a key the registry has no channel there, and the channels of all other keys.
pub get-remove :
    (r : Registry) (k j : Key)
    → IsSharded r
    → get (remove r k) j ≡ (if k == j then none else get r j)
unfolding get remove
get-remove r k j n =
    get_write r k j (delete k (shard_of r k)) none n (λ i. lookup-delete k i (shard_of r k))

-- After a method call on the channel of a key, that key has the new channel, and all others the old.
pub get-update :
    (r : Registry) (k j : Key) (c : Channel)
    → IsSharded r
    → get (update r k c) j ≡ (if k == j then some c else get r j)
unfolding get update
get-update r k j c n =
    get_write r k j (insert k c (shard_of r k)) (some c) n (λ i. lookup-insert k i c (shard_of r k))

abbrev pub or_new : Option Channel → Key → String → Channel
or_new none k name = new_channel k.0 k.1 name
or_new (some c) k name = c

found_or_new_lem :
    (o : Option Channel) (r : Registry) (k j : Key) (name : String)
    → IsSharded r
    → get r k ≡ o
    → ((found_or_new o r k name).1 ≡ or_new o k name)
      × (get (found_or_new o r k name).0 j
          ≡ (if k == j then some (found_or_new o r k name).1 else get r j))
unfolding found_or_new get
found_or_new_lem none r k j name n e =
    let c = new_channel k.0 k.1 name in
    (
      refl,
      get_write r k j (insert k c (shard_of r k)) (some c) n
          (λ i. lookup-insert k i c (shard_of r k)),
    )
found_or_new_lem (some c) r k j name n e = (
  refl,
  elim (Bool-cases (k == j)) [
    | inl same ↦ rw (same, ← (pair_beq_iff k j).0 same) e
    | inr other ↦ rw other
  ],
)

-- `GetOrCreate` returns the channel that is there, or else a new one; the key then has what was
-- returned, and the channels of all other keys are as before.
pub get-get_or_create :
    (r : Registry) (k j : Key) (name : String)
    → IsSharded r
    → ((get_or_create r k name).1 ≡ or_new (get r k) k name)
      × (get (get_or_create r k name).0 j
          ≡ (if k == j then some (get_or_create r k name).1 else get r j))
unfolding get_or_create get
get-get_or_create r k j name n = found_or_new_lem (get r k) r k j name n refl

IsSharded-new_registry : IsSharded new_registry
unfolding new_registry
IsSharded-new_registry = refl

-- `NewRegistry` has no channel under any key.
get-new_registry : (k : Key) → get new_registry k ≡ none
unfolding get new_registry lookup
get-new_registry k = rw (get_or-replicate {A = Shard} 64 [] (shard_for k))

pub get_or_create-IsSharded :
    (r : Registry) (k : Key) (name : String) → IsSharded r → IsSharded (get_or_create r k name).0
unfolding get_or_create found_or_new
get_or_create-IsSharded r k name n =
    ground (
      arith,
      length-set r.shards (shard_for k) (insert k (new_channel k.0 k.1 name) (shard_of r k)),
    )

pub update-IsSharded :
    (r : Registry) (k : Key) (c : Channel) → IsSharded r → IsSharded (update r k c)
unfolding update
update-IsSharded r k c n = length-set r.shards (shard_for k) (insert k c (shard_of r k)) ∙ n

pub remove-IsSharded : (r : Registry) (k : Key) → IsSharded r → IsSharded (remove r k)
unfolding remove
remove-IsSharded r k n = length-set r.shards (shard_for k) (delete k (shard_of r k)) ∙ n

abbrev pub without_conn : Uuid → Option Channel → Option Channel
without_conn id none = none
without_conn id (some c) = some (remove_member c id).0

lookup-drop_conn :
    (id : Uuid) (k : Key) (s : Shard) → lookup k (drop_conn id s) ≡ without_conn id (lookup k s)
unfolding drop_conn lookup
lookup-drop_conn id k [] = refl
lookup-drop_conn id k ((j, c) ∷ rest) = elim (Bool-cases (j == k)) [
  | inl e ↦ rw e
  | inr e ↦ rw e (lookup-drop_conn id k rest)
]

get_or-drop_conn_all :
    (id : Uuid) (ss : List Shard) (i : ℕ)
    → get_or (drop_conn_all id ss) i [] ≡ drop_conn id (get_or ss i [])
unfolding drop_conn_all drop_conn
get_or-drop_conn_all id [] i = refl
get_or-drop_conn_all id (s ∷ ss) zero = refl
get_or-drop_conn_all id (s ∷ ss) (suc i) = get_or-drop_conn_all id ss i

-- `RemoveMemberFromAll` acts on every channel of every shard as `RemoveMember` of the connection,
-- and neither makes nor deletes a channel.
pub get-remove_member_from_all :
    (r : Registry) (id : Uuid) (k : Key)
    → get (remove_member_from_all r id) k ≡ without_conn id (get r k)
unfolding get remove_member_from_all
get-remove_member_from_all r id k =
    rw (get_or-drop_conn_all id r.shards (shard_for k))
      (lookup-drop_conn id k (get_or r.shards (shard_for k) []))
