-- ===== src/Channels/Fanout.antt =====
-- Who receives a broadcast: membership and fan-out.
use prm.Prelude.{
  ℕ, suc, ◌≡◌, refl, none, List, [], ◌∷◌, arith, if◌then◌else◌, ◌==◌, nat_eq, Assoc, lookup, insert,
  delete, lookup-insert, lookup-delete,
}
use prm.Channels.{
  Uuid, Member, Channel, is_some, add_member, remove_member, deliver_all, deliver_except, broadcast,
  broadcast_except,
}

-- Each connection stands once, under its own id.
abbrev pub IsKeyed : Assoc Uuid Member → Type 0
IsKeyed [] = Unit
IsKeyed ((id, m) ∷ rest) = (m.conn_id ≡ id) × (lookup id rest ≡ none) × IsKeyed rest

insert-IsKeyed :
    (m : Member) (ms : Assoc Uuid Member) → IsKeyed ms → IsKeyed (insert m.conn_id m ms)
unfolding insert lookup
insert-IsKeyed m [] k = (refl, refl, tt)
insert-IsKeyed m ((id, n) ∷ rest) k =
    ground (arith, insert-IsKeyed m rest k.2, lookup-insert m.conn_id id m rest)

delete-IsKeyed : (id : Uuid) (ms : Assoc Uuid Member) → IsKeyed ms → IsKeyed (delete id ms)
unfolding delete
delete-IsKeyed id [] k = tt
delete-IsKeyed id ((j, n) ∷ rest) k =
    ground (arith, delete-IsKeyed id rest k.2, lookup-delete id j rest)

-- `AddMember` keeps each connection once, under its own id.
pub add_member-IsKeyed :
    (c : Channel) (m : Member) → IsKeyed c.members → IsKeyed (add_member c m).0.members
unfolding add_member
add_member-IsKeyed c m k = insert-IsKeyed m c.members k

-- So does `RemoveMember`.
pub remove_member-IsKeyed :
    (c : Channel) (id : Uuid) → IsKeyed c.members → IsKeyed (remove_member c id).0.members
unfolding remove_member
remove_member-IsKeyed c id k = delete-IsKeyed id c.members k

module _ {ℓ} {F : Type ℓ} where
  -- How often a frame is enqueued on the connection `id`.
  abbrev pub deliveries : Uuid → List (Uuid × F) → ℕ
  deliveries id [] = 0
  deliveries id ((j, f) ∷ rest) = if j == id then suc (deliveries id rest) else deliveries id rest

  deliveries-deliver_all :
      (id : Uuid) (frame : F) (ms : Assoc Uuid Member)
      → IsKeyed ms
      → deliveries id (deliver_all frame ms) ≡ (if is_some (lookup id ms) then 1 else 0)
  unfolding deliver_all lookup
  deliveries-deliver_all id frame [] k = refl
  deliveries-deliver_all id frame ((j, m) ∷ rest) k =
      ground (arith, deliveries-deliver_all id frame rest k.2)

  deliveries-deliver_except :
      (id skip : Uuid) (frame : F) (ms : Assoc Uuid Member)
      → IsKeyed ms
      → deliveries id (deliver_except frame skip ms)
        ≡ (if skip == id then 0 else if is_some (lookup id ms) then 1 else 0)
  unfolding deliver_except lookup
  deliveries-deliver_except id skip frame [] k = ground arith
  deliveries-deliver_except id skip frame ((j, m) ∷ rest) k =
      ground (arith, deliveries-deliver_except id skip frame rest k.2)

  -- In a channel that holds each connection once, `Broadcast` enqueues the frame exactly once on
  -- every member connection and on no other.
  pub deliveries-broadcast :
      (c : Channel) (frame : F) (id : Uuid)
      → IsKeyed c.members
      → deliveries id (broadcast c frame) ≡ (if is_some (lookup id c.members) then 1 else 0)
  unfolding broadcast
  deliveries-broadcast c frame id k = deliveries-deliver_all id frame c.members k

  -- `BroadcastExcept` does the same but for the connection it skips, which gets nothing.
  pub deliveries-broadcast_except :
      (c : Channel) (frame : F) (skip id : Uuid)
      → IsKeyed c.members
      → deliveries id (broadcast_except c frame skip)
        ≡ (if skip == id then 0 else if is_some (lookup id c.members) then 1 else 0)
  unfolding broadcast_except
  deliveries-broadcast_except c frame skip id k =
      deliveries-deliver_except id skip frame c.members k
