-- ===== src/Server/Joining/Entry.antt =====
-- Who gets into a channel.
use prm.Prelude.{
  String, ◌≡◌, ◌≢◌, refl, subst, sym, ap, ◌∙◌, Bool, true, false, some, if◌then◌else◌, ◌==◌,
  string_eq, nat_eq, pair_eq, pair_beq_iff, eq_iff, lookup, insert, lookup-insert_self, ok,
}
use native.Mathlib.Omega.{arith}
use prm.Channels.{Uuid, Channel, add_member, broadcast}
use prm.Channels.Registry.{Key, get, get_or_create}
use prm.Channels.Registry.Laws.{IsSharded, get-update, get_or_create-IsSharded}
use prm.Storage
use prm.Storage.{Store, Read}
use prm.Proto.Kinds.{Frame}
use prm.Server.{Conn, World, encodes, send_error, send_frames, may_join, member_of}
use prm.Server.Joining.{announce, join_allowed, join_found, handle_join, enter, role_of}

module _ {S : Type 0} (store : Store S) where
  named :
      (w : World S) (c : Conn) (id name : String) (channel : Storage.Channel)
      → name ≢ ""
      → store.get_channel_by_name w.state c.tenant_id name ≡ ok channel
      → handle_join store w c id name
        ≡ join_allowed store w c id name channel
            (may_join store w.state c.tenant_id channel c.account_id)
  unfolding handle_join join_found
  named w c id name channel n e =
      by_test (name == "") (ground (arith, eq_iff name "", n)) ∙ ap (join_found store w c id name) e
    where
      by_test :
          (b : Bool)
          → b ≡ false
          → (if b
              then (c, send_error w c "invalid_request" id)
              else join_found store w c id name
                  (store.get_channel_by_name w.state c.tenant_id name))
            ≡ join_found store w c id name (store.get_channel_by_name w.state c.tenant_id name)
      by_test false h = refl
      by_test true h = absurd (ground (arith, h))

  -- The two results of a join that is allowed.
  entered : World S → Conn → String → Storage.Channel → Conn × World S
  entered w c name channel = (
    record c {
      joined_channels = insert name channel.id c.joined_channels;
      joined_roles =
          insert name (role_of (store.get_channel_acl w.state c.tenant_id channel.id c.account_id))
            c.joined_roles;
    },
    enter w c name channel.id,
  )

  join_allowed_lem :
      (w : World S) (c : Conn) (id name : String) (channel : Storage.Channel) (p : Bool × String)
      → p.0 ≡ true
      → join_allowed store w c id name channel p ≡ entered w c name channel
  unfolding join_allowed entered
  join_allowed_lem w c id name channel (true, r) e = refl
  join_allowed_lem w c id name channel (false, r) e = absurd (ground (arith, e))

  registry-announce :
      (b : Bool) (ch : Channel) (f : Frame) (w : World S)
      → (announce b ch f w).registry ≡ w.registry
  unfolding send_frames
  registry-announce true ch f w = by_encoding (encodes w f)
    where
      by_encoding :
          (b : Bool) → (if b then send_frames w (broadcast ch f) else w).registry ≡ w.registry
      by_encoding true = refl
      by_encoding false = refl
  registry-announce false ch f w = refl

  get-enter :
      (w : World S) (c : Conn) (name : String) (channel_id : Uuid)
      → IsSharded w.registry
      → (ch : Channel) × (get (enter w c name channel_id).registry (c.tenant_id, channel_id)
          ≡ some ch)
        × (lookup c.id ch.members ≡ some (member_of c))
  unfolding enter add_member
  get-enter w c name channel_id v =
      let k : Key = (c.tenant_id, channel_id) in
      let made = get_or_create w.registry k name in
      let ch = (add_member made.1 (member_of c)).0 in
      (
        ch,
        ap (λ r. get r k) (registry-announce _ ch _ _)
            ∙ get-update made.0 k k ch (get_or_create-IsSharded w.registry k name v)
            ∙ ground (arith, pair_beq_iff k k),
        lookup-insert_self c.id (member_of c) made.1.members,
      )

  -- A join of a stored channel that the account may join caches the channel's id and the account's
  -- role under the channel's name, and the key of the channel then holds the connection.
  pub handle_join-enters :
      (w : World S) (c : Conn) (id name : String) (channel : Storage.Channel)
      → name ≢ ""
      → store.get_channel_by_name w.state c.tenant_id name ≡ ok channel
      → (may_join store w.state c.tenant_id channel c.account_id).0 ≡ true
      → IsSharded w.registry
      → (lookup name (handle_join store w c id name).0.joined_channels ≡ some channel.id)
        × (lookup name (handle_join store w c id name).0.joined_roles
            ≡ some (role_of (store.get_channel_acl w.state c.tenant_id channel.id c.account_id)))
        × (ch : Channel) × (get (handle_join store w c id name).1.registry (c.tenant_id, channel.id)
            ≡ some ch)
        × (lookup c.id ch.members ≡ some (member_of c))
  unfolding entered
  handle_join-enters w c id name channel n e f v =
      let found = get-enter w c name channel.id v in
      let same : handle_join store w c id name ≡ entered w c name channel =
        named w c id name channel n e
        ∙ join_allowed_lem w c id name channel
            (may_join store w.state c.tenant_id channel c.account_id) f in
      subst
        (λ r.
          (lookup name r.0.joined_channels ≡ some channel.id)
          × (lookup name r.0.joined_roles
              ≡ some (role_of (store.get_channel_acl w.state c.tenant_id channel.id c.account_id)))
          × (ch : Channel) × (get r.1.registry (c.tenant_id, channel.id) ≡ some ch)
          × (lookup c.id ch.members ≡ some (member_of c)))
        (sym same)
        (
          lookup-insert_self name channel.id c.joined_channels,
          lookup-insert_self name _ c.joined_roles,
          found.0,
          found.1,
          found.2,
        )
