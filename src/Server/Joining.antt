-- ===== src/Server/Joining.antt =====
-- internal/server/conn.go: joining and leaving a channel.
pub mod Identity
pub mod Entry
pub mod Rights
mod Tests
use prm.Prelude.{
  ℕ, String, Bool, true, false, Option, none, some, List, [], ◌∷◌, if◌then◌else◌, ◌==◌, nat_eq,
  string_eq, lookup, insert, delete, Result, ok, err,
}
use prm.Channels.{Uuid, Channel, add_member, remove_member, broadcast}
use prm.Channels.Registry.{Registry, get, get_or_create, update}
use prm.Storage
use prm.Storage.{Store, Read, ChannelAclEntry}
use prm.Proto.Kinds.{Frame}
use prm.Server.{presence, Conn, member_of, World, encodes, send_frames, send_error, may_join}

-- The role that a join caches; no entry is the empty role.
unfoldable pub role_of : Read ChannelAclEntry → String
role_of (err e) = ""
role_of (ok entry) = entry.role

module _ {S : Type 0} where
  -- A frame that is not encoded is broadcast as no bytes, which nobody reads.
  abbrev announce : Bool → Channel → Frame → World S → World S
  announce true ch f w = if encodes w f then send_frames w (broadcast ch f) else w
  announce false ch f w = w

  -- The channel in memory after `AddMember`, and the presence frame where the member is new.
  enter : World S → Conn → String → Uuid → World S
  enter w c name channel_id =
      let (r, ch) = get_or_create w.registry (c.tenant_id, channel_id) name in
      let (ch', added) = add_member ch (member_of c) in
      announce added ch' (presence name "join" c.account_id c.display_name)
        (record w { registry = update r (c.tenant_id, channel_id) ch' })

  module _ (store : Store S) where
    join_allowed :
        World S → Conn → String → String → Storage.Channel → Bool × String → Conn × World S
    unfolding enter role_of
    join_allowed w c id name channel (false, reason) = (c, send_error w c reason id)
    join_allowed w c id name channel (true, reason) = (
      record c {
        joined_channels = insert name channel.id c.joined_channels;
        joined_roles =
            insert name
              (role_of (store.get_channel_acl w.state c.tenant_id channel.id c.account_id))
              c.joined_roles;
      },
      enter w c name channel.id,
    )

    join_found : World S → Conn → String → String → Read Storage.Channel → Conn × World S
    unfolding join_allowed
    join_found w c id name (err e) = (c, send_error w c "channel_not_found" id)
    join_found w c id name (ok channel) =
        join_allowed w c id name channel (may_join store w.state c.tenant_id channel c.account_id)

    unfoldable pub handle_join : World S → Conn → String → String → Conn × World S
    unfolding join_found
    handle_join w c id name =
        if name == ""
        then (c, send_error w c "invalid_request" id)
        else join_found w c id name (store.get_channel_by_name w.state c.tenant_id name)

  -- The channel in memory, if it is there, loses the connection.
  leave : Option Channel → World S → Conn → String → Uuid → World S
  leave none w c name channel_id = w
  leave (some ch) w c name channel_id =
      let (ch', removed) = remove_member ch c.id in
      announce removed ch' (presence name "part" c.account_id c.display_name)
        (record w { registry = update w.registry (c.tenant_id, channel_id) ch' })

  part_joined : Option Uuid → World S → Conn → String → Conn × World S
  unfolding leave
  part_joined none w c name = (c, w)
  part_joined (some channel_id) w c name = (
    record c {
      joined_channels = delete name c.joined_channels;
      joined_roles = delete name c.joined_roles;
    },
    leave (get w.registry (c.tenant_id, channel_id)) w c name channel_id,
  )

  unfoldable pub handle_part : World S → Conn → String → String → Conn × World S
  unfolding part_joined
  handle_part w c id name =
      if name == ""
      then (c, send_error w c "invalid_request" id)
      else part_joined (lookup name c.joined_channels) w c name
