-- ===== src/Server.antt =====
-- internal/server: what the realtime handlers share. A connection's state, the state of the server that
-- they change, and the frames that they enqueue. A frame stands for its encoding; where `EncodeBytes`
-- fails there is nothing to enqueue. The bounded queue behind `Enqueue` and the goroutines of a connection are left out.
pub mod Identity
pub mod Joining
pub mod Chanop
pub mod Messaging
pub mod Login
pub mod Subscriptions
pub mod History
pub mod Roster
pub mod Publish
pub mod Outbound
pub mod Dispatch
use prm.Prelude.{
  ℕ, String, Bool, true, false, Option, none, some, List, [], ◌∷◌, ◌++◌, if◌then◌else◌, ◌==◌,
  string_eq, Assoc, Result, ok, err,
}
use prm.Channels.{Uuid, Time, Member}
use prm.Channels.Registry.{Registry}
use prm.Storage
use prm.Storage.{
  Bytes, Store, Read, ChannelAclEntry, StoredMessage, channel_public, channel_private, can_join,
  role_owner, role_admin, role_channel_op,
}
use prm.Auth.{Challenge}
use prm.Proto.Kinds
use prm.Proto.Kinds.{Frame}
use prm.Proto.Codec.{Json, CodecError, encode_bytes}
use prm.Webhook.Gate.{Action}
use prm.Webhook.Manager.{Manager}

-- The frames that more than one handler sends.
abbrev pub presence : String → String → Uuid → String → Frame
presence channel kind account_id display_name = Frame.presence (record {
  channel = channel;
  kind = kind;
  account_id = account_id;
  display_name = display_name;
})

abbrev pub msg : String → Uuid → String → Time → String → Frame
msg channel sender from_role ts body = Frame.msg (record {
  id = "";
  channel = channel;
  sender = sender;
  from_role = from_role;
  ts = ts;
  body = body;
})

pub record Conn : Type 0 where
  pub id : Uuid
  pub tenant_id : Uuid
  pub account_id : Uuid
  pub display_name : String
  pub authed : Bool
  pub pending_chal : Option Challenge
  pub pongs : List String
  pub joined_channels : Assoc String Uuid
  pub joined_roles : Assoc String String

-- `Conn` as a `channels.Member`.
abbrev pub member_of : Conn → Member
member_of c = record { conn_id = c.id; account_id = c.account_id; display_name = c.display_name }

-- `json` is what the server calls of `encoding/json`, `sent` every call of `Enqueue` in order but for
-- those with no bytes, `queued` every call of the history writer's, `actions` what the webhook gates
-- leave to be done.
pub record World (S : Type 0) : Type 0 where
  pub json : Json
  pub state : S
  pub registry : Registry
  pub webhooks : Option Manager
  pub sent : List (Uuid × Frame)
  pub queued : List StoredMessage
  pub actions : List (Uuid × Action)

is_encoded : Result CodecError Bytes → Bool
is_encoded (ok bytes) = true
is_encoded (err e) = false

acl_verdict : Read ChannelAclEntry → Bool × String
acl_verdict (err e) = (false, "not_in_acl")
acl_verdict (ok entry) = if can_join entry.role then (true, "") else (false, "permission_denied")

-- `newStoredMessage`
abbrev pub new_stored_message : Uuid → Uuid → Uuid → String → Time → StoredMessage
new_stored_message tenant_id channel_id sender body ts = record {
  id = 0;
  tenant_id = tenant_id;
  channel_id = channel_id;
  from_account_id = sender;
  body = body;
  ts = ts;
}

module _ {S : Type 0} where
  unfoldable pub send_frames : World S → List (Uuid × Frame) → World S
  send_frames w frames = record w { sent = w.sent ++ frames }

  -- `EncodeBytes` accepts the frame.
  unfoldable pub encodes : World S → Frame → Bool
  unfolding is_encoded
  encodes w f = is_encoded (encode_bytes w.json f)

  -- A frame that is not encoded is logged and dropped.
  unfoldable pub send_frame : World S → Conn → Frame → World S
  unfolding send_frames
  send_frame w c f = if encodes w f then send_frames w ((c.id, f) ∷ []) else w

  -- `historyWriter.enqueue`
  unfoldable pub queue : World S → StoredMessage → World S
  queue w m = record w { queued = w.queued ++ m ∷ [] }

  -- The detail for humans is left out.
  unfoldable pub send_error : World S → Conn → String → String → World S
  send_error w c reason id = send_frame w c (Frame.error (record { id = id; reason = reason }))

  -- `Server.canJoin`
  unfoldable pub may_join : Store S → S → Uuid → Storage.Channel → Uuid → Bool × String
  unfolding acl_verdict
  may_join store st tenant_id channel account_id =
      if channel.visibility == channel_public
      then (true, "")
      else if channel.visibility == channel_private
      then acl_verdict (store.get_channel_acl st tenant_id channel.id account_id)
      else (false, "unknown_visibility")

unfoldable pub display_from_role : String → String
display_from_role r =
    if r == role_owner
    then r
    else if r == role_admin
    then r
    else if r == role_channel_op
    then r
    else ""
