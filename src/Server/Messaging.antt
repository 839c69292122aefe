-- ===== src/Server/Messaging.antt =====
-- internal/server/conn.go: a chat message. `env` is what the notification needs besides the server.
pub mod Identity
pub mod Relay
use prm.Prelude.{
  ℕ, String, Bool, true, false, Option, none, some, List, [], ◌∷◌, ◌++◌, if◌then◌else◌, ◌==◌,
  string_eq, lookup, delete, pos,
}
use prm.Channels.{Uuid, Time, Channel, HistoryEntry, broadcast, append_history, recent_messages}
use prm.Channels.Registry.{get, update}
use prm.Matcher.{Engine}
use prm.Mention
use prm.Mention.{Reader}
use prm.Storage.{Store}
use prm.Webhook
use prm.Webhook.Manager.{Manager}
use prm.Webhook.Manager.Notify.{Readings, Notified, notify}
use prm.Proto.Kinds.{Frame}
use prm.Server.{
  msg, Conn, World, encodes, send_frames, send_error, queue, new_stored_message, display_from_role,
}

pub record Env : Type 0 where
  pub engine : Engine
  pub reader : Reader
  pub clock : Uuid → Readings

abbrev pub entry_of : Conn → Time → String → HistoryEntry
entry_of c now body = record {
  sender = c.account_id;
  display_name = c.display_name;
  ts = now;
  body = body;
}

abbrev or_empty_role : Option String → String
or_empty_role none = ""
or_empty_role (some r) = r

-- The frame that the members get.
abbrev pub frame_of : Conn → String → Time → String → Frame
frame_of c name now body =
    msg name c.account_id (display_from_role (or_empty_role (lookup name c.joined_roles))) now body

module _ {S : Type 0} (store : Store S) (env : Env) where
  -- The notification, with the history from before the message.
  notify_webhooks :
      Option Manager → World S → Conn → String → Uuid → Time → String → List HistoryEntry → World S
  notify_webhooks none w c name chan_id now body hist = w
  notify_webhooks (some m) w c name chan_id now body hist =
      let n = notify env.engine store env.clock w.state m (record {
        tenant_id = c.tenant_id;
        channel_id = chan_id;
        channel_name = name;
        sender = c.account_id;
        display_name = c.display_name;
        body = body;
        ts = now;
        mentions = Mention.resolve store w.state env.reader c.tenant_id body;
        context = hist;
      }) in
      record w { state = n.state; webhooks = some n.manager; actions = w.actions ++ n.actions }

  -- Broadcast, history, the durable record, then the webhooks.
  relay : Channel → World S → Conn → String → Uuid → Time → String → World S
  unfolding notify_webhooks
  relay ch w c name chan_id now body =
      let w' = send_frames w (broadcast ch (frame_of c name now body)) in
      let w'' =
        queue
          (record w' {
            registry =
                update w.registry (c.tenant_id, chan_id) (append_history ch (entry_of c now body));
          })
          (new_stored_message c.tenant_id chan_id c.account_id body now) in
      notify_webhooks w.webhooks w'' c name chan_id now body (recent_messages ch (pos 32))

  -- A message that is not encoded is neither broadcast nor kept.
  msg_encoded :
      Bool → Channel → World S → Conn → String → String → Uuid → Time → String → Conn × World S
  unfolding relay
  msg_encoded true ch w c id name chan_id now body = (c, relay ch w c name chan_id now body)
  msg_encoded false ch w c id name chan_id now body = (c, send_error w c "internal" id)

  -- A channel that is no longer in memory is forgotten.
  msg_live :
      Option Channel → World S → Conn → String → String → Uuid → Time → String → Conn × World S
  unfolding msg_encoded
  msg_live none w c id name chan_id now body = (
    record c { joined_channels = delete name c.joined_channels },
    send_error w c "not_in_channel" id,
  )
  msg_live (some ch) w c id name chan_id now body =
      msg_encoded (encodes w (frame_of c name now body)) ch w c id name chan_id now body

  msg_joined : Option Uuid → World S → Conn → String → String → Time → String → Conn × World S
  unfolding msg_live
  msg_joined none w c id name now body = (c, send_error w c "not_in_channel" id)
  msg_joined (some chan_id) w c id name now body =
      msg_live (get w.registry (c.tenant_id, chan_id)) w c id name chan_id now body

  unfoldable pub handle_msg : World S → Conn → String → String → Time → String → Conn × World S
  unfolding msg_joined
  handle_msg w c id name now body =
      if name == ""
      then (c, send_error w c "invalid_request" id)
      else if body == ""
      then (c, w)
      else msg_joined (lookup name c.joined_channels) w c id name now body
