-- ===== src/Server/Publish.antt =====
-- internal/server/publish.go: an inbound event becomes a message of its channel.
pub mod Body
use prm.Prelude.{
  String, Option, none, some, List, ◌++◌, ◌==◌, nat_eq, string_eq, if◌then◌else◌, Result, ok, err,
  pos, [],
}
use prm.Channels.{Uuid, Time, Channel, HistoryEntry, broadcast, append_history, recent_messages}
use prm.Channels.Registry.{get_or_create, update}
use prm.Inbound.{Event}
use prm.Server.Publish.Body.{format_event_body}
use prm.Storage
use prm.Storage.{Store, Read, StoreError}
use prm.Webhook
use prm.Webhook.Manager.{Manager}
use prm.Webhook.Manager.Notify.{notify}
use prm.Server.{World, encodes, send_frames, queue, msg, new_stored_message}
use prm.Server.Messaging.{Env}

-- The channel is not read, or the frame is not encoded.
pub data PublishError : Type 0 where
  not_looked_up : StoreError → PublishError
  not_encoded : PublishError

module _ {S : Type 0} (store : Store S) (env : Env) where
  tell_webhooks :
      Option Manager
      → World S
      → Uuid
      → Uuid
      → String
      → Uuid
      → String
      → Time
      → String
      → List HistoryEntry
      → World S
  tell_webhooks none w tenant_id channel_id name sender source ts body hist = w
  tell_webhooks (some m) w tenant_id channel_id name sender source ts body hist =
      let n = notify env.engine store env.clock w.state m (record {
        tenant_id = tenant_id;
        channel_id = channel_id;
        channel_name = name;
        sender = sender;
        display_name = source;
        body = body;
        ts = ts;
        mentions = [];
        context = hist;
      }) in
      record w { state = n.state; webhooks = some n.manager; actions = w.actions ++ n.actions }

  published : World S → Uuid → Uuid → Uuid → String → String → Time → String → World S
  unfolding tell_webhooks
  published w tenant_id channel_id sender name source ts body =
      let made = get_or_create w.registry (tenant_id, channel_id) name in
      let ch = made.1 in
      let entry : HistoryEntry = record {
        sender = sender;
        display_name = source;
        ts = ts;
        body = body;
      } in
      let w' = send_frames w (broadcast ch (msg name sender "" ts body)) in
      let w'' =
        queue
          (record w' { registry = update made.0 (tenant_id, channel_id) (append_history ch entry) })
          (new_stored_message tenant_id channel_id sender body ts) in
      tell_webhooks w.webhooks w'' tenant_id channel_id name sender source ts body
        (recent_messages ch (pos 32))

  unfoldable pub publish_in :
      World S
      → Uuid
      → Uuid
      → Uuid
      → Event
      → Time
      → Read Storage.Channel
      → Result PublishError (Unit {0}) × World S
  unfolding published
  publish_in w tenant_id channel_id sender ev now (err e) = (err (not_looked_up e), w)
  publish_in w tenant_id channel_id sender ev now (ok ch) =
      let ts = if ev.occurred_at == 0 then now else ev.occurred_at in
      let body = format_event_body ev in
      if encodes w (msg ch.name sender "" ts body)
      then (ok tt, published w tenant_id channel_id sender ch.name ev.source ts body)
      else (err not_encoded, w)

  unfoldable pub publish_inbound :
      World S → Uuid → Uuid → Uuid → Event → Time → Result PublishError (Unit {0}) × World S
  unfolding publish_in
  publish_inbound w tenant_id channel_id sender ev now =
      publish_in w tenant_id channel_id sender ev now
        (store.get_channel_by_id w.state tenant_id channel_id)
