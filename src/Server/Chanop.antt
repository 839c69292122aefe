-- ===== src/Server/Chanop.antt =====
-- internal/server/chanop.go: pausing and resuming a bot on a channel. `parse_uuid` is `uuid.Parse`,
-- `now` the clock.
pub mod Authority
mod Tests
use Prim.Native.String.{◌++◌}
use prm.Prelude.{
  ℕ, String, Bool, true, false, Option, none, some, List, [], ◌∷◌, if◌then◌else◌, ◌==◌, nat_eq,
  string_eq, lookup, Result, ok, err,
}
use prm.Channels.{Uuid, Time, Channel, HistoryEntry, broadcast, append_history}
use prm.Channels.Registry.{get, update}
use prm.Storage
use prm.Storage.{
  Store, Read, StoreError, not_found, Account, ChannelBotPause, ModerationEvent, account_bot,
  can_moderate, mod_action_pause_bot, mod_action_resume_bot,
}
use prm.Webhook.Manager.{Manager, set_bot_paused}
use prm.Proto.Kinds.{Frame}
use prm.Proto.Frames.{ChanopRequest}
use prm.Server.{
  msg, Conn, World, encodes, send_frames, send_frame, send_error, queue, new_stored_message,
}

format_reason : String → String
format_reason reason = if reason == "" then "" else ": \"" ++ reason ++ "\""

abbrev or_empty_role : Option String → String
or_empty_role none = ""
or_empty_role (some r) = r

abbrev pub Target : Type 0
Target = Account × Storage.Channel

module _ {S : Type 0} (store : Store S) (parse_uuid : String → Option Uuid) where
  target_channel : Account → Read Storage.Channel → Result String Target
  target_channel target (err e) = err "channel_not_found"
  target_channel target (ok ch) = ok (target, ch)

  target_account : S → Uuid → Uuid → Read Account → Result String Target
  unfolding target_channel
  target_account st tenant_id chan_id (err e) = err "not_found"
  target_account st tenant_id chan_id (ok target) =
      if target.kind == account_bot
      then target_channel target (store.get_channel_by_id st tenant_id chan_id)
      else err "not_a_bot"

  target_id : S → Uuid → Uuid → Option Uuid → Result String Target
  unfolding target_account
  target_id st tenant_id chan_id none = err "invalid_request"
  target_id st tenant_id chan_id (some bot_id) =
      target_account st tenant_id chan_id (store.get_account_by_id st tenant_id bot_id)

  target_joined : S → Conn → ChanopRequest → Option Uuid → Result String Target
  unfolding target_id
  target_joined st c m none = err "not_in_channel"
  target_joined st c m (some chan_id) =
      if can_moderate (or_empty_role (lookup m.channel c.joined_roles))
      then target_id st c.tenant_id chan_id (parse_uuid m.bot_account_id)
      else err "permission_denied"

  -- The target, or the reason of the error frame.
  unfoldable pub resolve_chanop_target : S → Conn → ChanopRequest → Result String Target
  unfolding target_joined
  resolve_chanop_target st c m =
      if m.channel == ""
      then err "invalid_request"
      else if m.bot_account_id == ""
      then err "invalid_request"
      else target_joined st c m (lookup m.channel c.joined_channels)

set_paused : Option Manager → Uuid → Uuid → Bool → Option Manager
set_paused none channel_id bot_id paused = none
set_paused (some m) channel_id bot_id paused = some (set_bot_paused m channel_id bot_id paused)

module _ {S : Type 0} where
  -- The channel in memory, if it is there, gets the notice like a message; one that is not encoded is
  -- dropped.
  emit_to : Option Channel → World S → Conn → String → Uuid → Time → String → World S
  emit_to none w c name chan_id now body = w
  emit_to (some ch) w c name chan_id now body =
      let f = msg name c.account_id "channel_op" now body in
      let entry : HistoryEntry = record {
        sender = c.account_id;
        display_name = c.display_name;
        ts = now;
        body = body;
      } in
      let w' = send_frames w (broadcast ch f) in
      let w'' =
        queue
          (record w' {
            registry = update w.registry (c.tenant_id, chan_id) (append_history ch entry);
          })
          (new_stored_message c.tenant_id chan_id c.account_id body now) in
      if encodes w f then w'' else w

  unfoldable pub emit_system_msg : World S → Conn → String → Uuid → Time → String → World S
  unfolding emit_to
  emit_system_msg w c name chan_id now body =
      emit_to (get w.registry (c.tenant_id, chan_id)) w c name chan_id now body

  -- A failure of the audit row is logged and dropped.
  audit : Store S → S → Conn → Uuid → Uuid → String → String → S
  audit store st c channel_id target_id action reason =
      (store.record_moderation_event st (record {
        tenant_id = c.tenant_id;
        channel_id = channel_id;
        actor_id = c.account_id;
        target_id = target_id;
        action = action;
        reason = reason;
      })).1

  -- What a verb does once the store has taken it; `verb` is "paused" or "resumed".
  carry_out :
      Store S → Time → World S → Conn → ChanopRequest → Target → Bool → String → String → World S
  unfolding set_paused audit emit_system_msg format_reason
  carry_out store now w c m (target, ch) paused action verb =
      let w' = record w {
        webhooks = set_paused w.webhooks ch.id target.id paused;
        state = audit store w.state c ch.id target.id action m.reason;
      } in
      let body =
        "[op] "
        ++ c.display_name
        ++ " "
        ++ verb
        ++ " bot @"
        ++ target.display_name
        ++ format_reason m.reason in
      send_frame (emit_system_msg w' c m.channel ch.id now body) c (
        Frame.chanop_ok
          (record { id = m.id; action = action; channel = m.channel; bot_account_id = target.id }))

  pause_written :
      Store S → Time → World S → Conn → ChanopRequest → Target → Read (Unit {0}) × S → World S
  unfolding carry_out
  pause_written store now w c m t (err e, st) =
      send_error (record w { state = st }) c "internal" m.id
  pause_written store now w c m t (ok _, st) =
      carry_out store now (record w { state = st }) c m t true mod_action_pause_bot "paused"

  pause_resolved : Store S → Time → World S → Conn → ChanopRequest → Result String Target → World S
  unfolding pause_written
  pause_resolved store now w c m (err reason) = send_error w c reason m.id
  pause_resolved store now w c m (ok (target, ch)) =
      pause_written store now w c m (target, ch)
        (store.set_channel_bot_pause w.state (record {
          tenant_id = c.tenant_id;
          channel_id = ch.id;
          bot_account_id = target.id;
          paused_by = c.account_id;
          reason = m.reason;
        }))

  unfoldable pub handle_pause_bot :
      Store S → (String → Option Uuid) → Time → World S → Conn → ChanopRequest → World S
  unfolding pause_resolved
  handle_pause_bot store parse_uuid now w c m =
      pause_resolved store now w c m (resolve_chanop_target store parse_uuid w.state c m)

  -- Resuming a bot that is not paused is no error.
  resume_written :
      Store S → Time → World S → Conn → ChanopRequest → Target → Read (Unit {0}) × S → World S
  unfolding carry_out
  resume_written store now w c m t (err not_found, st) =
      carry_out store now (record w { state = st }) c m t false mod_action_resume_bot "resumed"
  resume_written store now w c m t (err e, st) =
      send_error (record w { state = st }) c "internal" m.id
  resume_written store now w c m t (ok _, st) =
      carry_out store now (record w { state = st }) c m t false mod_action_resume_bot "resumed"

  resume_resolved : Store S → Time → World S → Conn → ChanopRequest → Result String Target → World S
  unfolding resume_written
  resume_resolved store now w c m (err reason) = send_error w c reason m.id
  resume_resolved store now w c m (ok (target, ch)) =
      resume_written store now w c m (target, ch)
        (store.remove_channel_bot_pause w.state c.tenant_id ch.id target.id)

  unfoldable pub handle_resume_bot :
      Store S → (String → Option Uuid) → Time → World S → Conn → ChanopRequest → World S
  unfolding resume_resolved
  handle_resume_bot store parse_uuid now w c m =
      resume_resolved store now w c m (resolve_chanop_target store parse_uuid w.state c m)
